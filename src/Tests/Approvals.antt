-- ===== src/Tests/Approvals.antt =====
-- Approvals in the sample world.
use timeoff_request.Base.{◌≡◌, ◌≢◌, refl, some, false, ◌&&◌, ◌++◌, [], ◌∷◌, String, ◌==◌, arith}
use timeoff_request.Base.Table.{find}
use timeoff_request.Domain.Errors.{ok, err, domain, conflict, request_not_found}
use timeoff_request.Store.Rows.{is_request, is_balance}
use timeoff_request.Balances.{consumed}
use timeoff_request.Balances.Rows.{clock}
use timeoff_request.Requests.Repository.{event_row}
use timeoff_request.Requests.Service.{approve, approve_once}
use timeoff_request.Requests.Approval.{
  IsFresh, time_after, approved_at, reservation_entry, approval_event, approve_grants,
}
use timeoff_request.Requests.Atomic.{approve_atomic}
use timeoff_request.Tests.Sample.{row, balance, world}

row-IsFresh : IsFresh row.request world
unfolding find
row-IsFresh = record { entry_is_new = refl; event_is_new = refl }

approve_grants_example :
    let (r, w') = approve "r1" world in
    let request = approved_at (time_after 1 world) row.request in
    (r ≡ ok request)
    × (find (is_request "r1") w'.db.requests ≡ some (record row { request = request }))
    × (find (is_balance "e1" "l1") w'.db.balances ≡ some (consumed row.days (clock world) balance))
    × (w'.db.ledger ≡ [] ++ reservation_entry "u" (time_after 2 world) request ∷ [])
    × (w'.db.sync_events
        ≡ []
          ++ event_row
              (approval_event "uu" (time_after 3 world) request world)
              (some "r1")
              (time_after 4 world)
            ∷ [])
    × ((j k : String)
        → ("e1" == j && "l1" == k) ≡ false
        → find (is_balance j k) w'.db.balances ≡ find (is_balance j k) world.db.balances)
unfolding find
approve_grants_example =
    approve_grants "r1" row balance world refl refl refl (omega arith) row-IsFresh

missing_request : (approve "r9" world).0 ≡ err (domain request_not_found)
unfolding approve approve_once find
missing_request = refl

approve_atomic_example :
    (domain request_not_found ≢ domain conflict) × ((approve "r9" world).1.db ≡ world.db)
approve_atomic_example = approve_atomic "r9" world (domain request_not_found) missing_request
