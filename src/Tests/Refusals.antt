-- ===== src/Tests/Refusals.antt =====
-- Refused approvals, closed requests, and the diagram of statuses.
use timeoff_request.Base.{◌≡◌, ◌≢◌, ◌↔◌, refl, String, some, [], ◌∷◌, ◌==◌, if◌then◌else◌}
use timeoff_request.Base.Int.{pos}
use timeoff_request.Base.Table.{find}
use timeoff_request.Domain.Errors.{DomainErrorCode, ok, err, domain, insufficient_balance}
use timeoff_request.Domain.Status.{pending, approved, rejected, reversed, assert_transition}
use timeoff_request.Domain.Lifecycle.{Edge, Step, Path1, assert_transition_decides}
use timeoff_request.Store.Rows.{RequestRow}
use timeoff_request.Store.World.{World}
use timeoff_request.Balances.Rows.{clock}
use timeoff_request.Requests.Service.{approve}
use timeoff_request.Requests.Refusals.{approve_refuses}
use timeoff_request.Requests.Closing.{cancelling, close, closed_at, obstacle, request_in, close_lem}
use timeoff_request.Tests.Sample.{row, world}

-- a request of forty days, where ten are left
abbrev overdrawn : World
overdrawn = record world {
  db = record world.db {
    requests = record row { request = record row.request { days = pos 40 } } ∷ [];
  };
}

approve_refuses_example : (approve "r1" overdrawn).0 ≡ err (domain insufficient_balance)
unfolding find
approve_refuses_example = approve_refuses "r1" overdrawn insufficient_balance refl

assert_transition_decides_example :
    ((assert_transition pending rejected ≡ ok tt) ↔ Step pending rejected)
    × ¬ (Edge approved reversed)
    × (Path1 pending rejected → pending ≢ rejected)
assert_transition_decides_example = assert_transition_decides pending rejected

close_lem_example :
    ((code : DomainErrorCode)
      → obstacle (request_in "r1" world) ≡ some code
      → close cancelling "r1" world ≡ (err (domain code), world))
    × ((r : RequestRow)
        → request_in "r1" world ≡ some r
        → r.status ≡ pending
        → let (result, w') = close cancelling "r1" world in
          let request = closed_at cancelling (clock world) r.request in
          (result ≡ ok request)
          × ((j : String)
              → request_in j w'
                ≡ (if "r1" == j then some (record r { request = request }) else request_in j world))
          × (w'.db ≡ record world.db { requests = w'.db.requests }))
close_lem_example = close_lem cancelling "r1" world
