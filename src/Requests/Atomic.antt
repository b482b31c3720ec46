-- ===== src/Requests/Atomic.antt =====
-- `approve` throws with the database as it was, and never for a lost race on the version.
use timeoff_request.Base.{◌≡◌, ◌≢◌, refl, String, none, some, arith, inl, inr, Option-cases}
use timeoff_request.Base.Int.{pos}
use timeoff_request.Base.Table.{find}
use timeoff_request.Domain.Errors.{Error, ok, err, domain, conflict}
use timeoff_request.Domain.Status.{assert_transition}
use timeoff_request.Domain.Days.{assert_has_balance}
use timeoff_request.Store.Rows.{Balance, TimeOffRequest, is_request, is_balance}
use timeoff_request.Store.World.{World}
use timeoff_request.Balances
use timeoff_request.Balances.{is_entry, same_event, consumed}
use timeoff_request.Balances.Rows.{
  clock, upserted_row, after_upsert, find-upsert_self, upsert_absolute_stores,
}
use timeoff_request.Balances.Consume.{after_consume, consume_with_version_succeeds}
use timeoff_request.Requests.Repository.{create_sync_event}
use timeoff_request.Requests.Service.{
  reserve, record_approval, record_reservation, finish_approval, approve_once, approve,
}

-- The first attempt always decides: an approval with a row to take the days from is not refused by
-- its version.
finish-ne-none :
    (b : Balance) (request : TimeOffRequest) (w : World)
    → (finish_approval (some b) request w).0 ≢ ok none
unfolding finish_approval
finish-ne-none b request w h = ground arith

reserve-ne-none :
    (request : TimeOffRequest) (b : Balance) (w : World)
    → find (is_balance request.employee_id request.location_id) w.db.balances ≡ some b
    → (reserve b request w).0 ≢ ok none
unfolding reserve assert_has_balance
reserve-ne-none request b w found h = ground (
  arith,
  h,
  consume_with_version_succeeds request.employee_id request.location_id request.days w b found,
  finish-ne-none (consumed request.days (clock w) b) request
      (after_consume request.employee_id request.location_id request.days b.version w),
)

-- the row that `get` finds, or else the one that the upsert leaves, is there for `consume`
approve_once-ne-none : (id : String) (w : World) → (approve_once id w).0 ≢ ok none
unfolding approve_once Balances.get
approve_once-ne-none id w h = elim (Option-cases (find (is_request id) w.db.requests)) [
  | inl absent ↦ ground arith
  | inr (row, found) ↦
      elim (Option-cases (find (is_balance row.employee_id row.location_id) w.db.balances)) [
        | inl fresh ↦ ground (
          arith,
          upsert_absolute_stores row.employee_id row.location_id (pos 0) w refl,
          reserve-ne-none row.request
              (upserted_row row.employee_id row.location_id (pos 0) (clock w)
                (find (is_balance row.employee_id row.location_id) w.db.balances))
              (after_upsert row.employee_id row.location_id (pos 0) w)
              (find-upsert_self row.employee_id row.location_id (pos 0) (clock w) w.db.balances),
        )
        | inr (b, old) ↦ ground (arith, reserve-ne-none row.request b w old)
      ]
]

record_approval-ne-conflict :
    (request : TimeOffRequest) (w : World) → (record_approval request w).0 ≢ err (domain conflict)
unfolding record_approval record_reservation Balances.insert_ledger_entry create_sync_event
record_approval-ne-conflict request w h = ground arith

reserve-ne-conflict :
    (b : Balance) (request : TimeOffRequest) (w : World)
    → (reserve b request w).0 ≢ err (domain conflict)
unfolding reserve finish_approval assert_has_balance Balances.consume_with_version Balances.get
reserve-ne-conflict b request w h = ground (
  arith,
  record_approval-ne-conflict request
      (after_consume request.employee_id request.location_id request.days b.version w),
)

approve_once-ne-conflict : (id : String) (w : World) → (approve_once id w).0 ≢ err (domain conflict)
unfolding approve_once Balances.get Balances.upsert_absolute assert_transition
approve_once-ne-conflict id w h = elim (Option-cases (find (is_request id) w.db.requests)) [
  | inl absent ↦ ground arith
  | inr (row, found) ↦
      elim (Option-cases (find (is_balance row.employee_id row.location_id) w.db.balances)) [
        | inl fresh ↦ ground (
          arith,
          reserve-ne-conflict
              (upserted_row row.employee_id row.location_id (pos 0) (clock w)
                (find (is_balance row.employee_id row.location_id) w.db.balances))
              row.request (after_upsert row.employee_id row.location_id (pos 0) w),
          find-upsert_self row.employee_id row.location_id (pos 0) (clock w) w.db.balances,
        )
        | inr (b, old) ↦ ground (arith, reserve-ne-conflict b row.request w)
      ]
]

-- Whatever the request and the database: `approve` never ends in CONFLICT after retries, and what
-- it throws leaves the database as it was.
pub approve_atomic :
    (id : String) (w : World) (e : Error)
    → (approve id w).0 ≡ err e
    → (e ≢ domain conflict) × ((approve id w).1.db ≡ w.db)
unfolding approve
approve_atomic id w e h = (
  λ c. ground (arith, approve_once-ne-none id w, approve_once-ne-conflict id w),
  ground (arith, approve_once-ne-none id w),
)
