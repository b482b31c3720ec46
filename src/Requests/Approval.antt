-- ===== src/Requests/Approval.antt =====
-- `approve`: the first attempt decides, and a success is the whole of what the approval does.
use timeoff_request.Base.{
  ℕ, ◌+◌, ◌≡◌, ◌∙◌, refl, String, none, some, true, false, ◌&&◌, [], ◌∷◌, ◌++◌, arith, ◌==◌, eq_iff,
  eq_refl,
}
use timeoff_request.Base.Int.{ℤ, pos, ◌-ℤ◌, leb_ℤ, ◌≤ℤ◌, int_laws}
use timeoff_request.Base.Table.{find, update_where, find-update_where, find_holds}
use timeoff_request.Domain.Errors.{ok}
use timeoff_request.Domain.Status.{approved, pending, assert_transition}
use timeoff_request.Domain.Days.{assert_has_balance}
use timeoff_request.Store.Rows.{
  Balance, TimeOffRequest, RequestRow, BalanceLedgerEntry, reservation, SyncEvent, uuid, outbound,
  queued, is_request, is_balance,
}
use timeoff_request.Store.World.{World}
use timeoff_request.Balances
use timeoff_request.Balances.{is_entry, same_event, consumed}
use timeoff_request.Balances.Rows.{clock}
use timeoff_request.Balances.Consume.{
  after_consume, consume_with_version_succeeds, find-after_consume, find-after_consume_other,
}
use timeoff_request.Requests.Repository.{saved, event_row, create_sync_event}
use timeoff_request.Requests.Service.{
  outbound_payload, approval_event_id, record_approval, record_reservation, finish_approval,
  approve_once, approve,
}

-- the n-th next reading of the clock, and of `randomUUID`
abbrev pub time_after : ℕ → World → ℕ
time_after n w = w.env.times (w.env.time_reads + n)

-- The two random keys are new to their tables, and the request has no approval event yet.
pub record IsFresh (request : TimeOffRequest) (w : World) : Type 0 where
  pub entry_is_new : find (is_entry (w.env.uuids w.env.uuid_reads)) w.db.ledger ≡ none
  pub event_is_new :
      find
        (same_event
          (uuid (w.env.uuids (w.env.uuid_reads + 1)))
          (approval_event_id request.id)
          (outbound_payload request w.trace)
          outbound)
        w.db.sync_events
      ≡ none

abbrev pub approved_at : ℕ → TimeOffRequest → TimeOffRequest
approved_at time request = record request { status = approved; updated_at = time }

-- the ledger entry and the sync event of an approval
abbrev pub reservation_entry : String → ℕ → TimeOffRequest → BalanceLedgerEntry
reservation_entry id time request = record {
  id = id;
  balance_key = Balances.balance_key request.employee_id request.location_id;
  entry_type = reservation;
  days = request.days;
  request_id = some request.id;
  source = "LOCAL_APPROVAL";
  created_at = time;
}

abbrev pub approval_event : String → ℕ → TimeOffRequest → World → SyncEvent
approval_event id time request w = record {
  id = uuid id;
  direction = outbound;
  external_event_id = approval_event_id request.id;
  payload_hash = outbound_payload request w.trace;
  status = queued;
  error = none;
  created_at = time;
}

abbrev pub after_record : TimeOffRequest → World → World
after_record request w = record w {
  env = record w.env {
    time_reads = w.env.time_reads + 1 + 1 + 1 + 1;
    uuid_reads = w.env.uuid_reads + 1 + 1;
  };
  db = record w.db {
    requests =
        update_where (is_request request.id) (saved (approved_at (clock w) request)) w.db.requests;
    ledger =
        w.db.ledger
        ++ reservation_entry (w.env.uuids w.env.uuid_reads) (w.env.times (w.env.time_reads + 1))
            request
          ∷ [];
    sync_events =
        w.db.sync_events
        ++ event_row
            (approval_event (w.env.uuids (w.env.uuid_reads + 1))
              (w.env.times (w.env.time_reads + 1 + 1)) request w)
            (some request.id) (w.env.times (w.env.time_reads + 1 + 1 + 1))
          ∷ [];
  };
}

record_approval_lem :
    (request : TimeOffRequest) (row : RequestRow) (w : World)
    → find (is_request request.id) w.db.requests ≡ some row
    → IsFresh request w
    → record_approval request w ≡ (ok (approved_at (clock w) request), after_record request w)
unfolding record_approval record_reservation Balances.insert_ledger_entry create_sync_event
    outbound_payload
record_approval_lem request row w found fresh = ground (
  arith,
  find-update_where (is_request request.id) (is_request request.id)
      (saved (approved_at (clock w) request)) w.db.requests (λ r. refl),
)

-- the world that a granted approval leaves
abbrev pub after_approval : TimeOffRequest → Balance → World → World
after_approval request b w =
    after_record request
      (after_consume request.employee_id request.location_id request.days b.version w)

module _ (id : String) (row : RequestRow) (b : Balance) (w : World)
    (found : find (is_request id) w.db.requests ≡ some row)
    (balance : find (is_balance row.employee_id row.location_id) w.db.balances ≡ some b)
    (is_pending : row.status ≡ pending)
    (enough : leb_ℤ (pos 0) (b.available_days -ℤ row.days) ≡ true) where
  finish_lem :
      (c : Balance)
      → IsFresh row.request w
      → finish_approval
          (some c)
          row.request
          (after_consume row.employee_id row.location_id row.days b.version w)
        ≡ (
          ok (some (approved_at (w.env.times (w.env.time_reads + 1)) row.request)),
          after_approval row.request b w,
        )
  unfolding finish_approval
  finish_lem c fresh = ground (
    arith,
    record_approval_lem row.request row
        (after_consume row.employee_id row.location_id row.days b.version w),
    eq_iff row.id id,
    find_holds (is_request id) w.db.requests row found,
  )

  pub once_lem :
      approve_once id w
      ≡ finish_approval
          (some (consumed row.days (clock w) b))
          row.request
          (after_consume row.employee_id row.location_id row.days b.version w)
  unfolding approve_once Balances.get assert_transition assert_has_balance
  once_lem = ground (
    arith,
    consume_with_version_succeeds row.employee_id row.location_id row.days w b balance enough,
  )

  once_grants :
      IsFresh row.request w
      → approve_once id w ≡ (
        ok (some (approved_at (w.env.times (w.env.time_reads + 1)) row.request)),
        after_approval row.request b w,
      )
  once_grants fresh = once_lem ∙ finish_lem (consumed row.days (clock w) b) fresh

  pub approve_lem :
      IsFresh row.request w
      → approve id w ≡ (
        ok (approved_at (w.env.times (w.env.time_reads + 1)) row.request),
        after_approval row.request b w,
      )
  unfolding approve
  approve_lem fresh = ground (arith, once_grants fresh)

-- A sufficient test on the amounts.
pub covers : (a d : ℤ) → d ≤ℤ a → leb_ℤ (pos 0) (a -ℤ d) ≡ true
covers a d h = grind (int_laws)

-- A pending request of at most the days at hand is approved, if the two random keys are new and it
-- has no approval event yet: the request's row has the new status and time and is otherwise as it
-- was (`sync_state` too), the balance has the days taken off and the next version, the ledger and
-- the sync events have one more row each, and every other balance has the row that it had.
pub approve_grants :
    (id : String) (row : RequestRow) (b : Balance) (w : World)
    → find (is_request id) w.db.requests ≡ some row
    → find (is_balance row.employee_id row.location_id) w.db.balances ≡ some b
    → row.status ≡ pending
    → row.days ≤ℤ b.available_days
    → IsFresh row.request w
    → let (r, w') = approve id w in
      let request = approved_at (time_after 1 w) row.request in
      (r ≡ ok request)
      × (find (is_request id) w'.db.requests ≡ some (record row { request = request }))
      × (find (is_balance row.employee_id row.location_id) w'.db.balances
          ≡ some (consumed row.days (clock w) b))
      × (w'.db.ledger
          ≡ w.db.ledger
            ++ reservation_entry (w.env.uuids w.env.uuid_reads) (time_after 2 w) request ∷ [])
      × (w'.db.sync_events
          ≡ w.db.sync_events
            ++ event_row
                (approval_event (w.env.uuids (w.env.uuid_reads + 1)) (time_after 3 w) request w)
                (some id)
                (time_after 4 w)
              ∷ [])
      × ((j k : String)
          → (row.employee_id == j && row.location_id == k) ≡ false
          → find (is_balance j k) w'.db.balances ≡ find (is_balance j k) w.db.balances)
unfolding outbound_payload
approve_grants id row b w found balance is_pending enough fresh =
    let full : leb_ℤ (pos 0) (b.available_days -ℤ row.days) ≡ true = covers _ _ enough in
    rw (approve_lem id row b w found balance is_pending full fresh) (
      refl,
      ground (
        arith,
        find-update_where (is_request row.id) (is_request id)
            (saved (approved_at (time_after 1 w) row.request)) w.db.requests (λ r. refl),
        eq_refl row.id,
      ),
      find-after_consume row.employee_id row.location_id row.days w b balance full,
      ground arith,
      ground (arith, eq_iff row.id id, find_holds (is_request id) w.db.requests row found),
      find-after_consume_other row.employee_id row.location_id row.days w b balance full,
    )
