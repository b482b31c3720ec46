-- ===== src/Hcm/Reversal.antt =====
-- An approval that the HCM refuses: the reservation of `approve` and the reversal of the outbound
-- worker cancel out.
use timeoff_request.Base.{
  ℕ, ◌+◌, ◌≡◌, refl, String, none, some, Bool, true, false, List, [], ◌∷◌, arith, eq_refl,
}
use timeoff_request.Base.Int.{ℤ, ◌≤ℤ◌, int_laws}
use timeoff_request.Base.Table.{find, find-append}
use timeoff_request.Domain.Errors.{Error, err}
use timeoff_request.Domain.Status.{pending, reversed}
use timeoff_request.Store.Rows.{Balance, RequestRow, SyncEventRow, uuid, is_request, is_balance}
use timeoff_request.Store.World.{World}
use timeoff_request.Balances.{consumed}
use timeoff_request.Balances.Rows.{clock}
use timeoff_request.Requests.Repository.{is_event, event_row, refunded}
use timeoff_request.Requests.Service.{approve}
use timeoff_request.Requests.Approval.{
  time_after, approved_at, approval_event, IsFresh, approve_grants,
}
use timeoff_request.Hcm.Worker
use timeoff_request.Hcm.Backoff.{parse_payload-outbound_payload, ids_of}
use timeoff_request.Hcm.Attempt.{IsStored}
use timeoff_request.Hcm.Outcome.{answer, process_event_lem}

find-narrow {ℓ} :
    {R : Type ℓ} (p q : R → Bool) (rows : List R)
    → find q rows ≡ none
    → ((r : R) → p r ≡ true → q r ≡ true)
    → find p rows ≡ none
unfolding find
find-narrow p q [] h narrow = refl
find-narrow p q (r ∷ rows) h narrow = ground (arith, narrow r, find-narrow p q rows)

-- taking days off and giving them back
refund_restores :
    (days : ℤ) (t t' : ℕ) (b : Balance)
    → (refunded days t' (consumed days t b)).available_days ≡ b.available_days
refund_restores days t t' b = grind (int_laws)

-- the event that an approval leaves
abbrev pub event_of : String → RequestRow → World → SyncEventRow
event_of id row w =
    event_row
      (approval_event (w.env.uuids (w.env.uuid_reads + 1)) (time_after 3 w)
        (approved_at (time_after 1 w) row.request) w)
      (some id) (time_after 4 w)

-- what the worker reads in it
abbrev pub payload_of : RequestRow → World → Worker.OutboundPayload
payload_of row w = record {
  employee_id = row.employee_id;
  location_id = row.location_id;
  days = row.days;
  trace = ids_of w.trace;
}

abbrev pub approved_row : RequestRow → World → RequestRow
approved_row row w = record row { request = approved_at (time_after 1 w) row.request }

module _ (id : String) (row : RequestRow) (b : Balance) (w : World)
    (found : find (is_request id) w.db.requests ≡ some row)
    (balance : find (is_balance row.employee_id row.location_id) w.db.balances ≡ some b)
    (is_pending : row.status ≡ pending) (enough : row.days ≤ℤ b.available_days)
    (fresh : IsFresh row.request w) where
  event_is_new : find (is_event (uuid (w.env.uuids (w.env.uuid_reads + 1)))) w.db.sync_events ≡ none
  event_is_new =
      find-narrow (is_event (uuid (w.env.uuids (w.env.uuid_reads + 1)))) _ w.db.sync_events
        fresh.event_is_new (λ r h. ground arith)

  pub approval-IsStored :
      IsStored
        (event_of id row w)
        id
        (approved_row row w)
        (consumed row.days (clock w) b)
        (approve id w).1.db
  approval-IsStored =
      let (_, request, days, _, events, _) =
        approve_grants id row b w found balance is_pending enough fresh in
      record {
        event_found = ground (
          arith,
          events,
          find-append (is_event (uuid (w.env.uuids (w.env.uuid_reads + 1)))) w.db.sync_events
              (event_of id row w),
          event_is_new,
          eq_refl (w.env.uuids (w.env.uuid_reads + 1)),
        );
        names_request = refl;
        request_found = request;
        balance_found = days;
      }

-- A request that `approve` grants (as in `approve_grants`), and whose event the worker then tries to
-- deliver: if the HCM client throws anything but a transient failure, the request ends as reversed
-- and its balance has exactly the days that it had before the approval.
pub refused_approval_restores_days :
    (id : String) (row : RequestRow) (b : Balance) (w : World) (e : Error)
    → find (is_request id) w.db.requests ≡ some row
    → find (is_balance row.employee_id row.location_id) w.db.balances ≡ some b
    → row.status ≡ pending
    → row.days ≤ℤ b.available_days
    → IsFresh row.request w
    → answer (event_of id row w) (payload_of row w) (approve id w).1 ≡ err e
    → Worker.is_transient e ≡ false
    → let w' = (Worker.process_event (event_of id row w) (approve id w).1).1 in
      ((r : RequestRow) × (find (is_request id) w'.db.requests ≡ some r) × (r.status ≡ reversed))
      × ((c : Balance) × (find (is_balance row.employee_id row.location_id) w'.db.balances ≡ some c)
          × (c.available_days ≡ b.available_days))
refused_approval_restores_days id row b w e found balance is_pending enough fresh refused final =
    let parsed =
      parse_payload-outbound_payload (approved_at (time_after 1 w) row.request) w.trace in
    let stored = approval-IsStored id row b w found balance is_pending enough fresh in
    let (_, _, fails) =
      process_event_lem (event_of id row w) id (approved_row row w) (consumed row.days (clock w) b)
        (payload_of row w) (approve id w).1 parsed stored in
    let (_, undone) = fails e refused (ground arith) in
    (
      (_, undone.request_reversed_row, refl),
      (_, undone.balance_refunded_row, refund_restores row.days (clock w) undone.refunded_at b),
    )
