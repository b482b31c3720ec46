-- ===== src/Hcm/Twice.antt =====
-- What a run of the outbound worker does before and after the answer of the HCM
-- (workers/outbound-sync.worker.ts).
use timeoff_request.Base.{
  ℕ, ◌+◌, ◌≡◌, refl, String, some, ◌++◌, Bool, true, not, ◌&&◌, ltb, [], ◌∷◌, arith, eq_iff,
}
use timeoff_request.Base.Int.{ℤ, pos, ◌+ℤ◌, int_laws}
use timeoff_request.Base.Table.{find, find_holds, find-updated}
use timeoff_request.Domain.Errors.{Error, Result, ok, err}
use timeoff_request.Domain.Status.{RequestStatus, synced, reversed}
use timeoff_request.Store.Rows.{Db, Balance, RequestRow, SyncEventRow, is_request, is_balance}
use timeoff_request.Store.World.{World, HcmRequest}
use timeoff_request.Balances.Rows.{ticked, clock}
use timeoff_request.Requests.Repository.{
  request_synced, request_reversed, refunded, mark_sync_event_synced, mark_sync_event_failed,
  mark_sync_event_retry, mark_request_synced, mark_request_failed_and_reversed, find_by_id,
  reverse_request, list_due_outbound_sync_events,
}
use timeoff_request.Observability
use timeoff_request.Hcm.Client
use timeoff_request.Hcm.Worker
use timeoff_request.Hcm.Overlap
use timeoff_request.Hcm.Overlap.{Flight, Run, waiting, finished, System, Turn, sent_on}

-- the answer is not tried again
abbrev pub is_final : SyncEventRow → Result Unit → Bool
is_final event (ok _) = true
is_final event (err e) =
    not (Worker.is_transient e && ltb (event.attempt_count + 1) Worker.sync_max_attempts)

abbrev pub status_after : Result Unit → RequestStatus
status_after (ok _) = synced
status_after (err _) = reversed

abbrev pub given_back : ℤ → Result Unit → ℤ
given_back days (ok _) = pos 0
given_back days (err _) = days

-- what the answer adds to `processed`
abbrev pub counted : Result Unit → ℕ
counted (ok _) = 1
counted (err _) = 0

module _ (id : String) (row : RequestRow) (b : Balance) where
  -- the request and its balance, after an answer was settled
  pub record IsSettled (answer : Result Unit) (d : Db) : Type 0 where
    pub row_now : RequestRow
    pub balance_now : Balance
    pub request_found : find (is_request id) d.requests ≡ some row_now
    pub balance_found :
        find (is_balance row.employee_id row.location_id) d.balances ≡ some balance_now
    pub employee_kept : row_now.employee_id ≡ row.employee_id
    pub location_kept : row_now.location_id ≡ row.location_id
    pub days_kept : row_now.days ≡ row.days
    pub status_now : row_now.status ≡ status_after answer
    pub days_now : balance_now.available_days ≡ b.available_days +ℤ given_back row.days answer

  module _ (flight : Flight) (w : World) (names : flight.event.request_id ≡ some id)
      (found : find (is_request id) w.db.requests ≡ some row)
      (stored : find (is_balance row.employee_id row.location_id) w.db.balances ≡ some b) where
    settle_ok :
        flight.answer ≡ ok tt
        → ((Overlap.settle flight w).0 ≡ ok 1) × IsSettled (ok tt) (Overlap.settle flight w).1.db
    unfolding Overlap.settle Worker.complete mark_request_synced mark_sync_event_synced
        Observability.observe Observability.log_at
    settle_ok fine = (
      ground (arith, fine, names),
      record {
        row_now = request_synced (clock w) row;
        balance_now = b;
        request_found = ground (
          arith,
          find-updated (is_request id) (request_synced (clock w)) w.db.requests row (λ r. refl),
          fine,
          names,
          found,
        );
        balance_found = ground (arith, fine, names, stored);
        employee_kept = refl;
        location_kept = refl;
        days_kept = refl;
        status_now = refl;
        days_now = grind int_laws;
      },
    )

    settle_err :
        (e : Error)
        → flight.answer ≡ err e
        → is_final flight.event (err e) ≡ true
        → ((Overlap.settle flight w).0 ≡ ok 0) × IsSettled (err e) (Overlap.settle flight w).1.db
    unfolding Overlap.settle Worker.give_up_or_retry mark_sync_event_failed
        mark_request_failed_and_reversed find_by_id reverse_request Observability.inc
        Observability.log_at
    settle_err e fails final = (
      ground (arith, fails, final, names, found),
      record {
        row_now = request_reversed (w.env.times (w.env.time_reads + 1 + 1)) row;
        balance_now = refunded row.days (w.env.times (w.env.time_reads + 1 + 1 + 1)) b;
        request_found = ground (
          arith,
          find-updated (is_request id) (request_reversed (w.env.times (w.env.time_reads + 1 + 1)))
              w.db.requests row (λ r. refl),
          fails,
          final,
          names,
          found,
          eq_iff row.id id,
          find_holds (is_request id) w.db.requests row,
        );
        balance_found = ground (
          arith,
          find-updated (is_balance row.employee_id row.location_id)
              (refunded row.days (w.env.times (w.env.time_reads + 1 + 1 + 1))) w.db.balances b
              (λ r. refl),
          fails,
          final,
          names,
          found,
          stored,
        );
        employee_kept = refl;
        location_kept = refl;
        days_kept = refl;
        status_now = refl;
        days_now = refl;
      },
    )

    pub settle_lem :
        (answer : Result Unit)
        → flight.answer ≡ answer
        → is_final flight.event answer ≡ true
        → ((Overlap.settle flight w).0 ≡ ok (counted answer))
          × IsSettled answer (Overlap.settle flight w).1.db
    settle_lem (ok tt) fine final = settle_ok fine
    settle_lem (err e) fails final = settle_err e fails final

pub start_lem :
    (event : SyncEventRow) (payload : Worker.OutboundPayload) (limit : ℕ) (w : World)
    → Worker.parse_payload event.payload_hash ≡ some payload
    → list_due_outbound_sync_events limit w ≡ (ok (event ∷ []), ticked w)
    → Overlap.start limit w ≡ sent_on [] 0 (Overlap.send event payload (ticked w))
unfolding Overlap.start Overlap.advance
start_lem event payload limit w parsed due = rw due (rw parsed refl)

pub resume_lem :
    (flight : Flight) (n : ℕ) (w : World)
    → (Overlap.settle flight w).0 ≡ ok n
    → Overlap.resume (waiting flight [] 0) w ≡ (finished n, (Overlap.settle flight w).1)
unfolding Overlap.resume Overlap.advance
resume_lem flight n w h = rw h (ground arith)

abbrev pub consumption : Worker.OutboundPayload → HcmRequest
consumption payload = HcmRequest.consume payload.employee_id payload.location_id payload.days

pub send-sent :
    (event : SyncEventRow) (payload : Worker.OutboundPayload) (w : World)
    → Client.is_remote w.hcm.base_url ≡ true
    → let w' = (Overlap.send event payload w).1 in
      (w'.env.sent ≡ w.env.sent ++ consumption payload ∷ []) × (w'.hcm ≡ w.hcm)
unfolding Overlap.send Client.submit_approved_usage Client.fetch
send-sent event payload w remote = (ground arith, ground arith)

pub settle-sent : (flight : Flight) (w : World) → (Overlap.settle flight w).1.env.sent ≡ w.env.sent
unfolding Overlap.settle Worker.complete Worker.give_up_or_retry mark_sync_event_failed
    mark_request_failed_and_reversed find_by_id reverse_request Observability.inc
    Observability.log_at Observability.observe mark_sync_event_synced mark_request_synced
    mark_sync_event_retry Worker.compute_next_attempt
settle-sent flight w = ground arith
