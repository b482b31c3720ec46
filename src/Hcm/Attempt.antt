-- ===== src/Hcm/Attempt.antt =====
-- What one attempt to deliver an outbound event does to its event, its request and its balance
-- (workers/outbound-sync.worker.ts).
use Prim.Native.Nat.{◌%◌}
use timeoff_request.Base.{
  ℕ, ◌+◌, ◌≡◌, refl, String, Option, some, Bool, true, false, ◌&&◌, arith, eq_iff, ltb,
}
use timeoff_request.Base.Int.{ℤ}
use timeoff_request.Base.Table.{find, find_holds, find-updated}
use timeoff_request.Domain.Errors.{Error, Result, ok, err}
use timeoff_request.Store.Rows.{Db, Balance, RequestRow, SyncEventRow, is_request, is_balance}
use timeoff_request.Store.World.{World}
use timeoff_request.Requests.Repository.{
  is_event, event_synced, event_failed, retried, request_synced, request_reversed, refunded,
  mark_sync_event_retry, mark_sync_event_synced, mark_sync_event_failed, mark_request_synced,
  mark_request_failed_and_reversed, find_by_id, reverse_request,
}
use timeoff_request.Observability
use timeoff_request.Balances.Rows.{clock}
use timeoff_request.Hcm.Client
use timeoff_request.Hcm.Worker

-- the client writes no table
pub submit-db :
    (e l : String) (days : ℤ) (w : World) → (Client.submit_approved_usage e l days w).1.db ≡ w.db
unfolding Client.submit_approved_usage Client.fetch
submit-db e l days w = ground arith

-- the client reads no clock and draws no random number
pub submit-env :
    (e l : String) (days : ℤ) (w : World)
    → let u = (Client.submit_approved_usage e l days w).1 in
      (u.env.times (u.env.time_reads + 1) ≡ w.env.times (w.env.time_reads + 1))
      × (u.env.randoms u.env.random_reads ≡ w.env.randoms w.env.random_reads)
unfolding Client.submit_approved_usage Client.fetch
submit-env e l days w = (ground arith, ground arith)

-- the rows that an attempt is about
module _ (event : SyncEventRow) (id : String) (row : RequestRow) (b : Balance) where
  abbrev pub event_in : Db → Option SyncEventRow
  event_in d = find (is_event event.id) d.sync_events

  abbrev pub request_in : Db → Option RequestRow
  request_in d = find (is_request id) d.requests

  abbrev pub balance_in : Db → Option Balance
  balance_in d = find (is_balance row.employee_id row.location_id) d.balances

  -- The event, its request and the request's balance are in the database.
  pub record IsStored (d : Db) : Type 0 where
    pub event_found : event_in d ≡ some event
    pub names_request : event.request_id ≡ some id
    pub request_found : request_in d ≡ some row
    pub balance_found : balance_in d ≡ some b

  -- no more attempts: the event has failed, the request is reversed, its days are given back
  pub record IsReversed (e : Error) (d : Db) : Type 0 where
    pub failed_at : ℕ
    pub reversed_at : ℕ
    pub refunded_at : ℕ
    pub event_failed_row : event_in d ≡ some (event_failed failed_at e event)
    pub request_reversed_row : request_in d ≡ some (request_reversed reversed_at row)
    pub balance_refunded_row : balance_in d ≡ some (refunded row.days refunded_at b)

  -- another attempt is due after the delay of the backoff from this time: the request and the balance
  -- are as they were
  pub record IsRetried (e : Error) (time jitter : ℕ) (d : Db) : Type 0 where
    pub event_retried_row :
        event_in d
        ≡ some (
            retried
              (event.attempt_count + 1)
              (time + Worker.backoff_delay (event.attempt_count + 1) jitter)
              e
              event)
    pub request_kept : request_in d ≡ some row
    pub balance_kept : balance_in d ≡ some b

  -- delivered: the event is processed and the request has its final status
  pub record IsSynced (d : Db) : Type 0 where
    pub synced_at : ℕ
    pub processed_at : ℕ
    pub event_synced_row : event_in d ≡ some (event_synced processed_at event)
    pub request_synced_row : request_in d ≡ some (request_synced synced_at row)
    pub balance_kept : balance_in d ≡ some b

  abbrev pub can_retry : Error → Bool
  can_retry e = Worker.is_transient e && ltb (event.attempt_count + 1) Worker.sync_max_attempts

  pub retry_lem :
      (e : Error) (w : World)
      → IsStored w.db
      → can_retry e ≡ true
      → ((Worker.give_up_or_retry event e w).0 ≡ ok 0)
        × IsRetried e
            (w.env.times (w.env.time_reads + 1))
            (w.env.randoms w.env.random_reads % 100)
            (Worker.give_up_or_retry event e w).1.db
  unfolding Worker.give_up_or_retry mark_sync_event_retry Worker.compute_next_attempt
      Observability.log_at Observability.inc
  retry_lem e w stored again = (
    ground arith,
    record {
      event_retried_row = ground (
        arith,
        find-updated (is_event event.id)
            (retried (event.attempt_count + 1)
              (w.env.times (w.env.time_reads + 1)
                + Worker.backoff_delay (event.attempt_count + 1)
                    (w.env.randoms w.env.random_reads % 100))
              e)
            w.db.sync_events event (λ r. refl),
        stored.event_found,
      );
      request_kept = ground (arith, stored.request_found);
      balance_kept = ground (arith, stored.balance_found);
    },
  )

  pub give_up_lem :
      (e : Error) (w : World)
      → IsStored w.db
      → can_retry e ≡ false
      → ((Worker.give_up_or_retry event e w).0 ≡ ok 0)
        × IsReversed e (Worker.give_up_or_retry event e w).1.db
  unfolding Worker.give_up_or_retry mark_sync_event_failed mark_request_failed_and_reversed
      find_by_id reverse_request Observability.log_at Observability.inc
  give_up_lem e w stored last = (
    ground (arith, stored.names_request, stored.request_found),
    record {
      failed_at = w.env.times (w.env.time_reads + 1);
      reversed_at = w.env.times (w.env.time_reads + 1 + 1);
      refunded_at = w.env.times (w.env.time_reads + 1 + 1 + 1);
      event_failed_row = ground (
        arith,
        find-updated (is_event event.id) (event_failed (w.env.times (w.env.time_reads + 1)) e)
            w.db.sync_events event (λ r. refl),
        stored.event_found,
        stored.names_request,
        stored.request_found,
      );
      request_reversed_row = ground (
        arith,
        find-updated (is_request id) (request_reversed (w.env.times (w.env.time_reads + 1 + 1)))
            w.db.requests row (λ r. refl),
        stored.names_request,
        stored.request_found,
        eq_iff row.id id,
        find_holds (is_request id) w.db.requests row,
      );
      balance_refunded_row = ground (
        arith,
        find-updated (is_balance row.employee_id row.location_id)
            (refunded row.days (w.env.times (w.env.time_reads + 1 + 1 + 1))) w.db.balances b
            (λ r. refl),
        stored.names_request,
        stored.request_found,
        stored.balance_found,
      );
    },
  )

  pub IsStored-submit :
      (e l : String) (days : ℤ) (w : World)
      → IsStored w.db
      → IsStored (Client.submit_approved_usage e l days w).1.db
  IsStored-submit e l days w stored = record {
    event_found = ground (arith, stored.event_found, submit-db e l days w);
    names_request = stored.names_request;
    request_found = ground (arith, stored.request_found, submit-db e l days w);
    balance_found = ground (arith, stored.balance_found, submit-db e l days w);
  }

  module _ (payload : Worker.OutboundPayload) (w : World) (stored : IsStored w.db) where
    abbrev sent : Result Unit × World
    sent = Client.submit_approved_usage payload.employee_id payload.location_id payload.days w

    pub deliver_ok :
        (started_at : ℕ)
        → sent.0 ≡ ok tt
        → ((Worker.deliver event payload started_at w).0 ≡ ok 1)
          × IsSynced (Worker.deliver event payload started_at w).1.db
    unfolding Worker.deliver Worker.complete mark_request_synced mark_sync_event_synced
        Observability.observe Observability.log_at
    deliver_ok started_at fine =
        let s : IsStored sent.1.db =
          IsStored-submit payload.employee_id payload.location_id payload.days w stored in
        (
          ground (arith, s.names_request),
          record {
            synced_at = clock sent.1;
            processed_at = sent.1.env.times (sent.1.env.time_reads + 1);
            event_synced_row = ground (
              arith,
              find-updated (is_event event.id)
                  (event_synced (sent.1.env.times (sent.1.env.time_reads + 1)))
                  sent.1.db.sync_events event (λ r. refl),
              s.event_found,
              s.names_request,
            );
            request_synced_row = ground (
              arith,
              find-updated (is_request id) (request_synced (clock sent.1)) sent.1.db.requests row
                  (λ r. refl),
              s.request_found,
              s.names_request,
            );
            balance_kept = ground (arith, s.balance_found, s.names_request);
          },
        )

    pub deliver_err :
        (started_at : ℕ) (e : Error)
        → sent.0 ≡ err e
        → Worker.deliver event payload started_at w ≡ (err e, sent.1)
    unfolding Worker.deliver
    deliver_err started_at e fails = ground arith
