-- ===== src/Accounts/Settling.antt =====
-- What the delivery of one outbound event (workers/outbound-sync.worker.ts) does to the requests and
-- the balances: nothing, or the request is synced, or it is reversed with its days given back.
use mathlib.Core.Option
use Prim.Native.Nat.{◌%◌}
use mathlib.Core.Path.{subst}
use timeoff_request.Base.{
  Bool, List, [], ◌∷◌, ℕ, ◌+◌, ◌≡◌, ◌∙◌, refl, ap, sym, String, Option, none, some, false, ◌&&◌,
  arith, inl, inr, Bool-cases, ltb,
}
use timeoff_request.Base.Table.{find, update_where}
use timeoff_request.Domain.Errors.{Error, Result, ok, err, Result-cases}
use timeoff_request.Store.Rows.{Db, RequestRow, error, SyncEventRow, is_request, is_balance}
use timeoff_request.Store.World.{World}
use timeoff_request.Balances.Rows.{clock, ticked}
use timeoff_request.Requests.Repository.{
  is_event, event_synced, event_failed, retried, request_synced, request_reversed, refunded,
  mark_sync_event_retry, mark_sync_event_synced, mark_sync_event_failed, mark_request_synced,
  mark_request_failed_and_reversed, find_by_id, reverse_request,
}
use timeoff_request.Observability
use timeoff_request.Hcm.Client
use timeoff_request.Hcm.Worker
use timeoff_request.Hcm.Attempt.{submit-db}

-- an update of events that leaves the key, the direction and the request alone
pub record KeepsName (f : SyncEventRow → SyncEventRow) : Type 0 where
  pub same_id : (r : SyncEventRow) → (f r).id ≡ r.id
  pub same_direction : (r : SyncEventRow) → (f r).direction ≡ r.direction
  pub same_request : (r : SyncEventRow) → (f r).request_id ≡ r.request_id

-- the rows of one event may have changed
pub record IsTouched (event : SyncEventRow) (d now : Db) : Type 0 where
  pub f : SyncEventRow → SyncEventRow
  pub key : KeepsName f
  pub events : now.sync_events ≡ update_where (is_event event.id) f d.sync_events

pub data Settled (event : SyncEventRow) (id : String) (d now : Db) : Type 0 where
  kept :
      now.balances ≡ d.balances
      → now.requests ≡ d.requests
      → IsTouched event d now
      → Settled event id d now
  synced_at :
      (time : ℕ)
      → now.balances ≡ d.balances
      → now.requests ≡ update_where (is_request id) (request_synced time) d.requests
      → IsTouched event d now
      → Settled event id d now
  reversed_at :
      (row : RequestRow) (time later failed_at : ℕ) (e : Error)
      → find (is_request id) d.requests ≡ some row
      → now.balances
        ≡ update_where
            (is_balance row.employee_id row.location_id)
            (refunded row.days later)
            d.balances
      → now.requests ≡ update_where (is_request row.id) (request_reversed time) d.requests
      → now.sync_events ≡ update_where (is_event event.id) (event_failed failed_at e) d.sync_events
      → Settled event id d now

pub KeepsName-synced : (t : ℕ) → KeepsName (event_synced t)
KeepsName-synced t = record {
  same_id = λ r. refl;
  same_direction = λ r. refl;
  same_request = λ r. refl;
}

pub KeepsName-failed : (t : ℕ) (e : Error) → KeepsName (event_failed t e)
KeepsName-failed t e = record {
  same_id = λ r. refl;
  same_direction = λ r. refl;
  same_request = λ r. refl;
}

KeepsName-retried : (n t : ℕ) (e : Error) → KeepsName (retried n t e)
KeepsName-retried n t e = record {
  same_id = λ r. refl;
  same_direction = λ r. refl;
  same_request = λ r. refl;
}

update_where-same :
    (p : SyncEventRow → Bool) (rows : List SyncEventRow) → rows ≡ update_where p (λ r. r) rows
unfolding update_where
update_where-same p [] = refl
update_where-same p (r ∷ rows) = ground (arith, update_where-same p rows)

reverse_found :
    (event : SyncEventRow) (failed_at : ℕ) (e : Error) (o : Option RequestRow) (id : String)
    (d : Db) (w : World)
    → w.db.balances ≡ d.balances
    → w.db.requests ≡ d.requests
    → w.db.sync_events ≡ update_where (is_event event.id) (event_failed failed_at e) d.sync_events
    → find (is_request id) w.db.requests ≡ o
    → let (r, w') = reverse_request (Option.map (λ r. r.request) o) w in
      (r ≡ ok tt) × Settled event id d w'.db
unfolding reverse_request
reverse_found event failed_at e none id d w balances requests events found = (
  refl,
  Settled.kept balances requests (record {
    f = event_failed failed_at e;
    key = KeepsName-failed failed_at e;
    events = events;
  }),
)
reverse_found event failed_at e (some row) id d w balances requests events found = (
  refl,
  Settled.reversed_at row (clock w) (w.env.times (w.env.time_reads + 1)) failed_at e
      (ap (find (is_request id)) (sym requests) ∙ found) (rw balances refl) (rw requests refl)
      events,
)

mark_reversed-Settled :
    (event : SyncEventRow) (failed_at : ℕ) (e : Error) (id : String) (d : Db) (w : World)
    → w.db.balances ≡ d.balances
    → w.db.requests ≡ d.requests
    → w.db.sync_events ≡ update_where (is_event event.id) (event_failed failed_at e) d.sync_events
    → let (r, w') = mark_request_failed_and_reversed id w in (r ≡ ok tt) × Settled event id d w'.db
unfolding mark_request_failed_and_reversed find_by_id
mark_reversed-Settled event failed_at e id d w balances requests events =
    reverse_found event failed_at e (find (is_request id) w.db.requests) id d w balances requests
      events refl

-- `computeNextAttempt` after the two readings of the clock of a failure
abbrev next_time : SyncEventRow → World → ℕ
next_time event w =
    w.env.times (w.env.time_reads + 1)
    + Worker.backoff_delay (event.attempt_count + 1) (w.env.randoms w.env.random_reads % 100)

module _ (event : SyncEventRow) (id : String) (names : event.request_id ≡ some id) where
  complete-Settled : (t : ℕ) (w : World) → Settled event id w.db (Worker.complete event t w).1.db
  unfolding Worker.complete mark_request_synced mark_sync_event_synced Observability.observe
      Observability.log_at
  complete-Settled t w = rw names (
      Settled.synced_at (clock w) refl refl (record {
        f = event_synced (w.env.times (w.env.time_reads + 1));
        key = KeepsName-synced (w.env.times (w.env.time_reads + 1));
        events = refl;
      }))

  complete_returns : (t : ℕ) (w : World) → (Worker.complete event t w).0 ≡ ok 1
  unfolding Worker.complete mark_request_synced mark_sync_event_synced Observability.observe
      Observability.log_at
  complete_returns t w = rw names refl

  abbrev given_up : Error → World → World
  given_up e w =
      (mark_sync_event_failed event.id e
        (Observability.log_at error "OutboundSyncWorker" (Worker.failure_fields event e)
          (Observability.inc "hcm_sync_failures_total" w).1).1).1

  gave_up :
      (e : Error) (w : World)
      → (Worker.is_transient e && ltb (event.attempt_count + 1) Worker.sync_max_attempts) ≡ false
      → (Worker.give_up_or_retry event e w).1.db
        ≡ (mark_request_failed_and_reversed id (given_up e w)).1.db
  unfolding Worker.give_up_or_retry mark_sync_event_failed Observability.log_at Observability.inc
  gave_up e w last = ground (
    arith,
    last,
    names,
    (mark_reversed-Settled event (w.env.times (w.env.time_reads + 1)) e id w.db (given_up e w) refl
        refl refl).0,
  )

  give_up-Settled :
      (e : Error) (w : World) → Settled event id w.db (Worker.give_up_or_retry event e w).1.db
  unfolding Worker.give_up_or_retry mark_sync_event_retry mark_sync_event_failed
      Worker.compute_next_attempt Observability.log_at Observability.inc
  give_up-Settled e w =
      elim (Bool-cases
        (Worker.is_transient e && ltb (event.attempt_count + 1) Worker.sync_max_attempts)) [
          | inl again ↦ rw again (
              Settled.kept refl refl (record {
                f = retried (event.attempt_count + 1) (next_time event w) e;
                key = KeepsName-retried (event.attempt_count + 1) (next_time event w) e;
                events = refl;
              }))
          | inr last ↦
              subst (Settled event id w.db) (sym (gave_up e w last))
                (mark_reversed-Settled event (w.env.times (w.env.time_reads + 1)) e id w.db
                  (given_up e w) refl refl refl).1
        ]

  module _ (payload : Worker.OutboundPayload) (w : World) where
    abbrev sent : Result Unit × World
    sent =
        Client.submit_approved_usage payload.employee_id payload.location_id payload.days (ticked w)

    same : sent.1.db ≡ w.db
    same = submit-db payload.employee_id payload.location_id payload.days (ticked w)

    delivered :
        sent.0 ≡ ok tt
        → (Worker.attempt_delivery event payload w).1.db
          ≡ (Worker.complete event (clock w) sent.1).1.db
    unfolding Worker.attempt_delivery Worker.deliver
    delivered fine = ground (arith, fine, complete_returns (clock w) sent.1)

    refused :
        (e : Error)
        → sent.0 ≡ err e
        → (Worker.attempt_delivery event payload w).1.db
          ≡ (Worker.give_up_or_retry event e sent.1).1.db
    unfolding Worker.attempt_delivery Worker.deliver
    refused e thrown = ground (arith, thrown)

    attempt-Settled : Settled event id w.db (Worker.attempt_delivery event payload w).1.db
    attempt-Settled = elim (Result-cases sent.0) [
      | inl fine ↦ subst (Settled event id w.db) (sym (delivered fine)) (
          subst (λ d. Settled event id d (Worker.complete event (clock w) sent.1).1.db) same
            (complete-Settled (clock w) sent.1))
      | inr (e, thrown) ↦ subst (Settled event id w.db) (sym (refused e thrown)) (
          subst (λ d. Settled event id d (Worker.give_up_or_retry event e sent.1).1.db) same
            (give_up-Settled e sent.1))
    ]

  pub process_payload-Settled :
      (o : Option Worker.OutboundPayload) (w : World)
      → Settled event id w.db (Worker.process_payload event o w).1.db
  unfolding Worker.process_payload
  process_payload-Settled none w = Settled.kept refl refl (record {
    f = λ r. r;
    key = record { same_id = λ r. refl; same_direction = λ r. refl; same_request = λ r. refl };
    events = update_where-same (is_event event.id) w.db.sync_events;
  })
  process_payload-Settled (some payload) w =
      attempt-Settled payload (record w { trace = some (Worker.context_of event payload.trace) })
