-- ===== src/Invariant/Hcm.antt =====
-- The operations of the HCM synchronisation keep what their statements keep.
use mathlib.Core.Option
use timeoff_request.Base.{ℕ, ◌+◌, ◌≡◌, refl, String, Option, none, some, arith}
use timeoff_request.Base.Int.{ℤ}
use timeoff_request.Base.Table.{find}
use timeoff_request.Domain.Errors.{Error}
use timeoff_request.Json.{Fields}
use timeoff_request.Store.Rows.{Db, RequestRow, is_request, SyncEventId, LogLevel}
use timeoff_request.Store.World.{World}
use timeoff_request.Store.Keeps.{Keeps, keeps_rules, Keeps-write}
use timeoff_request.Invariant.Writes.{Writes, KeepsKey}
use timeoff_request.Invariant.Balances.{
  upsert_absolute-Keeps, apply_delta-Keeps, insert_ledger_entry-Keeps, record_inbound-Keeps,
  write_elsewhere,
}
use timeoff_request.Requests.Repository
use timeoff_request.Requests.Repository.{drifts, flagged, request_synced}
use timeoff_request.Observability
use timeoff_request.Hcm.Client
use timeoff_request.Hcm.Realtime
use timeoff_request.Hcm.Realtime.{absolute, delta, UpdateType}

module _ (P : Db → Type 0) (laws : Writes P) where
  apply_update-Keeps :
      (t : UpdateType) (e l : String) (days : ℤ) → Keeps P (Realtime.apply_update t e l days)
  unfolding Realtime.apply_update
  apply_update-Keeps absolute e l days = upsert_absolute-Keeps P laws e l days
  apply_update-Keeps delta e l days = apply_delta-Keeps P laws e l days

  apply_event-Keeps : (event : Realtime.RealtimeBalanceEvent) → Keeps P (Realtime.apply_event event)
  unfolding Realtime.apply_event
  apply_event-Keeps event =
      search (keeps_rules, apply_update-Keeps, insert_ledger_entry-Keeps) depth 8

  report_duplicate-Keeps :
      (event : Realtime.RealtimeBalanceEvent) → Keeps P (Realtime.report_duplicate event)
  unfolding Realtime.report_duplicate
  report_duplicate-Keeps event = search keeps_rules

  pub process_balance_update-Keeps :
      (event : Realtime.RealtimeBalanceEvent) → Keeps P (Realtime.process_balance_update event)
  unfolding Realtime.process_balance_update
  process_balance_update-Keeps event =
      search (keeps_rules, apply_event-Keeps, report_duplicate-Keeps, record_inbound-Keeps) depth 8

  pub log_at-Keeps :
      (level : LogLevel) (name : String) (payload : Fields)
      → Keeps P (Observability.log_at level name payload)
  unfolding Observability.log_at
  log_at-Keeps level name payload = search (keeps_rules, write_elsewhere) depth 9

  pub inc-Keeps : (name : String) → Keeps P (Observability.inc name)
  unfolding Observability.inc
  inc-Keeps name = record { at = λ w h. h }

  pub observe-Keeps : (name : String) (value : ℤ) → Keeps P (Observability.observe name value)
  unfolding Observability.observe
  observe-Keeps name value = record { at = λ w h. h }

  pub flag-Keeps : (e l : String) → Keeps P (Repository.flag_requests_for_drift e l)
  unfolding Repository.flag_requests_for_drift
  flag-Keeps e l = record {
    at = λ w h.
        laws.flags (drifts e l) (flagged (w.env.times w.env.time_reads)) w.db
          (record { same_key = λ r. refl; same_days = λ r. refl }) (λ r. refl)
          (λ r fits. ground arith) h;
  }

  pub mark_synced-Keeps : (id : String) → laws.Kind id → Keeps P (Repository.mark_request_synced id)
  unfolding Repository.mark_request_synced
  mark_synced-Keeps id kind = record {
    at = λ w h.
        laws.grants id (request_synced (w.env.times w.env.time_reads)) w.db kind
          (record { same_key = λ r. refl; same_days = λ r. refl }) (λ r. refl) h;
  }

  reverse_found :
      (o : Option RequestRow) (id : String) (w : World)
      → laws.Kind id
      → find (is_request id) w.db.requests ≡ o
      → P w.db
      → P (Repository.reverse_request (Option.map (λ r. r.request) o) w).1.db
  unfolding Repository.reverse_request
  reverse_found none id w kind found h = h
  reverse_found (some r) id w kind found h =
      laws.reverses id r (w.env.times w.env.time_reads) (w.env.times (w.env.time_reads + 1)) w.db
        kind found h

  pub mark_reversed-Keeps :
      (id : String) → laws.Kind id → Keeps P (Repository.mark_request_failed_and_reversed id)
  unfolding Repository.mark_request_failed_and_reversed
  mark_reversed-Keeps id kind = record {
    at = λ w h. reverse_found (find (is_request id) w.db.requests) id w kind refl h;
  }

  -- the updates of an event
  key_kept_retried : (n time : ℕ) (e : Error) → KeepsKey (Repository.retried n time e)
  key_kept_retried n time e = record {
    same_id = λ r. refl;
    same_external = λ r. refl;
    same_payload = λ r. refl;
    same_direction = λ r. refl;
    same_request = λ r. refl;
  }

  key_kept_synced : (time : ℕ) → KeepsKey (Repository.event_synced time)
  key_kept_synced time = record {
    same_id = λ r. refl;
    same_external = λ r. refl;
    same_payload = λ r. refl;
    same_direction = λ r. refl;
    same_request = λ r. refl;
  }

  key_kept_failed : (time : ℕ) (e : Error) → KeepsKey (Repository.event_failed time e)
  key_kept_failed time e = record {
    same_id = λ r. refl;
    same_external = λ r. refl;
    same_payload = λ r. refl;
    same_direction = λ r. refl;
    same_request = λ r. refl;
  }

  pub mark_event_retry-Keeps :
      (id : SyncEventId) (n time : ℕ) (e : Error)
      → Keeps P (Repository.mark_sync_event_retry id n time e)
  unfolding Repository.mark_sync_event_retry
  mark_event_retry-Keeps id n time e =
      search (keeps_rules, Keeps-write, laws.updates_events, key_kept_retried)

  pub mark_event_synced-Keeps : (id : SyncEventId) → Keeps P (Repository.mark_sync_event_synced id)
  unfolding Repository.mark_sync_event_synced
  mark_event_synced-Keeps id =
      search (keeps_rules, Keeps-write, laws.updates_events, key_kept_synced)

  pub mark_event_failed-Keeps :
      (id : SyncEventId) (e : Error) → Keeps P (Repository.mark_sync_event_failed id e)
  unfolding Repository.mark_sync_event_failed
  mark_event_failed-Keeps id e =
      search (keeps_rules, Keeps-write, laws.updates_events, key_kept_failed)

  -- the client does not touch the database
  pub db-submit :
      (e l : String) (days : ℤ) (w : World) → (Client.submit_approved_usage e l days w).1.db ≡ w.db
  unfolding Client.submit_approved_usage
  db-submit e l days w = ground arith

  pub db-get_balance : (e l : String) (w : World) → (Client.get_balance e l w).1.db ≡ w.db
  unfolding Client.get_balance
  db-get_balance e l w = ground arith

  pub submit-Keeps : (e l : String) (days : ℤ) → Keeps P (Client.submit_approved_usage e l days)
  submit-Keeps e l days = record { at = λ w h. rw (db-submit e l days w) h }

  pub hcm_balance-Keeps : (e l : String) → Keeps P (Client.get_balance e l)
  hcm_balance-Keeps e l = record { at = λ w h. rw (db-get_balance e l w) h }
