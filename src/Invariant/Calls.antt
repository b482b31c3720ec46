-- ===== src/Invariant/Calls.antt =====
-- Every call keeps what the statements keep, whether it succeeds or fails, and so does every history
-- of calls.
use timeoff_request.Base.{ℕ, ◌+◌, String, Option, none, some, List, [], ◌∷◌, ◌≡◌, refl, take}
use timeoff_request.Base.All.{All, All-take, All-order_by, All-select}
use timeoff_request.Base.Table.{select}
use timeoff_request.Balances.Rows.{ticked, clock}
use timeoff_request.Requests.Repository.{is_due, oldest_first}
use timeoff_request.Hcm.Due.{all_due}
use timeoff_request.Base.Int.{ℤ}
use timeoff_request.Domain.Errors.{Error, Result, ok, err, domain}
use timeoff_request.Store.Rows.{Db, Balance, SyncEventRow}
use timeoff_request.Store.World.{Action, World}
use timeoff_request.Store.Keeps.{Keeps, keeps_rules, Keeps-bind}
use timeoff_request.Invariant.Writes.{Writes, Carries}
use timeoff_request.Invariant.Balances.{upsert_absolute-Keeps, get_balance-Keeps, write_elsewhere}
use timeoff_request.Invariant.Requests.{
  approve-Keeps, reject-Keeps, cancel-Keeps, create_request-Keeps, get_by_id-Keeps,
}
use timeoff_request.Invariant.Hcm.{
  process_balance_update-Keeps, log_at-Keeps, inc-Keeps, observe-Keeps, flag-Keeps,
  mark_synced-Keeps, mark_reversed-Keeps, mark_event_retry-Keeps, mark_event_synced-Keeps,
  mark_event_failed-Keeps, submit-Keeps, hcm_balance-Keeps,
}
use timeoff_request.Invariant.Batch.{ingest_batch-Keeps}
use timeoff_request.Requests.Repository
use timeoff_request.Requests.Service
use timeoff_request.Hcm.Client.{HcmBalance, known, undefined, unavailable}
use timeoff_request.Hcm.Reconcile
use timeoff_request.Hcm.Worker
use timeoff_request.Hcm.Worker.{OutboundPayload}
use timeoff_request.Api
use timeoff_request.Api.{Call, Reply, HttpReply}

module _ (P : Db → Type 0) (laws : Writes P) where
  repair-Keeps :
      (e l : String) (local_days : Option ℤ) (days : ℤ)
      → Keeps P (Reconcile.repair e l local_days days)
  unfolding Reconcile.repair
  repair-Keeps e l local_days days =
      search
        (keeps_rules, write_elsewhere, upsert_absolute-Keeps, flag-Keeps, inc-Keeps, log_at-Keeps)
        depth 14

  compare_with-Keeps :
      (e l : String) (b : Option Balance) (answer : HcmBalance)
      → Keeps P (Reconcile.compare_with e l b answer)
  unfolding Reconcile.compare_with
  compare_with-Keeps e l b unavailable = search keeps_rules
  compare_with-Keeps e l b undefined = search keeps_rules
  compare_with-Keeps e l b (known days) = search (keeps_rules, repair-Keeps) depth 8

  reconcile_one-Keeps : (e l : String) → Keeps P (Reconcile.reconcile_one e l)
  unfolding Reconcile.reconcile_one
  reconcile_one-Keeps e l = search (keeps_rules, hcm_balance-Keeps, compare_with-Keeps) depth 8

  for_request-Keeps :
      (m : String → Action Unit) (o : Option String)
      → ((id : String) → o ≡ some id → laws.Kind id)
      → ((id : String) → laws.Kind id → Keeps P (m id))
      → Keeps P (Worker.for_request m o)
  for_request-Keeps m none kind k = record { at = λ w h. h }
  for_request-Keeps m (some id) kind k = k id (kind id refl)

  synced_for-Keeps :
      (event : SyncEventRow)
      → Carries laws.Kind event
      → Keeps P (Worker.for_request Repository.mark_request_synced event.request_id)
  synced_for-Keeps event kind =
      for_request-Keeps Repository.mark_request_synced event.request_id kind
        (mark_synced-Keeps P laws)

  reversed_for-Keeps :
      (event : SyncEventRow)
      → Carries laws.Kind event
      → Keeps P (Worker.for_request Repository.mark_request_failed_and_reversed event.request_id)
  reversed_for-Keeps event kind =
      for_request-Keeps Repository.mark_request_failed_and_reversed event.request_id kind
        (mark_reversed-Keeps P laws)

  pub complete-Keeps :
      (event : SyncEventRow) (t : ℕ) → Carries laws.Kind event → Keeps P (Worker.complete event t)
  unfolding Worker.complete
  complete-Keeps event t kind =
      search (keeps_rules, synced_for-Keeps, mark_event_synced-Keeps, observe-Keeps, log_at-Keeps)
        depth 16

  deliver-Keeps :
      (event : SyncEventRow) (payload : OutboundPayload) (t : ℕ)
      → Carries laws.Kind event
      → Keeps P (Worker.deliver event payload t)
  unfolding Worker.deliver
  deliver-Keeps event payload t kind = search (keeps_rules, submit-Keeps, complete-Keeps)

  next_attempt-Keeps : (n : ℕ) → Keeps P (Worker.compute_next_attempt n)
  unfolding Worker.compute_next_attempt
  next_attempt-Keeps n = record { at = λ w h. h }

  pub give_up_or_retry-Keeps :
      (event : SyncEventRow) (e : Error)
      → Carries laws.Kind event
      → Keeps P (Worker.give_up_or_retry event e)
  unfolding Worker.give_up_or_retry
  give_up_or_retry-Keeps event e kind =
      search
        (
          keeps_rules, inc-Keeps, log_at-Keeps, next_attempt-Keeps, mark_event_retry-Keeps,
          mark_event_failed-Keeps, reversed_for-Keeps,
        )
        depth 16

  attempt_delivery-Keeps :
      (event : SyncEventRow) (payload : OutboundPayload)
      → Carries laws.Kind event
      → Keeps P (Worker.attempt_delivery event payload)
  unfolding Worker.attempt_delivery
  attempt_delivery-Keeps event payload kind =
      search (keeps_rules, deliver-Keeps, give_up_or_retry-Keeps) depth 8

  process_payload-Keeps :
      (event : SyncEventRow) (o : Option OutboundPayload)
      → Carries laws.Kind event
      → Keeps P (Worker.process_payload event o)
  unfolding Worker.process_payload
  process_payload-Keeps event none kind = search keeps_rules
  process_payload-Keeps event (some payload) kind =
      search (keeps_rules, attempt_delivery-Keeps) depth 8

  process_events-Keeps :
      (due : List SyncEventRow) (n : ℕ)
      → All (Carries laws.Kind) due
      → Keeps P (Worker.process_events due n)
  unfolding Worker.process_events Worker.process_event
  process_events-Keeps [] n kinds = search keeps_rules
  process_events-Keeps (event ∷ due) n kinds =
      Keeps-bind P (Worker.process_event event) (λ one. Worker.process_events due (n + one))
        (process_payload-Keeps event (Worker.parse_payload event.payload_hash) kinds.0)
        (λ one. process_events-Keeps due (n + one) kinds.1)

  -- the events that a run takes are rows of the table
  pub due-kinds :
      (limit : ℕ) (w : World) → P w.db → All (Carries laws.Kind) (take limit (all_due w))
  due-kinds limit w h = All-take (Carries laws.Kind) limit (all_due w) (
      All-order_by (Carries laws.Kind) oldest_first (select (is_due (clock w)) w.db.sync_events) (
        All-select (Carries laws.Kind) (is_due (clock w)) w.db.sync_events
          (laws.kind_of_event w.db h)))

  process_due_events-Keeps : (limit : ℕ) → Keeps P (Worker.process_due_events limit)
  unfolding Worker.process_due_events Repository.list_due_outbound_sync_events
  process_due_events-Keeps limit = record {
    at = λ w h.
        (process_events-Keeps (take limit (all_due w)) 0 (due-kinds limit w h)).at (ticked w) h;
  }

  list_all-Keeps : Keeps P Service.list_all
  unfolding Service.list_all
  list_all-Keeps = search keeps_rules

  drift_report-Keeps : Keeps P Reconcile.drift_report
  unfolding Reconcile.drift_report
  drift_report-Keeps = search keeps_rules

ruleset call_rules = (
  keeps_rules, create_request-Keeps, list_all-Keeps, get_by_id-Keeps, approve-Keeps, reject-Keeps,
  cancel-Keeps, get_balance-Keeps, reconcile_one-Keeps, process_balance_update-Keeps,
  ingest_batch-Keeps, drift_report-Keeps, process_due_events-Keeps,
)

module _ (P : Db → Type 0) (laws : Writes P) where
  -- every route, also when it throws
  pub handle-Keeps : (c : Call) → Keeps P (Api.handle c)
  unfolding Api.handle
  handle-Keeps (Call.create input) = search call_rules
  handle-Keeps _ = search call_rules

  filter_error-Keeps : (e : Error) → Keeps P (Api.filter_error e)
  unfolding Api.filter_error
  filter_error-Keeps (domain code) = search (keeps_rules, log_at-Keeps)
  filter_error-Keeps _ = search keeps_rules

  reply_of-Keeps : (r : Result Reply) → Keeps P (Api.reply_of r)
  reply_of-Keeps (ok r) = record { at = λ w h. h }
  reply_of-Keeps (err e) = filter_error-Keeps e

  pub respond-Keeps : (c : Call) (w : World) → P w.db → P (Api.respond c w).1.db
  unfolding Api.respond
  respond-Keeps c w h =
      let (r, w') = Api.handle c w in (reply_of-Keeps r).at w' ((handle-Keeps c).at w h)

  -- every history of calls keeps it
  pub serve-Keeps : (calls : List Call) (w : World) → P w.db → P (Api.serve calls w).db
  unfolding Api.serve
  serve-Keeps [] w h = h
  serve-Keeps (c ∷ calls) w h = serve-Keeps calls (Api.respond c w).1 (respond-Keeps c w h)
