-- ===== src/Hcm/Worker.antt =====
-- src/modules/hcm-sync/workers/outbound-sync.worker.ts, one call of `processDueEvents` with nothing
-- else running between its `await`s.
use Prim.Native.String.{◌++◌ as concat}
use Prim.Native.Nat.{◌%◌}
use timeoff_request.Base.{
  ℕ, ◌+◌, ◌*◌, ◌^◌, String, Option, none, some, Bool, true, false, ◌&&◌, List, [], ◌∷◌, ltb, min,
  if◌then◌else◌,
}
use timeoff_request.Base.Int.{ℤ, pos, sub_ℕ}
use timeoff_request.Json.{Json, bool, num, str, arr, obj, cons, nil, Fields, end, field, get_field}
use timeoff_request.Domain.Errors.{Error, ok, FailureKind, transient, kind_of, type_error}
use timeoff_request.Store.Rows.{SyncEventId, uuid, inbound_key, SyncEventRow, info, error}
use timeoff_request.Store.World.{
  Trace, Action, pure, raise, now, run_in_context, try_catch, ◌>>=◌, ◌>>◌,
}
use timeoff_request.Requests.Repository.{
  list_due_outbound_sync_events, mark_sync_event_retry, mark_sync_event_synced,
  mark_sync_event_failed, mark_request_synced, mark_request_failed_and_reversed,
}
use timeoff_request.Observability
use timeoff_request.Hcm.Client

-- config/defaults.ts
abbrev pub sync_max_attempts : ℕ
sync_max_attempts = 5

-- the object that `JSON.parse(event.payloadHash)` is cast to; of the trace, its two ids
pub record OutboundPayload : Type 0 where
  pub employee_id : String
  pub location_id : String
  pub days : ℤ
  pub trace : Option (String × String)

abbrev pub read_ids : Option Json → Option Json → Option (String × String)
read_ids (some (str c)) (some (str r)) = some (c, r)
read_ids _ _ = none

unfoldable read_trace : Option Json → Option (String × String)
read_trace (some (obj fs)) = read_ids (get_field "correlationId" fs) (get_field "requestId" fs)
read_trace _ = none

abbrev pub read_members :
    Option Json → Option Json → Option Json → Option (String × String) → Option OutboundPayload
read_members (some (str e)) (some (str l)) (some (num d)) trace =
    some (record { employee_id = e; location_id = l; days = d; trace = trace })
read_members _ _ _ _ = none

-- `none`: the text is not of that shape, which `approve`, its only writer, rules out
unfoldable pub parse_payload : Json → Option OutboundPayload
unfolding get_field read_trace
parse_payload (obj fs) =
    read_members (get_field "employeeId" fs) (get_field "locationId" fs) (get_field "days" fs)
      (read_trace (get_field "trace" fs))
parse_payload _ = none

-- the text of an event's key; the worker meets random keys only
abbrev pub id_json : SyncEventId → Json
id_json (uuid s) = str s
id_json (inbound_key e p) = arr (cons (str e) (cons p nil))

abbrev pub id_text : SyncEventId → String
id_text (uuid s) = s
id_text (inbound_key e p) = e

abbrev pub context_of : SyncEventRow → Option (String × String) → Trace
context_of event none = record {
  correlation_id = concat "sync:" event.external_event_id;
  request_id = concat "sync-event:" (id_text event.id);
  external_event_id = some event.external_event_id;
}
context_of event (some (c, r)) = record {
  correlation_id = c;
  request_id = r;
  external_event_id = some event.external_event_id;
}

-- `Math.min(baseMs * 2 ** attempt + jitter, 30_000)`
unfoldable pub backoff_delay : ℕ → ℕ → ℕ
backoff_delay attempt jitter = min (250 * 2 ^ attempt + jitter) 30000

-- `Math.floor(Math.random() * 100)`
abbrev pub random_jitter : Action ℕ
random_jitter w = (
  ok (w.env.randoms w.env.random_reads % 100),
  record w { env = record w.env { random_reads = w.env.random_reads + 1 } },
)

unfoldable pub compute_next_attempt : ℕ → Action ℕ
compute_next_attempt attempt = do
  jitter ← random_jitter
  time ← now
  pure (time + backoff_delay attempt jitter)

-- A statement with `WHERE id = NULL`, which fits no row, if the event names no request.
abbrev pub for_request : (String → Action Unit) → Option String → Action Unit
for_request m none = pure tt
for_request m (some id) = m id

abbrev pub success_fields : SyncEventRow → ℤ → Fields
success_fields event latency =
    field "msg" (str "outbound_sync_success")
      (field "syncEventId" (id_json event.id) (field "hcmSyncLatencyMs" (num latency) end))

abbrev pub is_kind : Option FailureKind → Bool
is_kind (some transient) = true
is_kind _ = false

-- `err.kind === 'TRANSIENT'`
abbrev pub is_transient : Error → Bool
is_transient e = is_kind (kind_of e)

-- the message stands as the name of what was thrown
abbrev pub message : Error → String
message e = if is_transient e then "HCM transient failure" else "HCM functional failure"

abbrev pub failure_fields : SyncEventRow → Error → Fields
failure_fields event e = field "msg" (str "outbound_sync_failure") (
    field "syncEventId" (id_json event.id) (
      field "transient" (bool (is_transient e)) (
        field "error" (str (message e))
          (field "attemptCount" (num (pos event.attempt_count)) end))))

-- the `try` block below the `await`; `processed += 1` is its result
unfoldable pub complete : SyncEventRow → ℕ → Action ℕ
unfolding Observability.observe Observability.log_at
complete event started_at = do
  for_request mark_request_synced event.request_id
  mark_sync_event_synced event.id
  observed_at ← now
  Observability.observe "hcm_sync_latency_ms" (sub_ℕ observed_at started_at)
  logged_at ← now
  Observability.log_at info "OutboundSyncWorker" (success_fields event (sub_ℕ logged_at started_at))
  pure 1

-- the `try` block
unfoldable pub deliver : SyncEventRow → OutboundPayload → ℕ → Action ℕ
unfolding complete
deliver event payload started_at = do
  Client.submit_approved_usage payload.employee_id payload.location_id payload.days
  complete event started_at

-- the `catch` block
unfoldable pub give_up_or_retry : SyncEventRow → Error → Action ℕ
unfolding Observability.inc Observability.log_at compute_next_attempt
give_up_or_retry event e = do
  Observability.inc "hcm_sync_failures_total"
  Observability.log_at error "OutboundSyncWorker" (failure_fields event e)
  if is_transient e && ltb (event.attempt_count + 1) sync_max_attempts
      then (do
        next ← compute_next_attempt (event.attempt_count + 1)
        mark_sync_event_retry event.id (event.attempt_count + 1) next e
        pure 0)
      else (do
        mark_sync_event_failed event.id e
        for_request mark_request_failed_and_reversed event.request_id
        pure 0)

-- what `RequestContext.run` runs
unfoldable pub attempt_delivery : SyncEventRow → OutboundPayload → Action ℕ
attempt_delivery event payload = do
  started_at ← now
  try_catch (deliver event payload started_at) (give_up_or_retry event)

unfoldable pub process_payload : SyncEventRow → Option OutboundPayload → Action ℕ
process_payload event none = raise type_error
process_payload event (some payload) =
    run_in_context (context_of event payload.trace) (attempt_delivery event payload)

-- the body of `for (const event of due)`: 1 if the event was processed
unfoldable pub process_event : SyncEventRow → Action ℕ
unfolding process_payload
process_event event = process_payload event (parse_payload event.payload_hash)

unfoldable pub process_events : List SyncEventRow → ℕ → Action ℕ
process_events [] processed = pure processed
process_events (event ∷ due) processed = do
  one ← process_event event
  process_events due (processed + one)

unfoldable pub process_due_events : ℕ → Action ℕ
unfolding process_events
process_due_events limit = do due ← list_due_outbound_sync_events limit; process_events due 0
