-- ===== src/Observability.antt =====
-- src/modules/observability: the metrics (metrics.service.ts) and the logger (app-logger.service.ts
-- and app-logger.repository.ts). What the logger prints on the console is not modelled.
pub mod Interceptor
pub mod Tracing
pub mod Prometheus
pub mod Reading
pub mod Samples
pub mod Digits
pub mod Lines
pub mod Exposition
use timeoff_request.Base.{ℕ, ◌+◌, String, Option, none, some, ◌++◌, [], ◌∷◌}
use timeoff_request.Base.Int.{ℤ, pos, ◌+ℤ◌}
use timeoff_request.Base.Table.{map_get, map_set, get_or}
use timeoff_request.Json.{Json, str, obj, Fields, get_field, set_field, str_or_null}
use timeoff_request.Store.Rows.{LogLevel}
use timeoff_request.Store.World.{Metrics, Trace, Action, pure, gets, now, write, try_catch, ◌>>=◌}
use timeoff_request.Domain.Errors.{ok}

-- `MetricsService.inc`
unfoldable pub counted : String → ℕ → Metrics → Metrics
counted name by m = record m {
  counters = map_set name (get_or (map_get name m.counters) 0 + by) m.counters;
}

-- `MetricsService.observe`
unfoldable pub observed : String → ℤ → Metrics → Metrics
observed name value m = record m {
  sums = map_set name (get_or (map_get name m.sums) (pos 0) +ℤ value) m.sums;
  counts = map_set name (get_or (map_get name m.counts) 0 + 1) m.counts;
}

unfoldable pub inc : String → Action Unit
unfolding counted
inc name w = (ok tt, record w { metrics = counted name 1 w.metrics })

unfoldable pub observe : String → ℤ → Action Unit
unfolding observed
observe name value w = (ok tt, record w { metrics = observed name value w.metrics })

abbrev pub correlation : Option Trace → Option String
correlation none = none
correlation (some t) = some t.correlation_id

abbrev pub request_id_of : Option Trace → Option String
request_id_of none = none
request_id_of (some t) = some t.request_id

abbrev pub external_id : Option Trace → Option String
external_id none = none
external_id (some t) = t.external_event_id

-- `AppLogger.enrich`
unfoldable pub enrich : Option Trace → Fields → Fields
enrich trace payload = set_field "externalEventId" (str_or_null (external_id trace)) (
    set_field "requestId" (str_or_null (request_id_of trace))
      (set_field "correlationId" (str_or_null (correlation trace)) payload))

-- `(payload.key as string | null) ?? null`
abbrev pub text_member : Option Json → Option String
text_member (some (str s)) = some s
text_member _ = none

-- `AppLoggerRepository.insert`
unfoldable pub insert_log : LogLevel → String → Fields → Action Unit
insert_log level module_name payload = do
  time ← now
  write λ db. record db {
    log =
        db.log
        ++ record {
          level = level;
          module_name = module_name;
          payload = obj payload;
          correlation_id = text_member (get_field "correlationId" payload);
          request_id = text_member (get_field "requestId" payload);
          external_event_id = text_member (get_field "externalEventId" payload);
          created_at = time;
        }
          ∷ [];
  }

-- `AppLogger.log` and `AppLogger.error`, whose `persist` lets no exception out
unfoldable pub log_at : LogLevel → String → Fields → Action Unit
unfolding insert_log
log_at level module_name payload = do
  trace ← gets λ w. w.trace
  try_catch (insert_log level module_name (enrich trace payload)) (λ e. pure tt)
