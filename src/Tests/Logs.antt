-- ===== src/Tests/Logs.antt =====
-- A log row of a call with a request context.
use timeoff_request.Base.Int.{pos}
use timeoff_request.Base.Table.{map_get}
use timeoff_request.Store.World.{World, Metrics}
use timeoff_request.Observability.Prometheus.{to_prometheus, counter_lines, sum_lines, join, digits}
use timeoff_request.Observability.Reading.{lacks}
use timeoff_request.Observability.Samples.{read_text}
use timeoff_request.Observability.Lines.{IsPlain}
use timeoff_request.Observability.Exposition.{sum_samples, read_text-to_prometheus}
use timeoff_request.Base.{◌≡◌, refl, some, none, ◌++◌, [], ◌∷◌}
use timeoff_request.Json.{str, end, field}
use timeoff_request.Domain.Errors.{ok}
use timeoff_request.Store.Rows.{LogRow, info}
use timeoff_request.Observability.{log_at}
use timeoff_request.Observability.Tracing.{log_at_lem, with_trace_lem}
use timeoff_request.Observability.Interceptor.{is_blank, given_id, with_trace}
use timeoff_request.Tests.Sample.{world}

abbrev traced : World
traced = record world {
  trace = some (record { correlation_id = "c"; request_id = "r"; external_event_id = none });
}

-- the payload names another correlation id
log_at_lem_example :
    let (r, w') =
      log_at info "Service" (field "correlationId" (str "x") (field "msg" (str "m") end)) traced in
    (r ≡ ok tt)
    × ((row : LogRow) × (w'.db ≡ record traced.db { log = traced.db.log ++ row ∷ [] })
        × (row.level ≡ info)
        × (row.module_name ≡ "Service")
        × (row.correlation_id ≡ some "c")
        × (row.request_id ≡ some "r")
        × (row.external_event_id ≡ none))
log_at_lem_example =
    log_at_lem info "Service" (field "correlationId" (str "x") (field "msg" (str "m") end)) traced

-- a header of blanks counts for nothing
blank_header : given_id (some "  ") ≡ none
unfolding is_blank
blank_header = refl

with_trace_lem_example :
    let w' = (with_trace (some "abc") (log_at info "Service" end) world).1 in
    ((row : LogRow) × (w'.db ≡ record world.db { log = world.db.log ++ row ∷ [] })
      × (row.correlation_id ≡ some "abc")
      × (row.request_id ≡ some "u"))
    × (w'.trace ≡ none)
unfolding is_blank
with_trace_lem_example = with_trace_lem (some "abc") info "Service" end world

-- a counter, and a summary of two values
abbrev some_metrics : Metrics
some_metrics = record {
  counters = ("hcm_sync_failures_total", 12) ∷ [];
  sums = ("hcm_sync_latency_ms", pos 340) ∷ [];
  counts = ("hcm_sync_latency_ms", 2) ∷ [];
}

counter-IsPlain : IsPlain "hcm_sync_failures_total"
unfolding lacks
counter-IsPlain = record { no_newline = refl; no_space = refl; no_hash = refl }

sum-IsPlain : IsPlain "hcm_sync_latency_ms"
unfolding lacks
sum-IsPlain = record { no_newline = refl; no_space = refl; no_hash = refl }

read_text-to_prometheus_example :
    read_text (to_prometheus some_metrics)
    ≡ (("hcm_sync_failures_total", pos 12) ∷ [])
      ++ sum_samples some_metrics.counts some_metrics.sums
read_text-to_prometheus_example =
    read_text-to_prometheus some_metrics (counter-IsPlain, tt) (sum-IsPlain, tt)

-- the text itself
text_of_metrics :
    to_prometheus some_metrics
    ≡ "# TYPE hcm_sync_failures_total counter\nhcm_sync_failures_total 12\n# TYPE hcm_sync_latency_ms summary\nhcm_sync_latency_ms_sum 340\nhcm_sync_latency_ms_count 2\n"
unfolding to_prometheus counter_lines sum_lines join digits map_get
text_of_metrics = refl
