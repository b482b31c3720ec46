-- ===== src/Observability/Tracing.antt =====
-- The log rows of a call carry the ids of its request context (app-logger.service.ts and
-- app-logger.repository.ts).
use timeoff_request.Base.{
  ◌≡◌, refl, String, Option, none, some, ◌==◌, ◌++◌, [], ◌∷◌, arith, eq_iff, if◌then◌else◌, ◌+◌,
}
use timeoff_request.Json.{Json, Fields, end, field, get_field, set_field, str_or_null}
use timeoff_request.Domain.Errors.{ok}
use timeoff_request.Store.Rows.{LogLevel, LogRow}
use timeoff_request.Store.World.{World, Trace}
use timeoff_request.Base.Table.{get_or}
use timeoff_request.Observability.Interceptor.{given_id, with_id, with_trace}
use timeoff_request.Observability.{
  correlation, request_id_of, external_id, enrich, text_member, insert_log, log_at,
}

get_field-set_field :
    (i k : String) (v : Json) (fs : Fields)
    → get_field i (set_field k v fs) ≡ (if k == i then some v else get_field i fs)
unfolding get_field set_field
get_field-set_field i k v end = refl
get_field-set_field i k v (field j w fs) =
    ground (arith, get_field-set_field i k v fs, eq_iff j k, eq_iff j i, eq_iff k i)

text_member-str_or_null : (o : Option String) → text_member (some (str_or_null o)) ≡ o
text_member-str_or_null none = refl
text_member-str_or_null (some s) = refl

module _ (trace : Option Trace) (payload : Fields) where
  abbrev with_correlation : Fields
  with_correlation = set_field "correlationId" (str_or_null (correlation trace)) payload

  abbrev with_request : Fields
  with_request = set_field "requestId" (str_or_null (request_id_of trace)) with_correlation

  -- the three ids in the payload that is stored
  external_enriched :
      text_member (get_field "externalEventId" (enrich trace payload)) ≡ external_id trace
  unfolding enrich
  external_enriched =
      rw
        (get_field-set_field "externalEventId" "externalEventId" (str_or_null (external_id trace))
          with_request)
        (text_member-str_or_null (external_id trace))

  request_enriched :
      text_member (get_field "requestId" (enrich trace payload)) ≡ request_id_of trace
  unfolding enrich
  request_enriched =
      rw
        (get_field-set_field "requestId" "externalEventId" (str_or_null (external_id trace))
          with_request)
        (rw
          (get_field-set_field "requestId" "requestId" (str_or_null (request_id_of trace))
            with_correlation)
          (text_member-str_or_null (request_id_of trace)))

  correlation_enriched :
      text_member (get_field "correlationId" (enrich trace payload)) ≡ correlation trace
  unfolding enrich
  correlation_enriched =
      rw
        (get_field-set_field "correlationId" "externalEventId" (str_or_null (external_id trace))
          with_request)
        (rw
          (get_field-set_field "correlationId" "requestId" (str_or_null (request_id_of trace))
            with_correlation)
          (rw
            (get_field-set_field "correlationId" "correlationId" (str_or_null (correlation trace))
              payload)
            (text_member-str_or_null (correlation trace))))

-- For every level, module, payload and context: `log` and `error` return, and the log table has one
-- more row, with the level, the module, and the correlation id, the request id and the external event
-- id of the context, whatever members of these names the payload has; no other table changes.
pub log_at_lem :
    (level : LogLevel) (module_name : String) (payload : Fields) (w : World)
    → let (r, w') = log_at level module_name payload w in
      (r ≡ ok tt)
      × ((row : LogRow) × (w'.db ≡ record w.db { log = w.db.log ++ row ∷ [] })
          × (row.level ≡ level)
          × (row.module_name ≡ module_name)
          × (row.correlation_id ≡ correlation w.trace)
          × (row.request_id ≡ request_id_of w.trace)
          × (row.external_event_id ≡ external_id w.trace))
unfolding log_at insert_log
log_at_lem level module_name payload w = (
  refl,
  (
    _,
    refl,
    refl,
    refl,
    correlation_enriched w.trace payload,
    request_enriched w.trace payload,
    external_enriched w.trace payload,
  ),
)

-- the uuid after the one that a missing header takes
abbrev pub next_uuid : Option String → World → String
next_uuid none w = w.env.uuids (w.env.uuid_reads + 1)
next_uuid (some id) w = w.env.uuids w.env.uuid_reads

-- the row of a call, its ids and the context after it
abbrev HasIds : Option String → LogLevel → String → Fields → World → Type 0
HasIds given level module_name payload w =
    let w' = (with_id given (log_at level module_name payload) w).1 in
    ((row : LogRow) × (w'.db ≡ record w.db { log = w.db.log ++ row ∷ [] })
      × (row.correlation_id ≡ some (get_or given (w.env.uuids w.env.uuid_reads)))
      × (row.request_id ≡ some (next_uuid given w)))
    × (w'.trace ≡ w.trace)

ids_of_row :
    (given : Option String) (level : LogLevel) (module_name : String) (payload : Fields) (w : World)
    → HasIds given level module_name payload w
unfolding with_id log_at insert_log
ids_of_row none level module_name payload w =
    ((_, refl, correlation_enriched (some _) payload, request_enriched (some _) payload), refl)
ids_of_row (some id) level module_name payload w =
    ((_, refl, correlation_enriched (some _) payload, request_enriched (some _) payload), refl)

-- For every header `x-correlation-id` and every log call inside of the interceptor: the log table has
-- one more row, whose correlation id is the header, or a random one without a header that is not
-- blank, and whose request id is the random one that is drawn next; afterwards the context is the one
-- from before.
pub with_trace_lem :
    (header : Option String) (level : LogLevel) (module_name : String) (payload : Fields)
    (w : World)
    → let w' = (with_trace header (log_at level module_name payload) w).1 in
      ((row : LogRow) × (w'.db ≡ record w.db { log = w.db.log ++ row ∷ [] })
        × (row.correlation_id ≡ some (get_or (given_id header) (w.env.uuids w.env.uuid_reads)))
        × (row.request_id ≡ some (next_uuid (given_id header) w)))
      × (w'.trace ≡ w.trace)
unfolding with_trace
with_trace_lem header level module_name payload w =
    ids_of_row (given_id header) level module_name payload w
