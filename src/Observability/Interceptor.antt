-- ===== src/Observability/Interceptor.antt =====
-- src/modules/observability/interceptors/trace.interceptor.ts for an HTTP request. The headers of the
-- response are not modelled.
use Prim.Native.Char.{code}
use Prim.Native.String.{[], ◌∷◌}
use timeoff_request.Base.{
  ℕ, String, Option, none, some, Bool, true, false, ◌||◌, ◌&&◌, leb, nat_eqb,
}
use timeoff_request.Store.World.{Action, pure, random_uuid, run_in_context, ◌>>=◌}

-- white space and line ends, which `trim` takes off
abbrev is_space : ℕ → Bool
is_space c =
    (leb 9 c && leb c 13)
    || nat_eqb c 32
    || nat_eqb c 160
    || nat_eqb c 5760
    || (leb 8192 c && leb c 8202)
    || nat_eqb c 8232
    || nat_eqb c 8233
    || nat_eqb c 8239
    || nat_eqb c 8287
    || nat_eqb c 12288
    || nat_eqb c 65279

-- `!text.trim()`
unfoldable pub is_blank : String → Bool
is_blank [] = true
is_blank (c ∷ s) = is_space (code c) && is_blank s

-- the header, if it is a text that is not blank
abbrev pub given_id : Option String → Option String
given_id none = none
given_id (some header) = elim (is_blank header) [ true ↦ none | false ↦ some header ]

abbrev pub id_or_random : Option String → Action String
id_or_random none = random_uuid
id_or_random (some id) = pure id

module _ {A : Type 0} where
  -- the handler in its context, given the id that the caller sent
  unfoldable pub with_id : Option String → Action A → Action A
  with_id given handler = do
    correlation_id ← id_or_random given
    request_id ← random_uuid
    run_in_context
        (record {
          correlation_id = correlation_id;
          request_id = request_id;
          external_event_id = none;
        })
        handler

  -- `TraceInterceptor.intercept`, given the header `x-correlation-id`
  unfoldable pub with_trace : Option String → Action A → Action A
  with_trace header handler = with_id (given_id header) handler
