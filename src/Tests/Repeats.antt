-- ===== src/Tests/Repeats.antt =====
-- Repeated requests with an idempotency key in the sample world.
use timeoff_request.Base.{◌≡◌, ◌↔◌, refl, true, arith}
use timeoff_request.Base.Int.{pos}
use timeoff_request.Base.Table.{find, select}
use timeoff_request.Json.{Json, num, str, obj, end, field, json_eqb}
use timeoff_request.Domain.Errors.{ok, err, domain, idempotency_key_conflict, request_not_found}
use timeoff_request.Store.World.{World, Action, pure, raise}
use timeoff_request.Idempotency.Fingerprint.{canonical_fingerprint, canonicalize, insert_field}
use timeoff_request.Idempotency.Service.{HttpRequest, fingerprint_of, intercept, run_and_store}
use timeoff_request.Idempotency.Replay.{cleaned, repeat_is_replayed, failure_is_not_kept}
use timeoff_request.Idempotency.Canonical.{
  SameValue, canonical_fingerprint_lem, fingerprint_of_decides,
}
use timeoff_request.Tests.Sample.{world}

abbrev request : HttpRequest
request = record {
  method = "POST";
  url = "/time-off/requests";
  idempotency_key = "k1";
  body = obj (field "days" (num (pos 4)) (field "employeeId" (str "e1") end));
}

-- the members the other way round
abbrev reordered : HttpRequest
reordered = record request {
  body = obj (field "employeeId" (str "e1") (field "days" (num (pos 4)) end));
}

-- five days
abbrev other : HttpRequest
other = record request {
  body = obj (field "days" (num (pos 5)) (field "employeeId" (str "e1") end));
}

abbrev handler : Action Json
handler = pure (str "created")

-- the key k1 has its record, and another key has one after it
abbrev later : World
later =
    let w = (intercept request 201 handler world).1 in
    (intercept (record request { idempotency_key = "k2" }) 201 (pure (str "other")) w).1

repeat_is_replayed_example :
    ((intercept request 201 handler world).0 ≡ ok (str "created"))
    × (intercept request 201 (raise (domain request_not_found)) later
        ≡ (ok (str "created"), cleaned later))
    × (intercept other 201 (raise (domain request_not_found)) later
        ≡ (err (domain idempotency_key_conflict), cleaned later))
unfolding find select intercept canonical_fingerprint canonicalize insert_field json_eqb
    run_and_store
repeat_is_replayed_example =
    repeat_is_replayed request other 201 handler (raise (domain request_not_found)) world
      (cleaned world) later (str "created") (refl, refl) refl refl refl (omega arith) (refl, refl)
      refl refl

failure_is_not_kept_example :
    let failing = raise (domain request_not_found) in
    let w₂ = (intercept request 201 failing world).1 in
    (intercept request 201 failing world ≡ (err (domain request_not_found), cleaned world))
    × (intercept request 201 handler w₂ ≡ run_and_store request 201 handler (cleaned w₂))
unfolding find select intercept
failure_is_not_kept_example =
    failure_is_not_kept request 201 (raise (domain request_not_found)) handler world (cleaned world)
      (intercept request 201 (raise (domain request_not_found)) world).1 (domain request_not_found)
      (refl, refl) refl refl refl refl

fingerprint_of_decides_example :
    (json_eqb (fingerprint_of request) (fingerprint_of reordered) ≡ true)
    ↔ ((request.url ≡ reordered.url) × SameValue request.body reordered.body)
fingerprint_of_decides_example = fingerprint_of_decides request reordered

canonical_fingerprint_lem_example :
    (canonical_fingerprint request.body ≡ canonical_fingerprint reordered.body)
    ↔ SameValue request.body reordered.body
canonical_fingerprint_lem_example = canonical_fingerprint_lem request.body reordered.body
