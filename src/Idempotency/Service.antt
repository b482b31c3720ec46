-- ===== src/Idempotency/Service.antt =====
-- src/modules/idempotency: idempotency.service.ts and idempotency.interceptor.ts. The handler that
-- the interceptor guards is an argument.
use timeoff_request.Base.{
  ℕ, ◌+◌, ◌*◌, String, Option, none, some, Bool, not, List, [], ◌∷◌, ◌++◌, ◌==◌, leb, if◌then◌else◌,
}
use timeoff_request.Base.Table.{find, select}
use timeoff_request.Json.{Json, str, obj, end, field, json_eqb}
use timeoff_request.Domain.Errors.{domain, idempotency_key_conflict}
use timeoff_request.Store.Rows.{IdempotencyRow}
use timeoff_request.Store.World.{Action, pure, raise, gets, now, write, ◌>>=◌, ◌>>◌}
use timeoff_request.Idempotency.Fingerprint.{canonical_fingerprint}

-- config/defaults.ts
abbrev pub idempotency_ttl_sec : ℕ
idempotency_ttl_sec = 86400

-- what the interceptor reads of a request; an absent header is an empty one
pub record HttpRequest : Type 0 where
  pub method : String
  pub url : String
  pub idempotency_key : String
  pub body : Json

abbrev pub is_record : String → IdempotencyRow → Bool
is_record key r = r.key == key

-- `DELETE ... WHERE expires_at <= ?`
abbrev pub is_alive : ℕ → IdempotencyRow → Bool
is_alive time r = not (leb r.expires_at time)

unfoldable pub cleanup_expired : Action Unit
cleanup_expired = do
  time ← now
  write λ db. record db { idempotency = select (is_alive time) db.idempotency }

unfoldable pub get : String → Action (Option IdempotencyRow)
unfolding cleanup_expired
get key = do cleanup_expired; gets λ w. find (is_record key) w.db.idempotency

-- `INSERT OR REPLACE`
unfoldable pub replace_record : IdempotencyRow → List IdempotencyRow → List IdempotencyRow
replace_record r rows = select (λ s. not (is_record r.key s)) rows ++ r ∷ []

-- `IdempotencyService.set`, given the fields of the record
unfoldable pub set : String → Json → Json → ℕ → ℕ → Action Unit
unfolding replace_record
set key fingerprint response_body status_code created_at = do
  time ← now
  write λ db. record db {
    idempotency =
        replace_record
          (record {
            key = key;
            fingerprint = fingerprint;
            response_body = response_body;
            status_code = status_code;
            created_at = created_at;
            expires_at = time + idempotency_ttl_sec * 1000;
          })
          db.idempotency;
  }

abbrev pub fingerprint_of : HttpRequest → Json
fingerprint_of request =
    canonical_fingerprint (obj (field "url" (str request.url) (field "body" request.body end)))

-- `next.handle().pipe(tap(...))`: what the handler returns is stored; what it throws is not
unfoldable pub run_and_store : HttpRequest → ℕ → Action Json → Action Json
unfolding set
run_and_store request status_code handler = do
  body ← handler
  time ← now
  set request.idempotency_key (fingerprint_of request) body status_code time
  pure body

unfoldable pub replay_or_run : HttpRequest → ℕ → Action Json → Option IdempotencyRow → Action Json
replay_or_run request status_code handler none = run_and_store request status_code handler
replay_or_run request status_code handler (some existing) =
    if json_eqb existing.fingerprint (fingerprint_of request)
    then pure existing.response_body
    else raise (domain idempotency_key_conflict)

-- `IdempotencyInterceptor.intercept`
unfoldable pub intercept : HttpRequest → ℕ → Action Json → Action Json
unfolding get replay_or_run
intercept request status_code handler =
    if not (request.method == "POST")
    then handler
    else if request.idempotency_key == ""
    then handler
    else (do
      existing ← get request.idempotency_key
      replay_or_run request status_code handler existing)
