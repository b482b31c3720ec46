-- ===== src/Hcm/Client.antt =====
-- src/modules/hcm-sync/clients/hcm.client.ts. With a base URL the client asks the remote server,
-- which is a parameter of the world; without one it is the in-memory stand-in that the file holds.
use timeoff_request.Base.{
  ℕ, String, Option, none, some, Bool, true, false, not, ◌&&◌, ◌||◌, ◌++◌, [], ◌∷◌, ◌==◌, nat_eqb,
  leb, if◌then◌else◌,
}
use timeoff_request.Base.Int.{ℤ, pos, ◌-ℤ◌}
use timeoff_request.Base.Table.{map_get, map_set, get_or}
use timeoff_request.Domain.Errors.{ok, hcm, FailureKind, network}
use timeoff_request.Store.World.{
  HcmClient, HcmRequest, HcmResponse, rejected, response, FailureMode, no_failure, Action, pure,
  raise, gets, ◌>>=◌, ◌>>◌,
}
use timeoff_request.Balances.{balance_key}

-- `if (this.baseUrl)`
abbrev pub is_remote : Option String → Bool
is_remote none = false
is_remote (some url) = not (url == "")

-- what the client sends is kept, and the server answers by it
abbrev answered : HcmResponse → Action (ℕ × ℤ)
answered rejected = raise network
answered (response status days) = pure (status, days)

unfoldable pub fetch : HcmRequest → Action (ℕ × ℤ)
fetch request w =
    answered (w.env.server w.env.sent request)
      (record w { env = record w.env { sent = w.env.sent ++ request ∷ [] } })

-- `number | undefined | null`
pub data HcmBalance : Type 0 where
  known : ℤ → HcmBalance
  undefined unavailable : HcmBalance

-- `response.ok`
abbrev pub is_ok : ℕ → Bool
is_ok status = leb 200 status && leb status 299

abbrev balance_of : ℕ × ℤ → HcmBalance
balance_of (status, days) =
    if nat_eqb status 503
    then unavailable
    else if nat_eqb status 404
    then undefined
    else if is_ok status
    then known days
    else unavailable

abbrev known_or_undefined : Option ℤ → HcmBalance
known_or_undefined none = undefined
known_or_undefined (some days) = known days

unfoldable pub get_balance : String → String → Action HcmBalance
unfolding fetch
get_balance employee_id location_id = do
  client ← gets λ w. w.hcm
  if is_remote client.base_url
      then (do
        answer ← fetch (HcmRequest.get_balance employee_id location_id)
        pure (balance_of answer))
      else if client.unavailable
      then pure unavailable
      else pure (known_or_undefined (map_get (balance_key employee_id location_id) client.balances))

abbrev pub submitted : ℕ → Action Unit
submitted status =
    if nat_eqb status 503 || leb 500 status
    then raise (hcm FailureKind.transient)
    else if is_ok status
    then pure tt
    else raise (hcm FailureKind.functional)

abbrev is_transient : FailureMode → Bool
is_transient FailureMode.transient = true
is_transient _ = false

abbrev is_functional : FailureMode → Bool
is_functional FailureMode.functional = true
is_functional _ = false

abbrev set_client : HcmClient → Action Unit
set_client client w = (ok tt, record w { hcm = client })

unfoldable pub submit_approved_usage : String → String → ℤ → Action Unit
unfolding fetch
submit_approved_usage employee_id location_id days = do
  client ← gets λ w. w.hcm
  if is_remote client.base_url
      then (do answer ← fetch (HcmRequest.consume employee_id location_id days); submitted answer.0)
      else if client.unavailable || is_transient client.failure_mode
      then raise (hcm FailureKind.transient)
      else if is_functional client.failure_mode
      then raise (hcm FailureKind.functional)
      else set_client (record client {
        balances =
            map_set (balance_key employee_id location_id)
              (get_or (map_get (balance_key employee_id location_id) client.balances) (pos 0)
                -ℤ days)
              client.balances;
      })

unfoldable pub seed_balance : String → String → ℤ → Action Unit
unfolding fetch
seed_balance employee_id location_id days = do
  client ← gets λ w. w.hcm
  if is_remote client.base_url
      then (do fetch (HcmRequest.upsert employee_id location_id days); pure tt)
      else set_client (record client {
        balances = map_set (balance_key employee_id location_id) days client.balances;
      })

unfoldable pub set_unavailable : Bool → Action Unit
unfolding fetch
set_unavailable value = do
  client ← gets λ w. w.hcm
  if is_remote client.base_url
      then (do
        fetch (HcmRequest.set_mode (if value then FailureMode.transient else no_failure))
        pure tt)
      else set_client (record client { unavailable = value })

unfoldable pub set_failure_mode : FailureMode → Action Unit
unfolding fetch
set_failure_mode mode = do
  client ← gets λ w. w.hcm
  if is_remote client.base_url
      then (do fetch (HcmRequest.set_mode mode); pure tt)
      else set_client (record client { failure_mode = mode })
