-- ===== src/Configuration.antt =====
-- src/config: the settings and their validation (config.service.ts, defaults.ts).
use timeoff_request.Base.{
  ◌≡◌, ◌↔◌, refl, String, Option, none, some, Bool, false, not, ◌||◌, if◌then◌else◌, arith,
}
use timeoff_request.Base.Int.{ℤ, pos, ◌<ℤ◌}
use timeoff_request.Base.Table.{get_or}
use timeoff_request.Domain.Days.{Number, finite, is_finite, le_zero}

abbrev pub default_sync_worker_interval_ms : Number
default_sync_worker_interval_ms = finite (pos 5000)

abbrev pub default_sync_max_attempts : Number
default_sync_max_attempts = finite (pos 5)

abbrev pub default_idempotency_ttl_sec : Number
default_idempotency_ttl_sec = finite (pos 86400)

pub record ConfigService : Type 0 where
  pub db_path : String
  pub sync_worker_interval_ms : Number
  pub sync_max_attempts : Number
  pub idempotency_ttl_sec : Number

-- the service as it is constructed, given `process.env.DB_PATH`
abbrev pub config_service : Option String → ConfigService
config_service path = record {
  db_path = get_or path ":memory:";
  sync_worker_interval_ms = default_sync_worker_interval_ms;
  sync_max_attempts = default_sync_max_attempts;
  idempotency_ttl_sec = default_idempotency_ttl_sec;
}

-- `!Number.isFinite(n) || n <= 0`
abbrev pub is_unusable : Number → Bool
is_unusable n = not (is_finite n) || le_zero n

-- the message of the error that is thrown, if one is
unfoldable pub validate : ConfigService → Option String
validate config =
    if is_unusable config.sync_worker_interval_ms
    then some "SYNC_WORKER_INTERVAL_MS must be a positive number"
    else if is_unusable config.sync_max_attempts
    then some "SYNC_MAX_ATTEMPTS must be a positive number"
    else if is_unusable config.idempotency_ttl_sec
    then some "IDEMPOTENCY_TTL_SEC must be a positive number"
    else none

-- a positive number that is finite
pub data IsPositive : Number → Type 0 where
  positive : (d : ℤ) → pos 0 <ℤ d → IsPositive (finite d)

usable : (n : Number) → is_unusable n ≡ false → IsPositive n
usable (finite d) h = positive d (ground arith)
usable Number.infinity h = absurd (cc)
usable Number.neg_infinity h = absurd (cc)
usable Number.nan h = absurd (cc)

usable-IsPositive : (n : Number) → IsPositive n → is_unusable n ≡ false
usable-IsPositive _ (positive d h) = ground arith

-- For all settings: `validate` throws nothing exactly if the three numbers are finite and positive.
-- The service as it is constructed passes it with any database path.
pub validate_lem :
    (config : ConfigService) (path : Option String)
    → ((validate config ≡ none) ↔ (
        IsPositive config.sync_worker_interval_ms
        × IsPositive config.sync_max_attempts
        × IsPositive config.idempotency_ttl_sec))
      × (validate (config_service path) ≡ none)
unfolding validate
validate_lem config path = (
  (
    λ h. (usable _ (ground arith), usable _ (ground arith), usable _ (ground arith)),
    λ (a, b, c).
        ground (arith, usable-IsPositive _ a, usable-IsPositive _ b, usable-IsPositive _ c),
  ),
  refl,
)
