-- ===== src/Domain/Errors.antt =====
-- `DomainError` with its codes and their HTTP statuses (shared/domain/errors.ts and
-- filters/domain-error.filter.ts), and the other exceptions that the modelled code meets.
use timeoff_request.Base.{ℕ, ◌≡◌, refl, ◌⊎◌, inl, inr, Option, none, some}

pub data DomainErrorCode : Type 0 where
  request_not_found illegal_status_transition invalid_days : DomainErrorCode
  invalid_dimensions idempotency_key_conflict insufficient_balance : DomainErrorCode
  conflict hcm_unavailable : DomainErrorCode

-- `kind` of the errors that the HCM client throws
pub data FailureKind : Type 0 where
  transient functional : FailureKind

-- the constraints of the schema whose violation makes SQLite throw
pub data Constraint : Type 0 where
  unique_key check not_null foreign_key : Constraint

pub data Error : Type 0 where
  domain : DomainErrorCode → Error
  sqlite : Constraint → Error
  hcm : FailureKind → Error
  -- `fetch` rejects: an error with no `kind`
  network : Error
  -- `TypeError`: a property of `undefined` is read
  type_error : Error

-- what a call returns or throws
pub data Result (A : Type 0) : Type 0 where
  ok : A → Result A
  err : Error → Result A

pub Result-cases : (r : Result Unit) → (r ≡ ok tt) ⊎ ((e : Error) × (r ≡ err e))
Result-cases (ok tt) = inl refl
Result-cases (err e) = inr (e, refl)

-- `mapCodeToHttpStatus`
unfoldable pub http_status : DomainErrorCode → ℕ
http_status request_not_found = 404
http_status insufficient_balance = 409
http_status conflict = 409
http_status hcm_unavailable = 503
http_status _ = 400

-- `err.kind === 'TRANSIENT'`
abbrev pub kind_of : Error → Option FailureKind
kind_of (hcm k) = some k
kind_of _ = none
