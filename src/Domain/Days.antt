-- ===== src/Domain/Days.antt =====
-- Amounts of days, and shared/domain/balance.policy.ts. A JavaScript number is an integer count of
-- the smallest unit of a day, an infinity or NaN; rounding is not modelled.
use timeoff_request.Base.{Bool, true, false, ◌||◌, not, if◌then◌else◌}
use timeoff_request.Base.Int.{ℤ, pos, ◌-ℤ◌, ltb_ℤ, leb_ℤ}
use timeoff_request.Domain.Errors.{Result, ok, err, domain, invalid_days, insufficient_balance}

pub data Number : Type 0 where
  finite : ℤ → Number
  infinity neg_infinity nan : Number

-- `Number.isFinite`
abbrev pub is_finite : Number → Bool
is_finite (finite _) = true
is_finite _ = false

-- `n <= 0`; every comparison with NaN is false
abbrev pub le_zero : Number → Bool
le_zero (finite z) = leb_ℤ z (pos 0)
le_zero neg_infinity = true
le_zero _ = false

-- `n < 0`
abbrev pub lt_zero : Number → Bool
lt_zero (finite z) = ltb_ℤ z (pos 0)
lt_zero neg_infinity = true
lt_zero _ = false

-- the value of a number that `isFinite` has let through
abbrev pub days_of : Number → ℤ
days_of (finite z) = z
days_of _ = pos 0

unfoldable pub assert_positive_days : Number → Result Unit
assert_positive_days days =
    if not (is_finite days) || le_zero days then err (domain invalid_days) else ok tt

unfoldable pub assert_has_balance : ℤ → ℤ → Result Unit
assert_has_balance available requested =
    if ltb_ℤ (available -ℤ requested) (pos 0) then err (domain insufficient_balance) else ok tt
