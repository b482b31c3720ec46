-- ===== src/Observability/Digits.antt =====
-- The decimal texts of numbers, read back (template texts of metrics.service.ts).
use Prim.Native.Nat.{◌/◌, ◌%◌}
use Prim.Native.Char.{code}
use Prim.Native.String.{[], ◌∷◌}
use timeoff_request.Base.{
  ℕ, zero, suc, ◌+◌, ◌*◌, ◌<◌, ◌≡◌, ◌∙◌, refl, String, some, Bool, true, false, arith, ltb,
  Bool-cases, inl, inr,
}
use timeoff_request.Base.Int.{ℤ, pos, negsuc}
use timeoff_request.Observability.Prometheus.{digit, digits, number_text, int_text}
use timeoff_request.Observability.Reading.{read_digits, read_int, lacks}

code-digit : (d : ℕ) → d < 10 → code (digit d) ≡ 48 + d
code-digit zero h = refl
code-digit (suc zero) h = refl
code-digit (suc (suc zero)) h = refl
code-digit (suc (suc (suc zero))) h = refl
code-digit (suc (suc (suc (suc zero)))) h = refl
code-digit (suc (suc (suc (suc (suc zero))))) h = refl
code-digit (suc (suc (suc (suc (suc (suc zero)))))) h = refl
code-digit (suc (suc (suc (suc (suc (suc (suc zero))))))) h = refl
code-digit (suc (suc (suc (suc (suc (suc (suc (suc zero)))))))) h = refl
code-digit (suc (suc (suc (suc (suc (suc (suc (suc (suc zero))))))))) h = refl
code-digit (suc (suc (suc (suc (suc (suc (suc (suc (suc (suc n)))))))))) h =
    absurd (omega (arith, h))

digits-round :
    (rounds n : ℕ) (text : String)
    → ltb n 10 ≡ false
    → digits (suc rounds) n text ≡ digits rounds (n / 10) (digit (n % 10) ∷ text)
unfolding digits
digits-round rounds n text h = ground (arith, h)

digits-last :
    (rounds n : ℕ) (text : String) → ltb n 10 ≡ true → digits (suc rounds) n text ≡ digit n ∷ text
unfolding digits
digits-last rounds n text h = ground (arith, h)

read_digits-digit :
    (d n : ℕ) (text : String)
    → d < 10
    → read_digits (digit d ∷ text) n ≡ read_digits text (n * 10 + d)
unfolding read_digits
read_digits-digit d n text h = ground (arith, code-digit d h)

read_digits-digits :
    (rounds n : ℕ) (text : String)
    → n < rounds
    → read_digits (digits rounds n text) 0 ≡ read_digits text n
read_digits-digits zero n text h = ground arith
read_digits-digits (suc rounds) n text h = elim (Bool-cases (ltb n 10)) [
  | inl small ↦ rw (digits-last rounds n text small) (ground (arith, read_digits-digit n 0 text))
  | inr large ↦ rw (digits-round rounds n text large) (
      ground (
        arith,
        read_digits-digits rounds (n / 10) (digit (n % 10) ∷ text),
        read_digits-digit (n % 10) (n / 10) text,
      ))
]

-- a number that no digit has
lacks-digits :
    (k rounds n : ℕ) (text : String)
    → k < 48
    → lacks k text ≡ true
    → lacks k (digits rounds n text) ≡ true
unfolding digits lacks
lacks-digits k zero n text h none_in = none_in
lacks-digits k (suc rounds) n text h none_in = elim (Bool-cases (ltb n 10)) [
  | inl small ↦ ground (arith, small, none_in, code-digit n)
  | inr large ↦ rw (digits-round rounds n text large) (
      lacks-digits k rounds (n / 10) (digit (n % 10) ∷ text) h
        (ground (arith, none_in, code-digit (n % 10))))
]

pub lacks-int_text : (k : ℕ) (z : ℤ) → k < 45 → lacks k (int_text z) ≡ true
unfolding lacks
lacks-int_text k (pos n) h = lacks-digits k (suc n) n "" (omega (arith, h)) refl
lacks-int_text k (negsuc n) h =
    ground (arith, h, lacks-digits k (suc (suc n)) (suc n) "" (omega (arith, h)) refl)

-- a text with a first character
abbrev begins : String → Bool
begins [] = false
begins (c ∷ s) = true

begins-digits :
    (rounds n : ℕ) (text : String) → begins text ≡ true → begins (digits rounds n text) ≡ true
unfolding digits
begins-digits zero n text h = h
begins-digits (suc rounds) n text h = elim (Bool-cases (ltb n 10)) [
  | inl small ↦ ground (arith, small)
  | inr large ↦
      rw (digits-round rounds n text large)
        (begins-digits rounds (n / 10) (digit (n % 10) ∷ text) refl)
]

begins-number_text : (n : ℕ) → begins (number_text n) ≡ true
begins-number_text n = elim (Bool-cases (ltb n 10)) [
  | inl small ↦ rw (digits-last n n "" small) refl
  | inr large ↦ rw (digits-round n n "" large) (begins-digits n (n / 10) (digit (n % 10) ∷ "") refl)
]

read_int-read_digits :
    (text : String) (n : ℕ)
    → begins text ≡ true
    → read_digits text 0 ≡ some n
    → read_int text ≡ some (pos n)
unfolding read_digits
read_int-read_digits [] n h read = absurd (cc)
read_int-read_digits (c ∷ s) n h read = ground (arith, h, read)

pub read_int-int_text : (z : ℤ) → read_int (int_text z) ≡ some z
unfolding read_digits
read_int-int_text (pos n) =
    read_int-read_digits (number_text n) n (begins-number_text n)
      (read_digits-digits (suc n) n "" (omega arith) ∙ (ground (arith)))
read_int-int_text (negsuc n) =
    ground (arith, read_digits-digits (suc (suc n)) (suc n) "" (omega arith))
