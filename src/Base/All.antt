-- ===== src/Base/All.antt =====
-- Statements about every row of a table.
use timeoff_request.Base.{
  ℕ, zero, suc, take, ◌≡◌, Bool, true, false, some, List, [], ◌∷◌, ◌++◌, Bool-cases, if◌then◌else◌,
  inl, inr, arith,
}
use mathlib.Core.Path.{subst}
use timeoff_request.Base.Table.{find, select, update_where, insert_by, order_by}

abbrev pub All {ℓ κ} : {A : Type ℓ} → (A → Type κ) → List A → Type κ
All P [] = Unit
All P (x ∷ xs) = P x × All P xs

module _ {ℓ κ} {A : Type ℓ} (P : A → Type κ) where
  pub All-concat : (xs : List A) (x : A) → All P xs → P x → All P (xs ++ x ∷ [])
  All-concat [] x h p = (p, tt)
  All-concat (y ∷ xs) x h p = (h.0, All-concat xs x h.1 p)

  pub All-append : (xs ys : List A) → All P xs → All P ys → All P (xs ++ ys)
  All-append [] ys h k = k
  All-append (x ∷ xs) ys h k = (h.0, All-append xs ys h.1 k)

  pub All-if : (b : Bool) (x y : A) → (b ≡ true → P x) → (b ≡ false → P y) → P (if b then x else y)
  All-if true x y px py = px (λ i. true)
  All-if false x y px py = py (λ i. false)

  -- the rows that the condition fits keep `P` under the update
  pub All-update_where :
      (p : A → Bool) (f : A → A) (xs : List A)
      → ((x : A) → p x ≡ true → P x → P (f x))
      → All P xs
      → All P (update_where p f xs)
  unfolding update_where
  All-update_where p f [] keep h = tt
  All-update_where p f (x ∷ xs) keep h =
      (All-if (p x) (f x) x (λ e. keep x e h.0) (λ _. h.0), All-update_where p f xs keep h.1)

  pub All-find : (p : A → Bool) (xs : List A) (x : A) → find p xs ≡ some x → All P xs → P x
  unfolding find
  All-find p [] x e h = absurd (cc)
  All-find p (y ∷ xs) x e h = elim (Bool-cases (p y)) [
    | inl fits ↦ let same : y ≡ x = ground arith in subst P same h.0
    | inr skips ↦ All-find p xs x (ground arith) h.1
  ]

  pub All-take : (n : ℕ) (xs : List A) → All P xs → All P (take n xs)
  All-take zero xs h = tt
  All-take (suc n) [] h = tt
  All-take (suc n) (x ∷ xs) h = (h.0, All-take n xs h.1)

  pub All-select : (p : A → Bool) (xs : List A) → All P xs → All P (select p xs)
  unfolding select
  All-select p [] h = tt
  All-select p (x ∷ xs) h = elim (Bool-cases (p x)) [
    | inl fits ↦ rw fits (h.0, All-select p xs h.1)
    | inr skips ↦ rw skips (All-select p xs h.1)
  ]

  pub All-insert :
      (before : A → A → Bool) (x : A) (xs : List A) → P x → All P xs → All P (insert_by before x xs)
  unfolding insert_by
  All-insert before x [] p h = (p, tt)
  All-insert before x (y ∷ ys) p h = elim (Bool-cases (before x y)) [
    | inl front ↦ rw front (p, h)
    | inr back ↦ rw back (h.0, All-insert before x ys p h.1)
  ]

  pub All-order_by : (before : A → A → Bool) (xs : List A) → All P xs → All P (order_by before xs)
  unfolding order_by
  All-order_by before [] h = tt
  All-order_by before (x ∷ xs) h =
      All-insert before x (order_by before xs) h.0 (All-order_by before xs h.1)

module _ {ℓ κ μ} {A : Type ℓ} (P : A → Type κ) (Q : A → Type μ) where
  pub All-map : ((x : A) → P x → Q x) → (xs : List A) → All P xs → All Q xs
  All-map f [] h = tt
  All-map f (x ∷ xs) h = (f x h.0, All-map f xs h.1)
