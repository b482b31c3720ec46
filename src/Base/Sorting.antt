-- ===== src/Base/Sorting.antt =====
-- `ORDER BY` and `LIMIT`: the sorted rows are the selected ones, each as often, in order.
use timeoff_request.Base.{
  ℕ, ◌≤◌, ◌≡◌, refl, Bool, true, ◌&&◌, List, [], ◌∷◌, arith, length, leb, Bool-cases, inl, inr,
}
use timeoff_request.Base.All.{All}
use timeoff_request.Base.Table.{select, count_where, insert_by, order_by}

module _ {R : Type 0} (key : R → ℕ) where
  -- the keys do not go down
  abbrev pub Sorted : List R → Type 0
  Sorted [] = Unit
  Sorted (x ∷ xs) = All (λ y. key x ≤ key y) xs × Sorted xs

  abbrev pub by_key : R → R → Bool
  by_key x y = leb (key x) (key y)

  count-insert_by :
      (p : R → Bool) (before : R → R → Bool) (x : R) (xs : List R)
      → count_where p (insert_by before x xs) ≡ count_where p (x ∷ xs)
  unfolding insert_by count_where
  count-insert_by p before x [] = refl
  count-insert_by p before x (y ∷ ys) = ground (arith, count-insert_by p before x ys)

  pub count-order_by :
      (p : R → Bool) (before : R → R → Bool) (xs : List R)
      → count_where p (order_by before xs) ≡ count_where p xs
  unfolding order_by count_where
  count-order_by p before [] = refl
  count-order_by p before (x ∷ xs) =
      ground (arith, count-insert_by p before x (order_by before xs), count-order_by p before xs)

  pub count-select :
      (p q : R → Bool) (xs : List R)
      → count_where p (select q xs) ≡ count_where (λ x. q x && p x) xs
  unfolding select count_where
  count-select p q [] = refl
  count-select p q (x ∷ xs) = ground (arith, count-select p q xs)

  pub length-count : (xs : List R) → length xs ≡ count_where (λ _. true) xs
  unfolding count_where
  length-count [] = refl
  length-count (x ∷ xs) = ground (arith, length-count xs)

  All-narrow : (a b : ℕ) (xs : List R) → a ≤ b → All (λ y. b ≤ key y) xs → All (λ y. a ≤ key y) xs
  All-narrow a b [] h all = tt
  All-narrow a b (x ∷ xs) h all = (omega (arith, all.0), All-narrow a b xs h all.1)

  All-insert_by :
      (a : ℕ) (before : R → R → Bool) (x : R) (xs : List R)
      → a ≤ key x
      → All (λ y. a ≤ key y) xs
      → All (λ y. a ≤ key y) (insert_by before x xs)
  unfolding insert_by
  All-insert_by a before x [] h all = (h, tt)
  All-insert_by a before x (y ∷ ys) h all = elim (Bool-cases (before x y)) [
    | inl front ↦ rw front (h, all)
    | inr back ↦ rw back (all.0, All-insert_by a before x ys h all.1)
  ]

  insert_by-Sorted : (x : R) (xs : List R) → Sorted xs → Sorted (insert_by by_key x xs)
  unfolding insert_by
  insert_by-Sorted x [] h = (tt, tt)
  insert_by-Sorted x (y ∷ ys) h = elim (Bool-cases (by_key x y)) [
    | inl front ↦
        let le : key x ≤ key y = ground arith in
        rw front ((le, All-narrow (key x) (key y) ys le h.0), h)
    | inr back ↦
        let le : key y ≤ key x = ground arith in
        rw back (All-insert_by (key y) by_key x ys le h.0, insert_by-Sorted x ys h.1)
  ]

  pub order_by-Sorted : (xs : List R) → Sorted (order_by by_key xs)
  unfolding order_by
  order_by-Sorted [] = tt
  order_by-Sorted (x ∷ xs) = insert_by-Sorted x (order_by by_key xs) (order_by-Sorted xs)
