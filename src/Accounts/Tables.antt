-- ===== src/Accounts/Tables.antt =====
-- An update of the one row that a test finds: what it does to counts and to what holds of every row.
use timeoff_request.Base.{
  ℕ, zero, suc, ◌+◌, ◌≤◌, ◌≡◌, refl, Bool, true, false, none, some, List, [], ◌∷◌, ◌++◌, arith, inl,
  inr, Bool-cases, if◌then◌else◌, take,
}
use timeoff_request.Base.All.{All}
use timeoff_request.Base.Table.{find, update_where, count_where}

module _ {R : Type 0} where
  pub update_where-none :
      (q : R → Bool) (f : R → R) (rows : List R)
      → count_where q rows ≡ 0
      → update_where q f rows ≡ rows
  unfolding update_where count_where
  update_where-none q f [] h = refl
  update_where-none q f (r ∷ rows) h = ground (arith, h, update_where-none q f rows)

  head_found :
      (q : R → Bool) (r x : R) (rows : List R) → find q (r ∷ rows) ≡ some x → q r ≡ true → r ≡ x
  unfolding find
  head_found q r x rows found fits = ground (arith, found, fits)

  tail_found :
      (q : R → Bool) (r x : R) (rows : List R)
      → find q (r ∷ rows) ≡ some x
      → q r ≡ false
      → find q rows ≡ some x
  unfolding find
  tail_found q r x rows found skips = ground (arith, found, skips)

  nothing : (q : R → Bool) (x : R) → find q [] ≡ some x → ⊥
  unfolding find
  nothing q x found = absurd (cc)

  All-each : (P Q : R → Type 0) (rows : List R) → ((r : R) → P r → Q r) → All P rows → All Q rows
  All-each P Q [] keep h = tt
  All-each P Q (r ∷ rows) keep h = (keep r h.0, All-each P Q rows keep h.1)

  -- one row more or less fits
  pub count_where-update_one :
      (p q : R → Bool) (f : R → R) (rows : List R) (x : R)
      → find q rows ≡ some x
      → count_where q rows ≤ 1
      → count_where p (update_where q f rows) + (if p x then 1 else 0)
        ≡ count_where p rows + (if p (f x) then 1 else 0)
  unfolding update_where count_where
  count_where-update_one p q f [] x found one = absurd (nothing q x found)
  count_where-update_one p q f (r ∷ rows) x found one = elim (Bool-cases (q r)) [
    | inl fits ↦
        let same = head_found q r x rows found fits in
        rw (fits, update_where-none q f rows (ground (arith, one, fits)), ← same) (omega arith)
    | inr skips ↦
        let rest =
          count_where-update_one p q f rows x (tail_found q r x rows found skips)
            (ground (arith, one, skips)) in
        rw skips (omega (arith, rest))
  ]

  pub All-update_one :
      (P Q : R → Type 0) (q : R → Bool) (f : R → R) (rows : List R) (x : R)
      → find q rows ≡ some x
      → count_where q rows ≤ 1
      → ((r : R) → P r → Q r)
      → Q (f x)
      → All P rows
      → All Q (update_where q f rows)
  unfolding update_where count_where
  All-update_one P Q q f [] x found one keep new h = tt
  All-update_one P Q q f (r ∷ rows) x found one keep new h = elim (Bool-cases (q r)) [
    | inl fits ↦
        let same = head_found q r x rows found fits in
        rw (fits, update_where-none q f rows (ground (arith, one, fits)), same)
          (new, All-each P Q rows keep h.1)
    | inr skips ↦ rw skips (
      keep r h.0,
      All-update_one P Q q f rows x (tail_found q r x rows found skips) (ground (arith, one, skips))
          keep new h.1,
    )
  ]

  pub count_where_zero :
      (p : R → Bool) (rows : List R) → count_where p rows ≡ 0 → All (λ r. p r ≡ false) rows
  unfolding count_where
  count_where_zero p [] h = tt
  count_where_zero p (r ∷ rows) h = (ground (arith, h), count_where_zero p rows (ground (arith, h)))

  pub count_where-false :
      (p : R → Bool) (rows : List R) → All (λ r. p r ≡ false) rows → count_where p rows ≡ 0
  unfolding count_where
  count_where-false p [] h = refl
  count_where-false p (r ∷ rows) h = ground (arith, h.0, count_where-false p rows h.1)

  pub count_where-take :
      (p : R → Bool) (n : ℕ) (rows : List R) → count_where p (take n rows) ≤ count_where p rows
  unfolding count_where
  count_where-take p zero rows = omega arith
  count_where-take p (suc n) [] = omega arith
  count_where-take p (suc n) (r ∷ rows) = omega (arith, count_where-take p n rows)

  pub count_where-append :
      (p : R → Bool) (rows : List R) (r : R)
      → count_where p (rows ++ r ∷ []) ≡ count_where p rows + (if p r then 1 else 0)
  unfolding count_where
  count_where-append p [] r = ground arith
  count_where-append p (x ∷ rows) r = ground (arith, count_where-append p rows r)

  pub count_where-narrow :
      (p q : R → Bool) (rows : List R)
      → find p rows ≡ none
      → ((r : R) → q r ≡ true → p r ≡ true)
      → count_where q rows ≡ 0
  unfolding count_where find
  count_where-narrow p q [] absent narrow = refl
  count_where-narrow p q (r ∷ rows) absent narrow =
      ground (arith, absent, narrow r, count_where-narrow p q rows)
