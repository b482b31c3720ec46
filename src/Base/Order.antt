-- ===== src/Base/Order.antt =====
-- The order of texts: by the codes of their characters, as `Array.prototype.sort` has it for texts
-- of one plane.
use Prim.Native.Nat.{Ordering, compare as compare_codes}
use Prim.Native.Char.{Char, code}
use Prim.Native.String.compare as clauses
use Prim.Native.String.{String, [], ◌∷◌, compare, then}
use mathlib.Core.Path.{◌≡◌, refl}
use mathlib.Core.Bool.{Bool, true, false}
use native.Mathlib.Omega.{arith}
use text.Mathlib.TextEquality.{codes_equal}

-- `k` may stand in front of `j` in the order of `Array.prototype.sort`
abbrev pub not_after : String → String → Bool
not_after k j = elim (compare k j) [ Ordering.gt ↦ false | _ ↦ true ]

cons_cons :
    (c d : Char) (s t : String)
    → compare (c ∷ s) (d ∷ t) ≡ then (compare_codes (code c) (code d)) (compare s t)
cons_cons c d s t = clauses.cons-cons c d s t

nil_cons : (d : Char) (t : String) → compare [] (d ∷ t) ≡ Ordering.lt
nil_cons d t = clauses.nil-cons d t

cons_nil : (c : Char) (s : String) → compare (c ∷ s) [] ≡ Ordering.gt
cons_nil c s = clauses.cons-nil c s

nil_nil : compare [] [] ≡ Ordering.eq
nil_nil = clauses.nil-nil

-- Of two texts, one may stand in front of the other.
pub not_after_total : (k j : String) → not_after k j ≡ false → not_after j k ≡ true
not_after_total [] [] h = ground (arith, nil_nil)
not_after_total [] (d ∷ t) h = ground (arith, nil_cons d t)
not_after_total (c ∷ s) [] h = ground (arith, nil_cons c s)
not_after_total (c ∷ s) (d ∷ t) h =
    ground (arith, cons_cons c d s t, cons_cons d c t s, not_after_total s t)

pub not_after_trans :
    (k j i : String) → not_after k j ≡ true → not_after j i ≡ true → not_after k i ≡ true
not_after_trans [] [] i h h' = h'
not_after_trans [] (d ∷ t) [] h h' = ground (arith, nil_nil)
not_after_trans [] (d ∷ t) (e ∷ u) h h' = ground (arith, nil_cons e u)
not_after_trans (c ∷ s) [] i h h' = ground (arith, cons_nil c s)
not_after_trans (c ∷ s) (d ∷ t) [] h h' = ground (arith, cons_nil d t)
not_after_trans (c ∷ s) (d ∷ t) (e ∷ u) h h' =
    ground (arith, cons_cons c d s t, cons_cons d e t u, cons_cons c e s u, not_after_trans s t u)

pub not_after_antisym : (k j : String) → not_after k j ≡ true → not_after j k ≡ true → k ≡ j
not_after_antisym [] [] h h' = refl
not_after_antisym [] (d ∷ t) h h' = ground (arith, cons_nil d t)
not_after_antisym (c ∷ s) [] h h' = ground (arith, cons_nil c s)
not_after_antisym (c ∷ s) (d ∷ t) h h' =
    ground (arith, cons_cons c d s t, cons_cons d c t s, not_after_antisym s t, codes_equal c d)
