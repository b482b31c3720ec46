-- ===== src/Idempotency/Canonical.antt =====
-- The fingerprint of a body (fingerprint.ts) and the values that it does not tell apart.
use timeoff_request.Base.{
  ◌≡◌, ◌∙◌, refl, ap, sym, ◌↔◌, String, true, false, ◌==◌, arith, eq_iff, inl, inr, Bool-cases,
}
use timeoff_request.Base.Order.{not_after, not_after_total, not_after_trans, not_after_antisym}
use timeoff_request.Json.{
  Json, null, bool, num, str, arr, obj, Items, nil, cons, Fields, end, field, json_eqb,
  json_eqb_sound, json_eqb_refl,
}
use mathlib.Core.Path.{subst}
use timeoff_request.Idempotency.Service.{HttpRequest, fingerprint_of}
use timeoff_request.Idempotency.Fingerprint.{
  insert_field, canonicalize, canonicalize_items, canonicalize_fields, canonical_fingerprint,
}

-- The least equivalence of values under which two neighbouring members of different names may be
-- swapped, and a member named "__proto__" may be left out or put in, anywhere in the value.
mutual
  pub data SameValue : Json → Json → Type 0 where
    same : {a : Json} → SameValue a a
    turned : {a b : Json} → SameValue a b → SameValue b a
    linked : {a b c : Json} → SameValue a b → SameValue b c → SameValue a c
    items : {xs ys : Items} → SameItems xs ys → SameValue (arr xs) (arr ys)
    members : {fs gs : Fields} → SameMembers fs gs → SameValue (obj fs) (obj gs)

  pub data SameItems : Items → Items → Type 0 where
    none_left : SameItems nil nil
    item :
        {a b : Json} {xs ys : Items}
        → SameValue a b
        → SameItems xs ys
        → SameItems (cons a xs) (cons b ys)

  pub data SameMembers : Fields → Fields → Type 0 where
    unchanged : {fs : Fields} → SameMembers fs fs
    then_on : {fs gs hs : Fields} → SameMembers fs gs → SameMembers gs hs → SameMembers fs hs
    member :
        {k : String} {a b : Json} {fs gs : Fields}
        → SameValue a b
        → SameMembers fs gs
        → SameMembers (field k a fs) (field k b gs)
    swapped :
        {k j : String} {a b : Json} {fs : Fields}
        → (k == j) ≡ false
        → SameMembers (field k a (field j b fs)) (field j b (field k a fs))
    left_out : {a : Json} {fs : Fields} → SameMembers (field "__proto__" a fs) fs

insert_field_comm :
    (k j : String) (v w : Json) (fs : Fields)
    → (k == j) ≡ false
    → insert_field k v (insert_field j w fs) ≡ insert_field j w (insert_field k v fs)
unfolding insert_field
insert_field_comm k j v w end apart =
    ground (arith, not_after_total k j, not_after_antisym k j, eq_iff k j)
insert_field_comm k j v w (field i x fs) apart = ground (
  arith,
  not_after_total k j,
  not_after_antisym k j,
  eq_iff k j,
  not_after_total j i,
  not_after_total k i,
  not_after_trans k i j,
  not_after_trans j i k,
  insert_field_comm k j v w fs apart,
)

mutual
  unfolding canonicalize canonicalize_items canonicalize_fields

  canonicalize-SameValue : (a b : Json) → SameValue a b → canonicalize a ≡ canonicalize b
  canonicalize-SameValue a _ same = refl
  canonicalize-SameValue a b (turned p) = sym (canonicalize-SameValue b a p)
  canonicalize-SameValue a c (linked {b = b} p q) =
      canonicalize-SameValue a b p ∙ canonicalize-SameValue b c q
  canonicalize-SameValue (arr xs) (arr ys) (items p) = ap arr (canonicalize_items-SameItems xs ys p)
  canonicalize-SameValue (obj fs) (obj gs) (members p) =
      ap obj (canonicalize_fields-SameMembers fs gs p)

  canonicalize_items-SameItems :
      (xs ys : Items) → SameItems xs ys → canonicalize_items xs ≡ canonicalize_items ys
  canonicalize_items-SameItems _ _ none_left = refl
  canonicalize_items-SameItems (cons a xs) (cons b ys) (item p q) =
      cc (canonicalize-SameValue a b p, canonicalize_items-SameItems xs ys q)

  canonicalize_fields-SameMembers :
      (fs gs : Fields) → SameMembers fs gs → canonicalize_fields fs ≡ canonicalize_fields gs
  canonicalize_fields-SameMembers fs _ unchanged = refl
  canonicalize_fields-SameMembers fs hs (then_on {gs = gs} p q) =
      canonicalize_fields-SameMembers fs gs p ∙ canonicalize_fields-SameMembers gs hs q
  canonicalize_fields-SameMembers (field k a fs) (field _ b gs) (member p q) =
      rw (canonicalize-SameValue a b p, canonicalize_fields-SameMembers fs gs q) refl
  canonicalize_fields-SameMembers (field k a (field j b fs)) _ (swapped apart) = ground (
    arith,
    apart,
    insert_field_comm k j (canonicalize a) (canonicalize b) (canonicalize_fields fs) apart,
  )
  canonicalize_fields-SameMembers (field _ a fs) _ left_out = refl

-- a member is put in its place by swaps
insert_field-SameMembers :
    (k : String) (v : Json) (fs : Fields) → SameMembers (field k v fs) (insert_field k v fs)
unfolding insert_field
insert_field-SameMembers k v end = SameMembers.unchanged
insert_field-SameMembers k v (field j w fs) = elim (Bool-cases (not_after k j)) [
  | inl first ↦ rw first SameMembers.unchanged
  | inr later ↦ rw later (
      SameMembers.then_on
        (SameMembers.swapped (ground (arith, later, eq_iff k j, not_after_total k j)))
        (SameMembers.member SameValue.same (insert_field-SameMembers k v fs)))
]

mutual
  unfolding canonicalize canonicalize_items canonicalize_fields

  SameValue-canonicalize : (a : Json) → SameValue a (canonicalize a)
  SameValue-canonicalize null = SameValue.same
  SameValue-canonicalize (bool b) = SameValue.same
  SameValue-canonicalize (num n) = SameValue.same
  SameValue-canonicalize (str s) = SameValue.same
  SameValue-canonicalize (arr xs) = SameValue.items (SameItems-canonicalize xs)
  SameValue-canonicalize (obj fs) = SameValue.members (SameMembers-canonicalize fs)

  SameItems-canonicalize : (xs : Items) → SameItems xs (canonicalize_items xs)
  SameItems-canonicalize nil = SameItems.none_left
  SameItems-canonicalize (cons x xs) =
      SameItems.item (SameValue-canonicalize x) (SameItems-canonicalize xs)

  SameMembers-canonicalize : (fs : Fields) → SameMembers fs (canonicalize_fields fs)
  SameMembers-canonicalize end = SameMembers.unchanged
  SameMembers-canonicalize (field k v fs) =
      let value = SameValue-canonicalize v in
      let rest = SameMembers-canonicalize fs in
      elim (Bool-cases (k == "__proto__")) [
        | inl lost ↦ rw lost (
            subst (λ i. SameMembers (field i v fs) (canonicalize_fields fs))
              (sym ((eq_iff k "__proto__").0 lost)) (SameMembers.then_on SameMembers.left_out rest))
        | inr stays ↦ rw stays (
            SameMembers.then_on (SameMembers.member value rest)
              (insert_field-SameMembers k (canonicalize v) (canonicalize_fields fs)))
      ]

-- one canonical form, one value
same_canonical : (a b : Json) → canonicalize a ≡ canonicalize b → SameValue a b
same_canonical a b h =
    SameValue.linked (SameValue-canonicalize a)
      (SameValue.turned (subst (SameValue b) (sym h) (SameValue-canonicalize b)))

-- Two bodies have one fingerprint exactly when one comes from the other by reordering the members of
-- objects and by leaving out or putting in members named "__proto__", at any depth.
pub canonical_fingerprint_lem :
    (a b : Json) → (canonical_fingerprint a ≡ canonical_fingerprint b) ↔ SameValue a b
unfolding canonical_fingerprint
canonical_fingerprint_lem a b = (same_canonical a b, canonicalize-SameValue a b)

-- the fingerprint is made of the two parts
fingerprint_parts :
    (r : HttpRequest)
    → fingerprint_of r ≡ obj (field "body" (canonicalize r.body) (field "url" (str r.url) end))
unfolding canonical_fingerprint canonicalize insert_field
fingerprint_parts r = refl

same_parts :
    (r s : HttpRequest)
    → fingerprint_of r ≡ fingerprint_of s
    → (r.url ≡ s.url) × (canonicalize r.body ≡ canonicalize s.body)
same_parts r s h = let parts = sym (fingerprint_parts r) ∙ h ∙ fingerprint_parts s in (cc, cc)

-- The interceptor takes two requests for the same exactly when they have the same URL and their
-- bodies differ at most by the order of members and by members named "__proto__", at any depth.
pub fingerprint_of_decides :
    (r s : HttpRequest)
    → (json_eqb (fingerprint_of r) (fingerprint_of s) ≡ true)
      ↔ ((r.url ≡ s.url) × SameValue r.body s.body)
fingerprint_of_decides r s = (
  λ h.
      let (url, body) = same_parts r s (json_eqb_sound (fingerprint_of r) (fingerprint_of s) h) in
      (url, same_canonical r.body s.body body),
  λ h.
      let body = canonicalize-SameValue r.body s.body h.1 in
      let same : fingerprint_of r ≡ fingerprint_of s =
        fingerprint_parts r ∙ (rw (h.0, body) (sym (fingerprint_parts s))) in
      rw same (json_eqb_refl (fingerprint_of s)),
)
