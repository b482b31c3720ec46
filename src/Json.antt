-- ===== src/Json.antt =====
-- JavaScript values as JSON carries them. The columns that hold the text of `JSON.stringify` hold
-- here the value that the text is made of; members of an object keep their order, so two values
-- are equal exactly when their texts are.
use timeoff_request.Base.{
  ◌≡◌, refl, ap, Bool, true, false, ◌&&◌, and_elim, String, Option, none, some, arith, ◌==◌, eq_iff,
  if◌then◌else◌,
}
use timeoff_request.Base.Int.{ℤ, int_eqb, int_eqb_iff}

mutual
  pub data Json : Type 0 where
    null : Json
    bool : Bool → Json
    num : ℤ → Json
    str : String → Json
    arr : Items → Json
    obj : Fields → Json

  pub data Items : Type 0 where
    nil : Items
    cons : Json → Items → Items

  pub data Fields : Type 0 where
    end : Fields
    field : String → Json → Fields → Fields

-- equality of the texts
unfoldable mutual
  pub json_eqb : Json → Json → Bool
  json_eqb null null = true
  json_eqb (bool true) (bool b) = b
  json_eqb (bool false) (bool true) = false
  json_eqb (bool false) (bool false) = true
  json_eqb (num m) (num n) = int_eqb m n
  json_eqb (str s) (str t) = s == t
  json_eqb (arr xs) (arr ys) = items_eqb xs ys
  json_eqb (obj xs) (obj ys) = fields_eqb xs ys
  json_eqb _ _ = false

  pub items_eqb : Items → Items → Bool
  items_eqb nil nil = true
  items_eqb (cons x xs) (cons y ys) = json_eqb x y && items_eqb xs ys
  items_eqb _ _ = false

  pub fields_eqb : Fields → Fields → Bool
  fields_eqb end end = true
  fields_eqb (field k x xs) (field l y ys) = k == l && json_eqb x y && fields_eqb xs ys
  fields_eqb _ _ = false

mutual
  unfolding json_eqb items_eqb fields_eqb

  json_sound : (a b : Json) → json_eqb a b ≡ true → a ≡ b
  json_sound null null h = refl
  json_sound (bool true) (bool b) h = ground arith
  json_sound (bool false) (bool true) h = cc
  json_sound (bool false) (bool false) h = refl
  json_sound (num m) (num n) h = ap num ((int_eqb_iff m n).0 h)
  json_sound (str s) (str t) h = ap str ((eq_iff s t).0 h)
  json_sound (arr xs) (arr ys) h = ap arr (items_sound xs ys h)
  json_sound (obj xs) (obj ys) h = ap obj (fields_sound xs ys h)
  json_sound _ _ h = cc

  items_sound : (a b : Items) → items_eqb a b ≡ true → a ≡ b
  items_sound nil nil h = refl
  items_sound (cons x xs) (cons y ys) h =
      let (same, rest) = and_elim (json_eqb x y) (items_eqb xs ys) h in
      cc (json_sound x y same, items_sound xs ys rest)
  items_sound _ _ h = cc

  fields_sound : (a b : Fields) → fields_eqb a b ≡ true → a ≡ b
  fields_sound end end h = refl
  fields_sound (field k x xs) (field l y ys) h =
      let (front, rest) = and_elim (k == l && json_eqb x y) (fields_eqb xs ys) h in
      let (key, same) = and_elim (k == l) (json_eqb x y) front in
      cc ((eq_iff k l).0 key, json_sound x y same, fields_sound xs ys rest)
  fields_sound _ _ h = cc

mutual
  unfolding json_eqb items_eqb fields_eqb

  json_refl : (a : Json) → json_eqb a a ≡ true
  json_refl null = refl
  json_refl (bool true) = refl
  json_refl (bool false) = refl
  json_refl (num m) = (int_eqb_iff m m).1 refl
  json_refl (str s) = (eq_iff s s).1 refl
  json_refl (arr xs) = items_refl xs
  json_refl (obj xs) = fields_refl xs

  items_refl : (a : Items) → items_eqb a a ≡ true
  items_refl nil = refl
  items_refl (cons x xs) = ground (arith, json_refl x, items_refl xs)

  fields_refl : (a : Fields) → fields_eqb a a ≡ true
  fields_refl end = refl
  fields_refl (field k x xs) = ground (arith, eq_iff k k, json_refl x, fields_refl xs)

-- Equal texts are equal values.
pub json_eqb_sound : (a b : Json) → json_eqb a b ≡ true → a ≡ b
json_eqb_sound a b h = json_sound a b h

pub json_eqb_refl : (a : Json) → json_eqb a a ≡ true
json_eqb_refl a = json_refl a

-- `value.key` of an object: the first member of that name
unfoldable pub get_field : String → Fields → Option Json
get_field k end = none
get_field k (field j v fs) = if j == k then some v else get_field k fs

-- `{ ...fields, key: value }`: the member keeps its place if there is one
unfoldable pub set_field : String → Json → Fields → Fields
set_field k v end = field k v end
set_field k v (field j w fs) = if j == k then field j v fs else field j w (set_field k v fs)

abbrev pub str_or_null : Option String → Json
str_or_null none = null
str_or_null (some s) = str s
