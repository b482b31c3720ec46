-- ===== src/Base/Table.antt =====
-- A table of the database as the list of its rows in insertion order, and the SQL statements that
-- the repositories issue: SELECT by a key, UPDATE ... WHERE, and the number of rows it changed.
use timeoff_request.Base.{
  String, ◌==◌, eq_iff, ℕ, ◌+◌, ◌≤◌, ◌≡◌, refl, Bool, true, Option, none, some, List, [], ◌∷◌, ◌++◌,
  arith, if◌then◌else◌, is_some, length,
}
use mathlib.Core.Option

module _ {ℓ} {R : Type ℓ} where
  -- `SELECT ... WHERE p` read by `get`: the first row that fits
  unfoldable pub find : (R → Bool) → List R → Option R
  find p [] = none
  find p (r ∷ rs) = if p r then some r else find p rs

  -- `SELECT ... WHERE p` read by `all`
  unfoldable pub select : (R → Bool) → List R → List R
  select p [] = []
  select p (r ∷ rs) = let rest = select p rs in if p r then r ∷ rest else rest

  -- `UPDATE ... SET f WHERE p`
  unfoldable pub update_where : (R → Bool) → (R → R) → List R → List R
  update_where p f [] = []
  update_where p f (r ∷ rs) = (if p r then f r else r) ∷ update_where p f rs

  -- `result.changes` of that statement
  unfoldable pub count_where : (R → Bool) → List R → ℕ
  count_where p [] = 0
  count_where p (r ∷ rs) = (if p r then 1 else 0) + count_where p rs

  -- the row that an update leaves in place of `r`
  abbrev pub updated : (R → Bool) → (R → R) → R → R
  updated p f r = if p r then f r else r

  -- An update that keeps what `q` tests is seen by `find q` in the row it found before.
  pub find-update_where :
      (p q : R → Bool) (f : R → R) (rs : List R)
      → ((r : R) → q (f r) ≡ q r)
      → find q (update_where p f rs) ≡ Option.map (updated p f) (find q rs)
  unfolding find update_where
  find-update_where p q f [] keep = refl
  find-update_where p q f (r ∷ rs) keep = ground (arith, keep r, find-update_where p q f rs keep)

  pub find-append :
      (q : R → Bool) (rs : List R) (r : R)
      → find q (rs ++ r ∷ [])
        ≡ (if is_some (find q rs) then find q rs else if q r then some r else none)
  unfolding find
  find-append q [] r = ground arith
  find-append q (x ∷ rs) r = ground (arith, find-append q rs r)

  pub count_where-find : (p : R → Bool) (rs : List R) → find p rs ≡ none → count_where p rs ≡ 0
  unfolding find count_where
  count_where-find p [] h = refl
  count_where-find p (r ∷ rs) h = ground (arith, count_where-find p rs)

  pub count_where_pos :
      (p : R → Bool) (rs : List R) (r : R) → find p rs ≡ some r → 1 ≤ count_where p rs
  unfolding find count_where
  count_where_pos p [] r h = ground arith
  count_where_pos p (x ∷ rs) r h = ground (arith, count_where_pos p rs r)

  pub find_holds : (p : R → Bool) (rs : List R) (r : R) → find p rs ≡ some r → p r ≡ true
  unfolding find
  find_holds p [] r h = ground arith
  find_holds p (x ∷ rs) r h = ground (arith, find_holds p rs r)

  -- the row that a test finds after an update that keeps it
  pub find-updated :
      (p : R → Bool) (f : R → R) (rows : List R) (r : R)
      → ((x : R) → p (f x) ≡ p x)
      → find p rows ≡ some r
      → find p (update_where p f rows) ≡ some (f r)
  find-updated p f rows r keep found =
      ground (arith, find-update_where p p f rows keep, find_holds p rows r found)

  pub length-update_where :
      (p : R → Bool) (f : R → R) (rs : List R) → length (update_where p f rs) ≡ length rs
  unfolding update_where
  length-update_where p f [] = refl
  length-update_where p f (r ∷ rs) = ground (arith, length-update_where p f rs)

  -- `ORDER BY`: a stable sort by a test `before x y`, "x may stand in front of y"
  unfoldable pub insert_by : (R → R → Bool) → R → List R → List R
  insert_by before x [] = x ∷ []
  insert_by before x (y ∷ ys) = if before x y then x ∷ y ∷ ys else y ∷ insert_by before x ys

  unfoldable pub order_by : (R → R → Bool) → List R → List R
  unfolding insert_by
  order_by before [] = []
  order_by before (x ∷ xs) = insert_by before x (order_by before xs)

-- a JavaScript `Map` keyed by texts, in the order of insertion
module _ {ℓ} {V : Type ℓ} where
  unfoldable pub map_get : String → List (String × V) → Option V
  map_get k [] = none
  map_get k ((j, v) ∷ m) = if j == k then some v else map_get k m

  unfoldable pub map_set : String → V → List (String × V) → List (String × V)
  map_set k v [] = (k, v) ∷ []
  map_set k v ((j, w) ∷ m) = if j == k then (j, v) ∷ m else (j, w) ∷ map_set k v m

  pub map_get-map_set :
      (k j : String) (v : V) (m : List (String × V))
      → map_get j (map_set k v m) ≡ (if k == j then some v else map_get j m)
  unfolding map_get map_set
  map_get-map_set k j v [] = refl
  map_get-map_set k j v ((i, w) ∷ m) =
      ground (arith, eq_iff k j, eq_iff i k, eq_iff i j, map_get-map_set k j v m)

-- `map.get(k) ?? d`
abbrev pub get_or {ℓ} : {V : Type ℓ} → Option V → V → V
get_or none d = d
get_or (some v) d = v
