-- ===== src/Balances/Delta.antt =====
-- `applyDelta` and `upsertAbsolute` by what they return or throw and by the row of every key.
use timeoff_request.Base.{
  ◌≡◌, ◌∙◌, refl, String, Option, none, some, true, false, ◌&&◌, ◌==◌, arith, inl, inr,
  Option-cases, if◌then◌else◌, Bool-cases,
}
use timeoff_request.Base.Int.{ℤ, pos, ◌+ℤ◌, leb_ℤ}
use timeoff_request.Base.Table.{find}
use timeoff_request.Domain.Errors.{ok, err, sqlite, check}
use timeoff_request.Store.Rows.{Balance, is_balance}
use timeoff_request.Store.World.{World, ◌>>=◌}
use timeoff_request.Store.Run.{bind_ok}
use timeoff_request.Balances.{get, or_else, upsert_absolute, apply_delta}
use timeoff_request.Balances.Rows.{
  clock, upserted_row, after_upsert, upsert_absolute_stores, upsert_absolute_refuses, find-upsert,
  find-upsert_self, is_balance_self,
}

abbrev pub row_of : String → String → World → Option Balance
row_of e l w = find (is_balance e l) w.db.balances

-- nothing but the balances and the clock moves on
abbrev pub SameButBalances : World → World → Type 0
SameButBalances w w' = w' ≡ record w {
  db = record w.db { balances = w'.db.balances };
  env = record w.env { time_reads = w'.env.time_reads };
}

abbrev pub stored : String → String → ℤ → World → Balance
stored e l days w = upserted_row e l days (clock w) (row_of e l w)

-- For all keys and amounts: zero or more days are stored under the key, which has the returned row
-- from then on, its version one higher or 1 for a new row; a negative amount throws the violation
-- of the CHECK and changes no row. No other key's row changes, and nothing else but the clock.
pub upsert_absolute_lem :
    (e l : String) (days : ℤ) (w : World)
    → let (r, w') = upsert_absolute e l days w in
      (r ≡ (if leb_ℤ (pos 0) days then ok (stored e l days w) else err (sqlite check)))
      × ((j k : String)
          → row_of j k w' ≡ (
              if (e == j && l == k) && leb_ℤ (pos 0) days
              then some (stored e l days w)
              else row_of j k w))
      × SameButBalances w w'
upsert_absolute_lem e l days w = elim (Bool-cases (leb_ℤ (pos 0) days)) [
  | inl fits ↦
      rw (upsert_absolute_stores e l days w fits) (
        ground arith,
        λ j k. ground (arith, find-upsert e l j k days (clock w) w.db.balances),
        refl,
      )
  | inr refused ↦
      rw (upsert_absolute_refuses e l days w refused) (ground arith, λ j k. ground arith, refl)
]

-- the days before the change: none without a row
abbrev pub days_before : Option Balance → ℤ
days_before none = pos 0
days_before (some b) = b.available_days

-- the row before the change, and the reading of the clock that dates it: a key without a row gets
-- one of no days first
abbrev base_world : String → String → World → Option Balance → World
base_world e l w none = after_upsert e l (pos 0) w
base_world e l w (some b) = w

changed :
    (e l : String) (delta : ℤ) (w : World) (found : Option Balance)
    → row_of e l w ≡ found
    → (or_else found (upsert_absolute e l (pos 0)) >>= λ b.
          upsert_absolute e l (b.available_days +ℤ delta))
        w
      ≡ upsert_absolute e l (days_before found +ℤ delta) (base_world e l w found)
changed e l delta w none fresh =
    bind_ok (upsert_absolute e l (pos 0)) (λ b. upsert_absolute e l (b.available_days +ℤ delta)) w
      (after_upsert e l (pos 0) w) (stored e l (pos 0) w)
      (upsert_absolute_stores e l (pos 0) w refl)
    ∙ rw fresh
changed e l delta w (some b) old = refl

delta_lem :
    (e l : String) (delta : ℤ) (w : World)
    → apply_delta e l delta w
      ≡ upsert_absolute e l (days_before (row_of e l w) +ℤ delta) (base_world e l w (row_of e l w))
unfolding apply_delta get
delta_lem e l delta w = changed e l delta w (row_of e l w) refl

base-row_of :
    (e l j k : String) (w : World)
    → (e == j && l == k) ≡ false
    → row_of j k (base_world e l w (row_of e l w)) ≡ row_of j k w
base-row_of e l j k w apart = elim (Option-cases (row_of e l w)) [
  | inl fresh ↦ ground (arith, find-upsert e l j k (pos 0) (clock w) w.db.balances)
  | inr (b, old) ↦ rw old
]

base-days_before :
    (e l : String) (w : World)
    → days_before (row_of e l (base_world e l w (row_of e l w))) ≡ days_before (row_of e l w)
base-days_before e l w = elim (Option-cases (row_of e l w)) [
  | inl fresh ↦ ground (arith, find-upsert_self e l (pos 0) (clock w) w.db.balances)
  | inr (b, old) ↦ ground arith
]

base-frame :
    (e l : String) (w w' : World)
    → SameButBalances (base_world e l w (row_of e l w)) w'
    → SameButBalances w w'
base-frame e l w w' h = elim (Option-cases (row_of e l w)) [
  | inl fresh ↦ ground arith
  | inr (b, old) ↦ ground arith
]

-- For all keys and changes: where the days of the key (none without a row) and the change come to
-- zero or more, the row returned has that sum and is the row of the key from then on; otherwise the
-- violation of the CHECK is thrown and the key has as many days as before. No other key's row changes, and nothing else but the clock.
pub apply_delta_lem :
    (e l : String) (delta : ℤ) (w : World)
    → let (r, w') = apply_delta e l delta w in
      let sum = days_before (row_of e l w) +ℤ delta in
      (leb_ℤ (pos 0) sum ≡ true
        → (b : Balance) × (r ≡ ok b) × (row_of e l w' ≡ some b) × (b.available_days ≡ sum))
      × (leb_ℤ (pos 0) sum ≡ false
          → (r ≡ err (sqlite check)) × (days_before (row_of e l w') ≡ days_before (row_of e l w)))
      × ((j k : String) → (e == j && l == k) ≡ false → row_of j k w' ≡ row_of j k w)
      × SameButBalances w w'
apply_delta_lem e l delta w =
    let sum = days_before (row_of e l w) +ℤ delta in
    let base = base_world e l w (row_of e l w) in
    let (r, rows, frame) = upsert_absolute_lem e l sum base in
    rw (delta_lem e l delta w) (
      λ fits. (
        stored e l sum base,
        ground (arith, r),
        ground (arith, rows e l, is_balance_self e l),
        ground arith,
      ),
      λ refused. (ground (arith, r), ground (arith, rows e l, base-days_before e l w)),
      λ j k apart. ground (arith, rows j k, base-row_of e l j k w apart),
      base-frame e l w (upsert_absolute e l sum base).1 frame,
    )
