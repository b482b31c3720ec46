-- ===== src/Balances/Rows.antt =====
-- `upsertAbsolute`, `applyDelta` and `getBalance` as equations: what they return or throw, and the
-- row that each key has afterwards.
use mathlib.Core.Option
use timeoff_request.Base.{
  ℕ, ◌+◌, ◌≡◌, refl, String, Option, none, some, Bool, true, false, ◌&&◌, List, ◌==◌, arith, eq_iff,
  eq_refl, if◌then◌else◌, Bool-cases, Option-cases, and_elim, inl, inr,
}
use timeoff_request.Base.Int.{ℤ, pos, leb_ℤ}
use timeoff_request.Base.Table.{find, find-update_where, find-append, find_holds, updated}
use timeoff_request.Domain.Errors.{ok, err, sqlite, check}
use timeoff_request.Store.Rows.{Balance, is_balance}
use timeoff_request.Store.World.{World}
use timeoff_request.Balances.{get, upserted, upsert, upsert_absolute}

-- the row that an upsert leaves at its key
abbrev pub upserted_row : String → String → ℤ → ℕ → Option Balance → Balance
upserted_row e l days time none = record {
  employee_id = e;
  location_id = l;
  available_days = days;
  version = 1;
  updated_at = time;
  last_synced_at = some time;
}
upserted_row e l days time (some b) = upserted days time b

-- the world after one reading of the clock
abbrev pub ticked : World → World
ticked w = record w { env = record w.env { time_reads = w.env.time_reads + 1 } }

abbrev pub clock : World → ℕ
clock w = w.env.times w.env.time_reads

pub is_balance_self : (e l : String) → (e == e && l == l) ≡ true
is_balance_self e l = ground (arith, eq_refl e, eq_refl l)

-- what the test on a key says of a row that passes it
pub is_balance_iff :
    (e l : String) (b : Balance)
    → is_balance e l b ≡ true
    → (b.employee_id ≡ e) × (b.location_id ≡ l)
is_balance_iff e l b h =
    let (left, right) = and_elim (b.employee_id == e) (b.location_id == l) h in
    ((eq_iff b.employee_id e).0 left, (eq_iff b.location_id l).0 right)

-- Two keys whose tests one row passes are the same.
same_key :
    (e l j k : String) (b : Balance)
    → is_balance e l b ≡ true
    → is_balance j k b ≡ true
    → (e == j && l == k) ≡ true
same_key e l j k b h h' =
    let (p, q) = is_balance_iff e l b h in
    let (p', q') = is_balance_iff j k b h' in ground (arith, eq_iff e j, eq_iff l k)

pub key_paths : (e l j k : String) → (e == j && l == k) ≡ true → (e ≡ j) × (l ≡ k)
key_paths e l j k h =
    let (p, q) = and_elim (e == j) (l == k) h in ((eq_iff e j).0 p, (eq_iff l k).0 q)

pub find-upsert_self :
    (e l : String) (days : ℤ) (time : ℕ) (rows : List Balance)
    → find (is_balance e l) (upsert e l days time rows)
      ≡ some (upserted_row e l days time (find (is_balance e l) rows))
unfolding upsert
find-upsert_self e l days time rows = elim (Option-cases (find (is_balance e l) rows)) [
  | inl fresh ↦ rw fresh (rw find-append (rw (fresh, is_balance_self e l)))
  | inr (b, old) ↦ rw old (
      rw (find-update_where (is_balance e l) (is_balance e l) (upserted days time) rows (λ r. refl))
        (rw old (rw (find_holds (is_balance e l) rows b old))))
]

-- An update of the row at one key leaves what the test of another key finds.
pub updated_other :
    (e l j k : String) (p : Balance → Bool) (f : Balance → Balance)
    → ((b : Balance) → p b ≡ true → is_balance e l b ≡ true)
    → (e == j && l == k) ≡ false
    → (rows : List Balance)
    → Option.map (updated p f) (find (is_balance j k) rows) ≡ find (is_balance j k) rows
updated_other e l j k p f narrow apart rows = elim (Option-cases (find (is_balance j k) rows)) [
  | inl e₀ ↦ rw e₀
  | inr (b, e₀) ↦
      ground (arith, narrow b, find_holds (is_balance j k) rows b e₀, same_key e l j k b)
]

-- After an upsert its key has the new row, and every other key the row that it had.
pub find-upsert :
    (e l j k : String) (days : ℤ) (time : ℕ) (rows : List Balance)
    → find (is_balance j k) (upsert e l days time rows) ≡ (
        if e == j && l == k
        then some (upserted_row e l days time (find (is_balance e l) rows))
        else find (is_balance j k) rows)
unfolding upsert
find-upsert e l j k days time rows = elim (Bool-cases (e == j && l == k)) [
  | inl same ↦
      let (p, q) = key_paths e l j k same in
      rw (same, ← p, ← q) (find-upsert_self e l days time rows)
  | inr apart ↦ elim (Option-cases (find (is_balance e l) rows)) [
    | inl fresh ↦ rw (fresh, apart) (rw find-append (rw apart (ground arith)))
    | inr (b, old) ↦
        rw (old, apart)
          (rw
            (find-update_where (is_balance e l) (is_balance j k) (upserted days time) rows
              (λ r. refl))
            (updated_other e l j k (is_balance e l) (upserted days time) (λ b h. h) apart rows))
  ]
]

abbrev pub after_upsert : String → String → ℤ → World → World
after_upsert e l days w = record (ticked w) {
  db = record w.db { balances = upsert e l days (clock w) w.db.balances };
}

-- An amount of zero or more is stored: the call returns the row that it leaves.
pub upsert_absolute_stores :
    (e l : String) (days : ℤ) (w : World)
    → leb_ℤ (pos 0) days ≡ true
    → upsert_absolute e l days w ≡ (
      ok (upserted_row e l days (clock w) (find (is_balance e l) w.db.balances)),
      after_upsert e l days w,
    )
unfolding upsert_absolute get
upsert_absolute_stores e l days w h = rw h (rw (find-upsert_self e l days (clock w) w.db.balances))

-- A negative amount is thrown back by the CHECK, and nothing is written.
pub upsert_absolute_refuses :
    (e l : String) (days : ℤ) (w : World)
    → leb_ℤ (pos 0) days ≡ false
    → upsert_absolute e l days w ≡ (err (sqlite check), ticked w)
unfolding upsert_absolute get
upsert_absolute_refuses e l days w h = rw h
