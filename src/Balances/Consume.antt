-- ===== src/Balances/Consume.antt =====
-- `consumeWithVersion`: given the version that was just read and enough days, it always succeeds.
use timeoff_request.Base.{
  ℕ, ◌≡◌, refl, String, some, Bool, true, false, ◌&&◌, List, [], ◌∷◌, arith, nat_eqb, ◌==◌,
}
use timeoff_request.Base.Int.{ℤ, pos, ◌-ℤ◌, leb_ℤ}
use timeoff_request.Base.Table.{
  find, update_where, count_where, find-update_where, find_holds, count_where_pos,
}
use timeoff_request.Domain.Errors.{ok}
use timeoff_request.Store.Rows.{Balance, is_balance}
use timeoff_request.Store.World.{World}
use timeoff_request.Balances.{get, can_consume, consumed, consume_with_version}
use timeoff_request.Balances.Rows.{ticked, clock, updated_other}

abbrev pub after_consume : String → String → ℤ → ℕ → World → World
after_consume e l days version w = record (ticked w) {
  db = record w.db {
    balances = update_where (can_consume e l days version) (consumed days (clock w)) w.db.balances;
  };
}

find_of_narrow :
    (p q : Balance → Bool) (rows : List Balance) (b : Balance)
    → find q rows ≡ some b
    → p b ≡ true
    → ((r : Balance) → p r ≡ true → q r ≡ true)
    → find p rows ≡ some b
unfolding find
find_of_narrow p q [] b h hp narrow = h
find_of_narrow p q (r ∷ rows) b h hp narrow = ground (arith, narrow r, find_of_narrow p q rows b)

pub can_consume-is_balance :
    (e l : String) (days : ℤ) (version : ℕ) (b : Balance)
    → can_consume e l days version b ≡ true
    → is_balance e l b ≡ true
can_consume-is_balance e l days version b h = ground arith

module _ (e l : String) (days : ℤ) (w : World) (b : Balance)
    (found : find (is_balance e l) w.db.balances ≡ some b)
    (enough : leb_ℤ (pos 0) (b.available_days -ℤ days) ≡ true) where
  can_consume_found : can_consume e l days b.version b ≡ true
  can_consume_found = ground (arith, find_holds (is_balance e l) w.db.balances b found)

  -- The key has the row with the days taken off.
  pub find-after_consume :
      find (is_balance e l) (after_consume e l days b.version w).db.balances
      ≡ some (consumed days (clock w) b)
  find-after_consume =
      rw
        (find-update_where (can_consume e l days b.version) (is_balance e l)
          (consumed days (clock w)) w.db.balances (λ r. refl))
        (rw found (rw can_consume_found))

  some_row_changes : nat_eqb (count_where (can_consume e l days b.version) w.db.balances) 0 ≡ false
  some_row_changes = ground (
    arith,
    count_where_pos (can_consume e l days b.version) w.db.balances b (
        find_of_narrow (can_consume e l days b.version) (is_balance e l) w.db.balances b found
          can_consume_found (can_consume-is_balance e l days b.version)),
  )

  pub consume_with_version_succeeds :
      consume_with_version e l days b.version w
      ≡ (ok (some (consumed days (clock w) b)), after_consume e l days b.version w)
  unfolding consume_with_version get
  consume_with_version_succeeds = rw some_row_changes (rw find-after_consume)

  -- Every other key has the row that it had.
  pub find-after_consume_other :
      (j k : String)
      → (e == j && l == k) ≡ false
      → find (is_balance j k) (after_consume e l days b.version w).db.balances
        ≡ find (is_balance j k) w.db.balances
  find-after_consume_other j k apart =
      rw
        (find-update_where (can_consume e l days b.version) (is_balance j k)
          (consumed days (clock w)) w.db.balances (λ r. refl))
        (updated_other e l j k (can_consume e l days b.version) (consumed days (clock w))
          (can_consume-is_balance e l days b.version) apart w.db.balances)
