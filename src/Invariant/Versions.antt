-- ===== src/Invariant/Versions.antt =====
-- The versions of a balance: the lock of `consumeWithVersion` is sound, since no call changes the
-- days of a row and leaves it its version.
use timeoff_request.Base.{
  ℕ, ◌+◌, ◌≤◌, ◌≡◌, refl, Bool, arith, eq_iff, List, String, some, ◌==◌, ◌&&◌, Bool-cases, inl, inr,
}
use timeoff_request.Base.Int.{ℤ}
use timeoff_request.Base.Table.{find, update_where, find-update_where}
use timeoff_request.Store.Rows.{Db, Balance, is_balance}
use timeoff_request.Store.World.{World}
use timeoff_request.Balances.{upsert, can_consume, consumed}
use timeoff_request.Balances.Rows.{find-upsert, upserted_row}
use timeoff_request.Requests.Repository.{refunded}
use timeoff_request.Invariant.Writes.{PlainWrites, plain}
use timeoff_request.Invariant.Calls.{serve-Keeps}
use timeoff_request.Api
use timeoff_request.Api.{Call}

module _ (e l : String) (old : Balance) where
  -- the key has a row of the same version and days, or of a later version
  pub record IsLater (db : Db) : Type 0 where
    pub row : Balance
    pub found : find (is_balance e l) db.balances ≡ some row
    pub not_before : old.version ≤ row.version
    pub same_days : row.version ≡ old.version → row.available_days ≡ old.available_days

  kept : (db now : Db) → now.balances ≡ db.balances → IsLater db → IsLater now
  kept db now same h = record {
    row = h.row;
    found = rw same h.found;
    not_before = h.not_before;
    same_days = h.same_days;
  }

  -- an update that keeps the keys and gives each row that it changes the next version
  update-IsLater :
      (p : Balance → Bool) (f : Balance → Balance) (db now : Db)
      → now.balances ≡ update_where p f db.balances
      → ((b : Balance) → is_balance e l (f b) ≡ is_balance e l b)
      → ((b : Balance) → (f b).version ≡ b.version + 1)
      → IsLater db
      → IsLater now
  update-IsLater p f db now change keys next h =
      let b = h.row in
      let seen = find-update_where p (is_balance e l) f db.balances keys in
      elim (Bool-cases (p b)) [
        | inl fits ↦ record {
          row = f b;
          found = ground (arith, change, seen, h.found);
          not_before = ground (arith, next b, h.not_before);
          same_days = λ same. ground (arith, next b, h.not_before);
        }
        | inr skips ↦ record {
          row = b;
          found = ground (arith, change, seen, h.found);
          not_before = h.not_before;
          same_days = h.same_days;
        }
      ]

  upsert-IsLater :
      (j k : String) (days : ℤ) (time : ℕ) (db : Db)
      → IsLater db
      → IsLater (record db { balances = upsert j k days time db.balances })
  upsert-IsLater j k days time db h = elim (Bool-cases (j == e && k == l)) [
    | inl same ↦ record {
      row = upserted_row j k days time (some h.row);
      found =
          ground
            (arith, h.found, eq_iff j e, eq_iff k l, find-upsert j k e l days time db.balances);
      not_before = ground (arith, h.not_before);
      same_days = λ again. ground (arith, h.not_before);
    }
    | inr apart ↦ record {
      row = h.row;
      found = ground (arith, h.found, find-upsert j k e l days time db.balances);
      not_before = h.not_before;
      same_days = h.same_days;
    }
  ]

  IsLater-Writes : PlainWrites IsLater
  IsLater-Writes = record {
    elsewhere = λ db now b r s h. kept db now b h;
    upserts = λ j k days time db d h. upsert-IsLater j k days time db h;
    consumes = λ j k days version time db h.
        update-IsLater (can_consume j k days version) (consumed days time) db _ refl (λ b. refl)
          (λ b. refl) h;
    creates = λ request db d h. kept db _ refl h;
    updates_requests = λ p f db same h. kept db _ refl h;
    reverses = λ id row time later db found h.
        update-IsLater (is_balance row.employee_id row.location_id) (refunded row.days later) db _
          refl (λ b. refl) (λ b. refl) h;
    adds_event = λ r db h. kept db _ refl h;
    updates_events = λ p f db key h. kept db _ refl h;
  }

-- A balance row is never lost, and in every history of calls its version never goes back; as long as
-- its version is the same, so are its days. So an update that expects the version of a row that was
-- read finds the days that were read.
pub version_guards_days :
    (e l : String) (b : Balance) (calls : List Call) (w : World)
    → find (is_balance e l) w.db.balances ≡ some b
    → (c : Balance) × (find (is_balance e l) (Api.serve calls w).db.balances ≡ some c)
      × (b.version ≤ c.version)
      × (c.version ≡ b.version → c.available_days ≡ b.available_days)
version_guards_days e l b calls w found =
    let later =
      serve-Keeps (IsLater e l b) (plain (IsLater e l b) (IsLater-Writes e l b)) calls w
        (record { row = b; found = found; not_before = omega arith; same_days = λ _. refl }) in
    (later.row, later.found, later.not_before, later.same_days)
