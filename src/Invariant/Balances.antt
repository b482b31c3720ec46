-- ===== src/Invariant/Balances.antt =====
-- The operations on balances and sync events keep what their statements keep.
use timeoff_request.Base.{ℕ, ◌≡◌, String, Option, none, some, Bool, true, false, [], ◌∷◌, ◌++◌}
use timeoff_request.Base.Int.{ℤ}
use timeoff_request.Store.Rows.{Db, Balance, BalanceLedgerEntry}
use timeoff_request.Store.World.{write, write_if}
use timeoff_request.Domain.Errors.{Error}
use timeoff_request.Store.Keeps.{Keeps, keeps_rules, Keeps-write, Keeps-write_if}
use timeoff_request.Balances
use timeoff_request.Balances.{
  upsert_absolute, or_else, apply_delta, consume_with_version, inbound_row,
}
use timeoff_request.Json.{Json}
use timeoff_request.Invariant.Writes.{Writes}

module _ (P : Db → Type 0) (laws : Writes P) where
  -- a statement that writes other tables
  pub write_elsewhere :
      (f : Db → Db)
      → ((db : Db) → (f db).balances ≡ db.balances)
      → ((db : Db) → (f db).requests ≡ db.requests)
      → ((db : Db) → (f db).sync_events ≡ db.sync_events)
      → Keeps P (write f)
  write_elsewhere f b r s = record {
    at = λ w h. laws.elsewhere w.db (f w.db) (b w.db) (r w.db) (s w.db) h;
  }

  pub write_if_elsewhere :
      (test : Bool) (e : Error) (f : Db → Db)
      → ((db : Db) → (f db).balances ≡ db.balances)
      → ((db : Db) → (f db).requests ≡ db.requests)
      → ((db : Db) → (f db).sync_events ≡ db.sync_events)
      → Keeps P (write_if test e f)
  write_if_elsewhere true e f b r s = record { at = (write_elsewhere f b r s).at }
  write_if_elsewhere false e f b r s = record { at = λ w h. h }

  pub upsert_absolute-Keeps : (e l : String) (days : ℤ) → Keeps P (upsert_absolute e l days)
  unfolding upsert_absolute Balances.get
  upsert_absolute-Keeps e l days = search (keeps_rules, Keeps-write_if, laws.upserts)

  pub or_upsert-Keeps :
      (o : Option Balance) (e l : String) (days : ℤ)
      → Keeps P (or_else o (upsert_absolute e l days))
  or_upsert-Keeps none e l days = upsert_absolute-Keeps e l days
  or_upsert-Keeps (some b) e l days = record { at = λ w h. h }

  pub apply_delta-Keeps : (e l : String) (days : ℤ) → Keeps P (apply_delta e l days)
  unfolding apply_delta Balances.get
  apply_delta-Keeps e l days = search (keeps_rules, or_upsert-Keeps, upsert_absolute-Keeps)

  pub get_balance-Keeps : (e l : String) → Keeps P (Balances.get_balance e l)
  unfolding Balances.get_balance Balances.get
  get_balance-Keeps e l = search (keeps_rules, or_upsert-Keeps)

  pub consume_with_version-Keeps :
      (e l : String) (days : ℤ) (version : ℕ) → Keeps P (consume_with_version e l days version)
  unfolding consume_with_version Balances.get
  consume_with_version-Keeps e l days version = search (keeps_rules, Keeps-write, laws.consumes)

  pub insert_ledger_entry-Keeps :
      (entry : BalanceLedgerEntry) → Keeps P (Balances.insert_ledger_entry entry)
  unfolding Balances.insert_ledger_entry
  insert_ledger_entry-Keeps entry = search (keeps_rules, write_if_elsewhere)

  -- an inbound event names no request
  add_inbound :
      (external : String) (payload : Json) (time : ℕ)
      → Keeps P (
          write (λ db. record db {
            sync_events = db.sync_events ++ inbound_row external payload time ∷ [];
          }))
  add_inbound external payload time = Keeps-write P _ (λ db.
      laws.adds_event (inbound_row external payload time) db (λ id names. absurd (cc))
        (λ id names. absurd (cc)))

  pub record_inbound-Keeps :
      (external : String) (payload : Json)
      → Keeps P (Balances.record_inbound_sync_event external payload)
  unfolding Balances.record_inbound_sync_event
  record_inbound-Keeps external payload = search (keeps_rules, add_inbound) depth 8
