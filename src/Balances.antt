-- ===== src/Balances.antt =====
-- src/modules/balances: the repository (balances.repository.ts) and the service
-- (balances.service.ts).
pub mod Rows
pub mod Consume
pub mod Delta
use Prim.Native.String.{◌++◌ as concat}
use timeoff_request.Base.{
  ℕ, ◌+◌, String, Option, none, some, Bool, true, false, not, ◌&&◌, ◌||◌, List, [], ◌∷◌, ◌++◌, ◌==◌,
  nat_eqb, if◌then◌else◌, is_some,
}
use timeoff_request.Base.Int.{ℤ, pos, ◌+ℤ◌, ◌-ℤ◌, leb_ℤ}
use timeoff_request.Base.Table.{find, update_where, count_where}
use timeoff_request.Json.{Json, json_eqb}
use timeoff_request.Domain.Errors.{ok, sqlite, unique_key, check, foreign_key}
use timeoff_request.Store.Rows.{
  Db, Balance, BalanceLedgerEntry, SyncEventRow, SyncEventId, uuid, inbound_key, SyncDirection,
  inbound, outbound, SyncStatus, is_request, is_balance,
}
use timeoff_request.Store.World.{
  Action, pure, gets, defined, now, write, write_if, require, ◌>>=◌, ◌>>◌,
}

unfoldable pub get : String → String → Action (Option Balance)
get employee_id location_id = gets λ w. find (is_balance employee_id location_id) w.db.balances

abbrev pub upserted : ℤ → ℕ → Balance → Balance
upserted days time b = record b {
  available_days = days;
  version = b.version + 1;
  updated_at = time;
  last_synced_at = some time;
}

-- `INSERT ... ON CONFLICT DO UPDATE` on the list of rows
unfoldable pub upsert : String → String → ℤ → ℕ → List Balance → List Balance
upsert e l days time rows =
    if is_some (find (is_balance e l) rows)
    then update_where (is_balance e l) (upserted days time) rows
    else rows
      ++ record {
        employee_id = e;
        location_id = l;
        available_days = days;
        version = 1;
        updated_at = time;
        last_synced_at = some time;
      }
        ∷ []

-- the CHECK on `available_days` refuses a negative amount
unfoldable pub upsert_absolute : String → String → ℤ → Action Balance
unfolding get upsert
upsert_absolute employee_id location_id available_days = do
  time ← now
  write_if (leb_ℤ (pos 0) available_days) (sqlite check) (λ db. record db {
    balances = upsert employee_id location_id available_days time db.balances;
  })
  row ← get employee_id location_id
  defined row

-- `a ?? b`
abbrev pub or_else : {A : Type 0} → Option A → Action A → Action A
or_else none m w = m w
or_else (some a) m w = (ok a, w)

unfoldable pub apply_delta : String → String → ℤ → Action Balance
unfolding get upsert_absolute
apply_delta employee_id location_id delta_days = do
  found ← get employee_id location_id
  existing ← or_else found (upsert_absolute employee_id location_id (pos 0))
  upsert_absolute employee_id location_id (existing.available_days +ℤ delta_days)

-- the WHERE of `consumeWithVersion`
abbrev pub can_consume : String → String → ℤ → ℕ → Balance → Bool
can_consume e l days expected b =
    is_balance e l b && nat_eqb b.version expected && leb_ℤ (pos 0) (b.available_days -ℤ days)

abbrev pub consumed : ℤ → ℕ → Balance → Balance
consumed days time b = record b {
  available_days = b.available_days -ℤ days;
  version = b.version + 1;
  updated_at = time;
}

unfoldable pub consume_with_version : String → String → ℤ → ℕ → Action (Option Balance)
unfolding get
consume_with_version employee_id location_id days expected_version = do
  time ← now
  changes ←
      gets
        λ w. count_where (can_consume employee_id location_id days expected_version) w.db.balances
  write λ db. record db {
    balances =
        update_where (can_consume employee_id location_id days expected_version)
          (consumed days time) db.balances;
  }
  if nat_eqb changes 0 then pure none else get employee_id location_id

abbrev pub direction_eqb : SyncDirection → SyncDirection → Bool
direction_eqb inbound inbound = true
direction_eqb outbound outbound = true
direction_eqb _ _ = false

abbrev pub event_id_eqb : SyncEventId → SyncEventId → Bool
event_id_eqb (uuid s) (uuid t) = s == t
event_id_eqb (inbound_key s p) (inbound_key t q) = s == t && json_eqb p q
event_id_eqb _ _ = false

-- the primary key and the index `idx_sync_events_dedupe`
abbrev pub same_event : SyncEventId → String → Json → SyncDirection → SyncEventRow → Bool
same_event id external payload dir r =
    event_id_eqb r.id id
    || (r.external_event_id == external
        && json_eqb r.payload_hash payload
        && direction_eqb r.direction dir)

abbrev pub inbound_row : String → Json → ℕ → SyncEventRow
inbound_row external payload time = record {
  event = record {
    id = inbound_key external payload;
    direction = inbound;
    external_event_id = external;
    payload_hash = payload;
    status = SyncStatus.processed;
    error = none;
    created_at = time;
  };
  request_id = none;
  attempt_count = 0;
  next_attempt_at = none;
  processed_at = none;
}

-- `INSERT OR IGNORE`: the result is whether a row was inserted
unfoldable pub record_inbound_sync_event : String → Json → Action Bool
record_inbound_sync_event external payload = do
  time ← now
  seen ← gets λ w.
      is_some
        (find (same_event (inbound_key external payload) external payload inbound) w.db.sync_events)
  if seen then pure false else do
    write λ db. record db { sync_events = db.sync_events ++ inbound_row external payload time ∷ [] }
    pure true

-- a reference to `time_off_requests` is NULL or names a row
abbrev pub refers : Option String → Db → Bool
refers none db = true
refers (some id) db = is_some (find (is_request id) db.requests)

abbrev pub is_entry : String → BalanceLedgerEntry → Bool
is_entry id e = e.id == id

unfoldable pub insert_ledger_entry : BalanceLedgerEntry → Action Unit
insert_ledger_entry entry = do
  db ← gets λ w. w.db
  require (not (is_some (find (is_entry entry.id) db.ledger))) (sqlite unique_key)
  write_if (refers entry.request_id db) (sqlite foreign_key)
      (λ d. record d { ledger = d.ledger ++ entry ∷ [] })

-- `balanceKey` of shared/types/balance.types.ts, which the services write out
unfoldable pub balance_key : String → String → String
balance_key employee_id location_id = concat (concat employee_id "::") location_id

-- `BalancesService.getBalance`
unfoldable pub get_balance : String → String → Action Balance
unfolding get upsert_absolute
get_balance employee_id location_id = do
  found ← get employee_id location_id
  or_else found (upsert_absolute employee_id location_id (pos 0))
