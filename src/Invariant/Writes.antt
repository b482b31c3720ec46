-- ===== src/Invariant/Writes.antt =====
-- The statements that write the tables of balances, requests and sync events, as an interface: a
-- predicate of the database that each of them keeps is an invariant of every call. An update of a
-- request comes with what the code knows when it makes it: the request is of the kind that was
-- established when it, or the event that names it, was read.
use timeoff_request.Base.{ℕ, ◌≡◌, String, some, Bool, true, false, List, [], ◌∷◌, ◌++◌}
use timeoff_request.Base.All.{All}
use timeoff_request.Base.Int.{ℤ, pos, leb_ℤ, ltb_ℤ}
use timeoff_request.Base.Table.{find, update_where}
use timeoff_request.Domain.Errors.{ok}
use timeoff_request.Domain.Status.{
  RequestStatus, pending, approved, synced, failed_sync, reversed, assert_transition,
}
use timeoff_request.Store.Rows.{
  Db, TimeOffRequest, RequestRow, SyncEventRow, is_request, is_balance,
}
use timeoff_request.Balances.{upsert, can_consume, consumed}
use timeoff_request.Requests.Repository.{is_live, request_row, request_reversed, refunded}

-- an update of an event that leaves its key and what it carries alone
pub record KeepsKey (f : SyncEventRow → SyncEventRow) : Type 0 where
  pub same_id : (r : SyncEventRow) → (f r).id ≡ r.id
  pub same_external : (r : SyncEventRow) → (f r).external_event_id ≡ r.external_event_id
  pub same_payload : (r : SyncEventRow) → (f r).payload_hash ≡ r.payload_hash
  pub same_direction : (r : SyncEventRow) → (f r).direction ≡ r.direction
  pub same_request : (r : SyncEventRow) → (f r).request_id ≡ r.request_id

-- an update of a request that leaves what was asked for alone
pub record KeepsRequest (f : RequestRow → RequestRow) : Type 0 where
  pub same_key : (r : RequestRow) → (f r).id ≡ r.id
  pub same_days : (r : RequestRow) → (f r).days ≡ r.days

-- the statuses from an approval on
abbrev pub is_granted : RequestStatus → Bool
is_granted approved = true
is_granted synced = true
is_granted failed_sync = true
is_granted reversed = true
is_granted _ = false

-- the statuses that the code gives to a request from its approval on
abbrev pub is_taken_up : RequestStatus → Bool
is_taken_up approved = true
is_taken_up synced = true
is_taken_up reversed = true
is_taken_up _ = false

-- the request is there, with a status of this kind
pub record IsInPhase (phase : RequestStatus → Bool) (id : String) (db : Db) : Type 0 where
  pub row : RequestRow
  pub found : find (is_request id) db.requests ≡ some row
  pub holds : phase row.status ≡ true

-- the request has been approved
abbrev pub IsGranted : String → Db → Type 0
IsGranted id db = IsInPhase is_granted id db

-- a row that names a request of this kind, or none
abbrev pub Carries : (String → Type 0) → SyncEventRow → Type 0
Carries Kind r = (id : String) → r.request_id ≡ some id → Kind id

pub record Writes (P : Db → Type 0) : Type 1 where
  -- the requests whose status an approval or the worker may change
  pub Kind : String → Type 0
  pub kind_of_request :
      (id : String) (row : RequestRow) (next : RequestStatus) (db : Db)
      → P db
      → find (is_request id) db.requests ≡ some row
      → assert_transition row.status next ≡ ok tt
      → Kind id
  pub kind_of_event : (db : Db) → P db → All (Carries Kind) db.sync_events
  -- statements on the other tables
  pub elsewhere :
      (db now : Db)
      → now.balances ≡ db.balances
      → now.requests ≡ db.requests
      → now.sync_events ≡ db.sync_events
      → P db
      → P now
  pub upserts :
      (e l : String) (days : ℤ) (time : ℕ) (db : Db)
      → leb_ℤ (pos 0) days ≡ true
      → P db
      → P (record db { balances = upsert e l days time db.balances })
  pub consumes :
      (e l : String) (days : ℤ) (version time : ℕ) (db : Db)
      → P db
      → P (record db {
        balances = update_where (can_consume e l days version) (consumed days time) db.balances;
      })
  pub creates :
      (request : TimeOffRequest) (db : Db)
      → ltb_ℤ (pos 0) request.days ≡ true
      → P db
      → P (record db { requests = db.requests ++ request_row request ∷ [] })
  -- a flag on requests that are not closed
  pub flags :
      (p : RequestRow → Bool) (f : RequestRow → RequestRow) (db : Db)
      → KeepsRequest f
      → ((r : RequestRow) → (f r).status ≡ r.status)
      → ((r : RequestRow) → p r ≡ true → is_live r.status ≡ true)
      → P db
      → P (record db { requests = update_where p f db.requests })
  -- an approval, or the end of a delivery
  pub grants :
      (id : String) (f : RequestRow → RequestRow) (db : Db)
      → Kind id
      → KeepsRequest f
      → ((r : RequestRow) → is_taken_up (f r).status ≡ true)
      → P db
      → P (record db { requests = update_where (is_request id) f db.requests })
  -- a rejection or cancellation of a request that is pending
  pub closes :
      (id : String) (row : RequestRow) (f : RequestRow → RequestRow) (db : Db)
      → find (is_request id) db.requests ≡ some row
      → row.status ≡ pending
      → KeepsRequest f
      → P db
      → P (record db { requests = update_where (is_request id) f db.requests })
  -- the two updates of a reversal
  pub reverses :
      (id : String) (row : RequestRow) (time later : ℕ) (db : Db)
      → Kind id
      → find (is_request id) db.requests ≡ some row
      → P db
      → P (record db {
        requests = update_where (is_request row.id) (request_reversed time) db.requests;
        balances =
            update_where
              (is_balance row.employee_id row.location_id)
              (refunded row.days later)
              db.balances;
      })
  -- an event that names a request follows its approval
  pub adds_event :
      (r : SyncEventRow) (db : Db)
      → Carries Kind r
      → ((id : String) → r.request_id ≡ some id → IsGranted id db)
      → P db
      → P (record db { sync_events = db.sync_events ++ r ∷ [] })
  pub updates_events :
      (p : SyncEventRow → Bool) (f : SyncEventRow → SyncEventRow) (db : Db)
      → KeepsKey f
      → P db
      → P (record db { sync_events = update_where p f db.sync_events })

-- the laws of a predicate to which the status of a request does not matter
pub record PlainWrites (P : Db → Type 0) : Type 0 where
  -- statements on the other tables
  pub elsewhere :
      (db now : Db)
      → now.balances ≡ db.balances
      → now.requests ≡ db.requests
      → now.sync_events ≡ db.sync_events
      → P db
      → P now
  pub upserts :
      (e l : String) (days : ℤ) (time : ℕ) (db : Db)
      → leb_ℤ (pos 0) days ≡ true
      → P db
      → P (record db { balances = upsert e l days time db.balances })
  pub consumes :
      (e l : String) (days : ℤ) (version time : ℕ) (db : Db)
      → P db
      → P (record db {
        balances = update_where (can_consume e l days version) (consumed days time) db.balances;
      })
  pub creates :
      (request : TimeOffRequest) (db : Db)
      → ltb_ℤ (pos 0) request.days ≡ true
      → P db
      → P (record db { requests = db.requests ++ request_row request ∷ [] })
  pub updates_requests :
      (p : RequestRow → Bool) (f : RequestRow → RequestRow) (db : Db)
      → ((r : RequestRow) → (f r).days ≡ r.days)
      → P db
      → P (record db { requests = update_where p f db.requests })
  -- the two updates of a reversal
  pub reverses :
      (id : String) (row : RequestRow) (time later : ℕ) (db : Db)
      → find (is_request id) db.requests ≡ some row
      → P db
      → P (record db {
        requests = update_where (is_request row.id) (request_reversed time) db.requests;
        balances =
            update_where
              (is_balance row.employee_id row.location_id)
              (refunded row.days later)
              db.balances;
      })
  pub adds_event :
      (r : SyncEventRow) (db : Db) → P db → P (record db { sync_events = db.sync_events ++ r ∷ [] })
  pub updates_events :
      (p : SyncEventRow → Bool) (f : SyncEventRow → SyncEventRow) (db : Db)
      → KeepsKey f
      → P db
      → P (record db { sync_events = update_where p f db.sync_events })

pub All-Carries :
    (Kind : String → Type 0)
    → ((id : String) → Kind id)
    → (rows : List SyncEventRow) → All (Carries Kind) rows
All-Carries Kind kind [] = tt
All-Carries Kind kind (r ∷ rows) = (λ id names. kind id, All-Carries Kind kind rows)

unfoldable pub plain : (P : Db → Type 0) → PlainWrites P → Writes P
plain P laws = record {
  Kind = λ id. Unit;
  kind_of_request = λ id row next db h found allowed. tt;
  kind_of_event = λ db h. All-Carries (λ id. Unit) (λ id. tt) db.sync_events;
  elsewhere = laws.elsewhere;
  upserts = laws.upserts;
  consumes = laws.consumes;
  creates = laws.creates;
  flags = λ p f db key status live h. laws.updates_requests p f db key.same_days h;
  grants = λ id f db kind key status h. laws.updates_requests (is_request id) f db key.same_days h;
  closes =
      λ id row f db found status key h. laws.updates_requests (is_request id) f db key.same_days h;
  reverses = λ id row time later db kind found h. laws.reverses id row time later db found h;
  adds_event = λ r db carries granted h. laws.adds_event r db h;
  updates_events = laws.updates_events;
}
