-- ===== src/Store/Rows.antt =====
-- The tables of src/db/migrations/001_init.sql and 002_log_table.sql, with the row types of
-- src/shared/types. Times are milliseconds: ISO texts compare as the instants that they name.
use timeoff_request.Base.{ℕ, String, Option, Bool, List, ◌==◌, ◌&&◌}
use timeoff_request.Base.Int.{ℤ}
use timeoff_request.Json.{Json}
use timeoff_request.Domain.Errors.{Error}
use timeoff_request.Domain.Status.{RequestStatus}
use timeoff_request.Domain.Days.{Number}

-- a row of `balances`, and `interface Balance`
pub record Balance : Type 0 where
  pub employee_id : String
  pub location_id : String
  pub available_days : ℤ
  pub version : ℕ
  pub updated_at : ℕ
  pub last_synced_at : Option ℕ

pub record TimeOffRequest : Type 0 where
  pub id : String
  pub employee_id : String
  pub location_id : String
  pub days : ℤ
  pub reason : Option String
  pub status : RequestStatus
  pub created_at : ℕ
  pub updated_at : ℕ

-- the texts that `sync_state` takes
pub data SyncState : Type 0 where
  pending_sync done failed : SyncState

-- a row of `time_off_requests`
pub record RequestRow : Type 0 where
  pub request : TimeOffRequest
  pub open request use *
  pub sync_state : Option SyncState
  pub drift_flag : Bool

pub data LedgerEntryType : Type 0 where
  reservation reversal hcm_realtime_absolute hcm_realtime_delta : LedgerEntryType

-- a row of `balance_ledger`
pub record BalanceLedgerEntry : Type 0 where
  pub id : String
  pub balance_key : String
  pub entry_type : LedgerEntryType
  pub days : ℤ
  pub request_id : Option String
  pub source : String
  pub created_at : ℕ

pub data SyncDirection : Type 0 where
  inbound outbound : SyncDirection

pub data SyncStatus : Type 0 where
  processed failed queued retry_pending : SyncStatus

-- The key of a sync event: a random UUID, or the text `${externalEventId}:${payloadHash}` of an
-- inbound event, kept as its two parts.
pub data SyncEventId : Type 0 where
  uuid : String → SyncEventId
  inbound_key : String → Json → SyncEventId

-- `error` is the message of an exception, for which the exception itself stands
pub record SyncEvent : Type 0 where
  pub id : SyncEventId
  pub direction : SyncDirection
  pub external_event_id : String
  pub payload_hash : Json
  pub status : SyncStatus
  pub error : Option Error
  pub created_at : ℕ

-- a row of `sync_events`
pub record SyncEventRow : Type 0 where
  pub event : SyncEvent
  pub open event use *
  pub request_id : Option String
  pub attempt_count : ℕ
  pub next_attempt_at : Option ℕ
  pub processed_at : Option ℕ

-- a row of `idempotency_records`
pub record IdempotencyRow : Type 0 where
  pub key : String
  pub fingerprint : Json
  pub response_body : Json
  pub status_code : ℕ
  pub created_at : ℕ
  pub expires_at : ℕ

pub data JobStatus : Type 0 where
  running completed : JobStatus

pub record BatchJob : Type 0 where
  pub job_id : String
  pub checksum : String
  pub status : JobStatus
  pub total_rows : ℕ
  pub processed_rows : ℕ
  pub chunk_size : ℕ
  pub created_at : ℕ
  pub updated_at : ℕ

-- `checkpoint_index` is the quotient `i / chunkSize`, kept as its two numbers
pub record BatchCheckpoint : Type 0 where
  pub job_id : String
  pub checkpoint_index : ℕ × ℕ
  pub processed_rows : ℕ
  pub created_at : ℕ

-- `BatchRow` of batch-sync.service.ts, whose JSON text a dead letter holds
pub record BatchRow : Type 0 where
  pub employee_id : String
  pub location_id : String
  pub days : Number

pub record DeadLetter : Type 0 where
  pub job_id : String
  pub row_payload : BatchRow
  pub reason : String
  pub created_at : ℕ

pub record DriftEvent : Type 0 where
  pub employee_id : String
  pub location_id : String
  pub local_days : Option ℤ
  pub hcm_days : ℤ
  pub delta : ℤ
  pub created_at : ℕ

pub data LogLevel : Type 0 where
  info error : LogLevel

pub record LogRow : Type 0 where
  pub level : LogLevel
  pub module_name : String
  pub payload : Json
  pub correlation_id : Option String
  pub request_id : Option String
  pub external_event_id : Option String
  pub created_at : ℕ

-- the database: one list of rows, in the order of insertion, for each table
pub record Db : Type 0 where
  pub balances : List Balance
  pub requests : List RequestRow
  pub ledger : List BalanceLedgerEntry
  pub sync_events : List SyncEventRow
  pub idempotency : List IdempotencyRow
  pub batch_jobs : List BatchJob
  pub batch_checkpoints : List BatchCheckpoint
  pub dead_letters : List DeadLetter
  pub drift_events : List DriftEvent
  pub log : List LogRow

abbrev pub is_request : String → RequestRow → Bool
is_request id r = r.id == id

abbrev pub is_balance : String → String → Balance → Bool
is_balance e l b = b.employee_id == e && b.location_id == l
