-- ===== src/Hcm/Realtime.antt =====
-- src/modules/hcm-sync/services/realtime-sync.service.ts, the handler of
-- `POST /sync/hcm/realtime/balance-updates`. Its statements are not in a transaction.
use timeoff_request.Base.{String, Option, none, some, Bool, true, false, ◌||◌, ◌==◌, if◌then◌else◌}
use timeoff_request.Base.Int.{ℤ}
use timeoff_request.Json.{Json, num, str, obj, end, field}
use timeoff_request.Domain.Errors.{domain, invalid_dimensions}
use timeoff_request.Store.Rows.{Balance, LedgerEntryType, hcm_realtime_absolute, hcm_realtime_delta}
use timeoff_request.Store.World.{Action, pure, raise, now, random_uuid, ◌>>=◌, ◌>>◌}
use timeoff_request.Balances

pub data UpdateType : Type 0 where
  absolute delta : UpdateType

pub record RealtimeBalanceEvent : Type 0 where
  pub external_event_id : String
  pub employee_id : String
  pub location_id : String
  pub update_type : UpdateType
  pub days : ℤ

pub record RealtimeResult : Type 0 where
  pub deduped : Bool
  pub balance : Option Balance

abbrev pub type_name : UpdateType → String
type_name absolute = "ABSOLUTE"
type_name delta = "DELTA"

-- the object that `JSON.stringify(event)` prints
unfoldable pub event_payload : RealtimeBalanceEvent → Json
event_payload event = obj (
    field "externalEventId" (str event.external_event_id) (
      field "employeeId" (str event.employee_id) (
        field "locationId" (str event.location_id) (
          field "updateType" (str (type_name event.update_type))
            (field "days" (num event.days) end)))))

-- the two arms of the conditional on `updateType`
unfoldable pub apply_update : UpdateType → String → String → ℤ → Action Balance
apply_update absolute employee_id location_id days =
    Balances.upsert_absolute employee_id location_id days
apply_update delta employee_id location_id days = Balances.apply_delta employee_id location_id days

abbrev pub entry_type_of : UpdateType → LedgerEntryType
entry_type_of absolute = hcm_realtime_absolute
entry_type_of delta = hcm_realtime_delta

-- `!externalEventId || !employeeId || !locationId`
abbrev pub is_invalid : RealtimeBalanceEvent → Bool
is_invalid event =
    event.external_event_id == "" || event.employee_id == "" || event.location_id == ""

-- what follows the test for duplicates
unfoldable pub apply_event : RealtimeBalanceEvent → Action RealtimeResult
apply_event event = do
  balance ← apply_update event.update_type event.employee_id event.location_id event.days
  id ← random_uuid
  time ← now
  Balances.insert_ledger_entry (record {
    id = id;
    balance_key = Balances.balance_key event.employee_id event.location_id;
    entry_type = entry_type_of event.update_type;
    days = event.days;
    request_id = none;
    source = "HCM_REALTIME";
    created_at = time;
  })
  pure (record { deduped = false; balance = some balance })

unfoldable pub report_duplicate : RealtimeBalanceEvent → Action RealtimeResult
unfolding Balances.get
report_duplicate event = do
  balance ← Balances.get event.employee_id event.location_id
  pure (record { deduped = true; balance = balance })

unfoldable pub process_balance_update : RealtimeBalanceEvent → Action RealtimeResult
process_balance_update event = do
  if is_invalid event then raise (domain invalid_dimensions) else pure tt
  inserted ← Balances.record_inbound_sync_event event.external_event_id (event_payload event)
  if inserted then apply_event event else report_duplicate event
