-- ===== src/Requests/Service.antt =====
-- src/modules/timeoff-requests/timeoff-requests.service.ts.
use Prim.Native.String.{◌++◌ as concat}
use timeoff_request.Base.{
  ℕ, zero, suc, String, Option, none, some, Bool, ◌||◌, List, ◌==◌, if◌then◌else◌,
}
use timeoff_request.Base.Int.{pos}
use timeoff_request.Json.{Json, num, str, obj, Fields, end, field}
use timeoff_request.Domain.Errors.{domain, request_not_found, invalid_dimensions, conflict}
use timeoff_request.Domain.Status.{pending, approved, rejected, cancelled, assert_transition}
use timeoff_request.Domain.Days.{Number, days_of, assert_positive_days, assert_has_balance}
use timeoff_request.Store.Rows.{Balance, TimeOffRequest, reservation, uuid, outbound, queued}
use timeoff_request.Store.World.{
  Trace, Action, pure, raise, lift, gets, with_transaction, now, random_uuid, ◌>>=◌, ◌>>◌,
}
use timeoff_request.Balances
use timeoff_request.Balances.{or_else}
use timeoff_request.Requests.Repository

pub record CreateRequestInput : Type 0 where
  pub employee_id : String
  pub location_id : String
  pub days : Number
  pub reason : Option String

-- `!employeeId || !locationId`
abbrev pub missing : String → String → Bool
missing employee_id location_id = employee_id == "" || location_id == ""

unfoldable pub create : CreateRequestInput → Action TimeOffRequest
unfolding Repository.create
create input = do
  lift (assert_positive_days input.days)
  if missing input.employee_id input.location_id then raise (domain invalid_dimensions) else pure tt
  time ← now
  id ← random_uuid
  Repository.create (record {
    id = id;
    employee_id = input.employee_id;
    location_id = input.location_id;
    days = days_of input.days;
    reason = input.reason;
    status = pending;
    created_at = time;
    updated_at = time;
  })

abbrev pub or_not_found : Option TimeOffRequest → Action TimeOffRequest
or_not_found none = raise (domain request_not_found)
or_not_found (some request) = pure request

unfoldable pub find_by_id : String → Action TimeOffRequest
unfolding Repository.find_by_id
find_by_id id = do found ← Repository.find_by_id id; or_not_found found

unfoldable pub list_all : Action (List TimeOffRequest)
unfolding Repository.list_all
list_all = Repository.list_all

-- the object that `JSON.stringify` prints; an undefined `trace` is left out
abbrev trace_fields : Option Trace → Fields
trace_fields none = end
trace_fields (some t) =
    field "trace"
      (obj
        (field "correlationId" (str t.correlation_id) (field "requestId" (str t.request_id) end)))
      end

unfoldable pub outbound_payload : TimeOffRequest → Option Trace → Json
outbound_payload request trace = obj (
    field "employeeId" (str request.employee_id) (
      field "locationId" (str request.location_id)
        (field "days" (num request.days) (trace_fields trace))))

-- `approve:${id}`
unfoldable pub approval_event_id : String → String
approval_event_id id = concat "approve:" id

-- the ledger entry and the sync event of an approval
unfoldable pub record_reservation : TimeOffRequest → Option Trace → Action TimeOffRequest
record_reservation updated trace = do
  entry_id ← random_uuid
  entry_time ← now
  Balances.insert_ledger_entry (record {
    id = entry_id;
    balance_key = Balances.balance_key updated.employee_id updated.location_id;
    entry_type = reservation;
    days = updated.days;
    request_id = some updated.id;
    source = "LOCAL_APPROVAL";
    created_at = entry_time;
  })
  event_id ← random_uuid
  event_time ← now
  Repository.create_sync_event
      (record {
        id = uuid event_id;
        direction = outbound;
        external_event_id = approval_event_id updated.id;
        payload_hash = outbound_payload updated trace;
        status = queued;
        error = none;
        created_at = event_time;
      })
      (some updated.id)
  pure updated

-- the statements after `if (!consumed)`
unfoldable pub record_approval : TimeOffRequest → Action TimeOffRequest
unfolding Repository.save record_reservation
record_approval request = do
  time ← now
  let updated = record request { status = approved; updated_at = time }
  trace ← gets λ w. w.trace
  Repository.save updated
  record_reservation updated trace

-- `if (!consumed) return undefined`, and what follows
unfoldable pub finish_approval : Option Balance → TimeOffRequest → Action (Option TimeOffRequest)
finish_approval none request = pure none
finish_approval (some _) request = do updated ← record_approval request; pure (some updated)

-- `assertHasBalance` and the statements below it
unfoldable pub reserve : Balance → TimeOffRequest → Action (Option TimeOffRequest)
reserve current request = do
  lift (assert_has_balance current.available_days request.days)
  consumed ←
      Balances.consume_with_version request.employee_id request.location_id request.days
        current.version
  finish_approval consumed request

-- the body of the transaction; `none` is `return undefined`
unfoldable pub approve_once : String → Action (Option TimeOffRequest)
unfolding find_by_id reserve
approve_once id = do
  request ← find_by_id id
  lift (assert_transition request.status approved)
  found ← Balances.get request.employee_id request.location_id
  current ← or_else found (Balances.upsert_absolute request.employee_id request.location_id (pos 0))
  reserve current request

-- `for (attempt ...)`, with the attempts that are left
unfoldable pub approve_within : ℕ → String → Action TimeOffRequest
approve_within zero id = raise (domain conflict)
approve_within (suc attempts) id = do
  result ← with_transaction (approve_once id)
  elim result [ some request ↦ pure request | none ↦ approve_within attempts id ]

unfoldable pub approve : String → Action TimeOffRequest
unfolding approve_within
approve id = approve_within 3 id

unfoldable pub reject : String → Action TimeOffRequest
unfolding find_by_id Repository.save
reject id = do
  request ← find_by_id id
  lift (assert_transition request.status rejected)
  time ← now
  Repository.save (record request { status = rejected; updated_at = time })

unfoldable pub cancel : String → Action TimeOffRequest
unfolding find_by_id Repository.save
cancel id = do
  request ← find_by_id id
  lift (assert_transition request.status cancelled)
  time ← now
  Repository.save (record request { status = cancelled; updated_at = time })
