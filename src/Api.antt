-- ===== src/Api.antt =====
-- The controllers of src/modules and the error filter of src/filters/domain-error.filter.ts: one
-- call for each route, and the service method that the route runs.
use timeoff_request.Base.{ℕ, String, Option, none, some, List, [], ◌∷◌}
use timeoff_request.Json.{str, Fields, end, field}
use timeoff_request.Domain.Errors.{DomainErrorCode, Error, Result, ok, err, domain, http_status}
use timeoff_request.Store.Rows.{Balance, TimeOffRequest, DriftEvent, error}
use timeoff_request.Store.World.{World, Action, pure, ◌>>=◌, ◌>>◌}
use timeoff_request.Observability
use timeoff_request.Balances
use timeoff_request.Requests.Service
use timeoff_request.Hcm.Realtime.{RealtimeBalanceEvent, RealtimeResult, process_balance_update}
use timeoff_request.Hcm.Batch.{BatchPayload, BatchReport, ingest_batch}
use timeoff_request.Hcm.Reconcile.{Reconciliation, reconcile_one, drift_report}
use timeoff_request.Hcm.Worker.{process_due_events}

pub data Call : Type 0 where
  create : Service.CreateRequestInput → Call
  list_all : Call
  get_by_id approve reject cancel : String → Call
  get_balance reconcile : String → String → Call
  ingest_event : RealtimeBalanceEvent → Call
  ingest_batch_of : BatchPayload → Call
  drift : Call
  -- `Number.isFinite(Number(limit))` has failed, or no limit is given: `none`
  process_outbound : Option ℕ → Call

pub data Reply : Type 0 where
  request : TimeOffRequest → Reply
  requests : List TimeOffRequest → Reply
  balance : Balance → Reply
  update : RealtimeResult → Reply
  report : BatchReport → Reply
  reconciliation : Reconciliation → Reply
  drift_events : List DriftEvent → Reply
  processed : ℕ → Reply

abbrev pub limit_or_default : Option ℕ → ℕ
limit_or_default none = 10
limit_or_default (some n) = n

-- `BalancesController.getBalance`
abbrev pub reply_balance : String → String → Action Reply
reply_balance e l = do b ← Balances.get_balance e l; pure (balance b)

-- `WebhookController.ingest`
abbrev pub reply_update : RealtimeBalanceEvent → Action Reply
reply_update event = do r ← process_balance_update event; pure (update r)

-- `SyncController.ingestBatch`, `reconcile` and `driftReport`
abbrev pub reply_report : BatchPayload → Action Reply
reply_report payload = do r ← ingest_batch payload; pure (report r)

abbrev pub reply_reconciliation : String → String → Action Reply
reply_reconciliation e l = do r ← reconcile_one e l; pure (reconciliation r)

abbrev pub reply_drift : Action Reply
reply_drift = do rows ← drift_report; pure (drift_events rows)

-- `SyncAdminController.process`
abbrev pub reply_processed : Option ℕ → Action Reply
reply_processed limit = do n ← process_due_events (limit_or_default limit); pure (processed n)

unfoldable pub handle : Call → Action Reply
handle (create input) = do r ← Service.create input; pure (request r)
handle list_all = do rs ← Service.list_all; pure (requests rs)
handle (get_by_id id) = do r ← Service.find_by_id id; pure (request r)
handle (approve id) = do r ← Service.approve id; pure (request r)
handle (reject id) = do r ← Service.reject id; pure (request r)
handle (cancel id) = do r ← Service.cancel id; pure (request r)
handle (get_balance e l) = reply_balance e l
handle (reconcile e l) = reply_reconciliation e l
handle (ingest_event event) = reply_update event
handle (ingest_batch_of payload) = reply_report payload
handle drift = reply_drift
handle (process_outbound limit) = reply_processed limit

-- the texts of `enum DomainErrorCode`
unfoldable pub code_text : DomainErrorCode → String
code_text DomainErrorCode.request_not_found = "REQUEST_NOT_FOUND"
code_text DomainErrorCode.illegal_status_transition = "ILLEGAL_STATUS_TRANSITION"
code_text DomainErrorCode.invalid_days = "INVALID_DAYS"
code_text DomainErrorCode.invalid_dimensions = "INVALID_DIMENSIONS"
code_text DomainErrorCode.idempotency_key_conflict = "IDEMPOTENCY_KEY_CONFLICT"
code_text DomainErrorCode.insufficient_balance = "INSUFFICIENT_BALANCE"
code_text DomainErrorCode.conflict = "CONFLICT"
code_text DomainErrorCode.hcm_unavailable = "HCM_UNAVAILABLE"

pub data HttpReply : Type 0 where
  success : Reply → HttpReply
  -- the status and the `code` of the body
  failure : ℕ → String → HttpReply
  -- an exception that the filter does not catch
  server_error : HttpReply

-- of the record that the filter logs, the members that the error decides
abbrev error_fields : DomainErrorCode → Fields
error_fields code = field "msg" (str "domain_error") (field "code" (str (code_text code)) end)

-- `DomainErrorFilter.catch`, which catches domain errors only
unfoldable pub filter_error : Error → Action HttpReply
unfolding code_text Observability.log_at http_status
filter_error (domain code) = do
  Observability.log_at error "DomainErrorFilter" (error_fields code)
  pure (failure (http_status code) (code_text code))
filter_error e = pure server_error

abbrev pub reply_of : Result Reply → Action HttpReply
reply_of (ok r) = pure (success r)
reply_of (err e) = filter_error e

-- what the client receives: an exception of the service goes through the filter
unfoldable pub respond : Call → World → Result HttpReply × World
respond call w = let (r, w') = handle call w in reply_of r w'

-- a history of calls, one after another
unfoldable pub serve : List Call → World → World
serve [] w = w
serve (c ∷ calls) w = serve calls (respond c w).1
