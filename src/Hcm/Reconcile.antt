-- ===== src/Hcm/Reconcile.antt =====
-- `reconcileOne` of src/modules/hcm-sync/services/batch-sync.service.ts, and the drift report of
-- sync.controller.ts.
use timeoff_request.Base.{
  ℕ, String, Option, none, some, Bool, true, not, ◌||◌, List, [], ◌∷◌, ◌++◌, ◌==◌, if◌then◌else◌,
  take,
}
use mathlib.Core.List.{reverse}
use timeoff_request.Base.Int.{ℤ, pos, ◌-ℤ◌, int_eqb}
use timeoff_request.Base.Table.{get_or}
use timeoff_request.Json.{Json, null, num, str, Fields, end, field}
use timeoff_request.Domain.Errors.{domain, invalid_dimensions, hcm_unavailable}
use timeoff_request.Store.Rows.{Balance, DriftEvent, info}
use timeoff_request.Store.World.{Action, pure, raise, gets, now, write, ◌>>=◌, ◌>>◌}
use timeoff_request.Balances
use timeoff_request.Requests.Repository.{flag_requests_for_drift}
use timeoff_request.Observability
use timeoff_request.Hcm.Client
use timeoff_request.Hcm.Client.{HcmBalance, known, undefined, unavailable}

pub record Reconciliation : Type 0 where
  pub employee_id : String
  pub location_id : String
  pub local_days : Option ℤ
  pub hcm_days : ℤ
  pub updated : Bool
  pub flagged_requests : ℕ

-- `local?.availableDays ?? null`
abbrev pub days_at : Option Balance → Option ℤ
days_at none = none
days_at (some b) = some b.available_days

-- `!local || local.availableDays !== hcmDays`
abbrev pub differs : Option Balance → ℤ → Bool
differs none days = true
differs (some b) days = not (int_eqb b.available_days days)

abbrev days_or_null : Option ℤ → Json
days_or_null none = null
days_or_null (some days) = num days

abbrev drift_fields : String → String → Option ℤ → ℤ → Fields
drift_fields e l local_days hcm_days = field "msg" (str "reconciliation_drift_detected") (
    field "employeeId" (str e) (
      field "locationId" (str l) (
        field "localDays" (days_or_null local_days)
          (field "hcmDays" (num hcm_days) (field "reconciliationDriftTotal" (num (pos 1)) end)))))

abbrev pub drift_event : String → String → Option ℤ → ℤ → ℕ → DriftEvent
drift_event e l local_days hcm_days time = record {
  employee_id = e;
  location_id = l;
  local_days = local_days;
  hcm_days = hcm_days;
  delta = hcm_days -ℤ get_or local_days (pos 0);
  created_at = time;
}

-- the body of `if (updated)`; the result is the number of requests that it flags
unfoldable pub repair : String → String → Option ℤ → ℤ → Action ℕ
unfolding Observability.inc Observability.log_at
repair e l local_days hcm_days = do
  Balances.upsert_absolute e l hcm_days
  flagged ← flag_requests_for_drift e l
  time ← now
  write λ db. record db {
    drift_events = db.drift_events ++ drift_event e l local_days hcm_days time ∷ [];
  }
  Observability.inc "reconciliation_drift_total"
  Observability.log_at info "BatchSyncService" (drift_fields e l local_days hcm_days)
  pure flagged

-- what follows the call of the HCM, by its answer
unfoldable pub compare_with : String → String → Option Balance → HcmBalance → Action Reconciliation
compare_with e l local_row unavailable = raise (domain hcm_unavailable)
compare_with e l local_row undefined = raise (domain invalid_dimensions)
compare_with e l local_row (known hcm_days) = do
  flagged ← if differs local_row hcm_days then repair e l (days_at local_row) hcm_days else pure 0
  pure (record {
    employee_id = e;
    location_id = l;
    local_days = days_at local_row;
    hcm_days = hcm_days;
    updated = differs local_row hcm_days;
    flagged_requests = flagged;
  })

unfoldable pub reconcile_one : String → String → Action Reconciliation
unfolding Balances.get
reconcile_one employee_id location_id = do
  if employee_id == "" || location_id == "" then raise (domain invalid_dimensions) else pure tt
  local_row ← Balances.get employee_id location_id
  hcm_days ← Client.get_balance employee_id location_id
  compare_with employee_id location_id local_row hcm_days

-- `driftReport`: the ids grow with the insertions, so the newest rows are the last ones
unfoldable pub drift_report : Action (List DriftEvent)
drift_report = gets λ w. take 100 (reverse w.db.drift_events)
