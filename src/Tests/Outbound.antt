-- ===== src/Tests/Outbound.antt =====
-- The outbound worker after an approval in the sample world.
use timeoff_request.Base.Sorting.{Sorted}
use timeoff_request.Base.{
  Bool, List, ◌&&◌, ◌++◌, length, ◌≡◌, ◌≤◌, refl, some, none, true, false, suc, ◌*◌, ◌^◌, min,
  arith,
}
use timeoff_request.Base.Int.{pos, ◌-ℤ◌}
use timeoff_request.Base.Table.{find, count_where}
use timeoff_request.Domain.Errors.{Error, ok, err, hcm, FailureKind}
use timeoff_request.Domain.Status.{reversed}
use timeoff_request.Store.Rows.{Balance, RequestRow, SyncEventRow, is_request, is_balance}
use timeoff_request.Store.World.{World, FailureMode}
use timeoff_request.Balances.{consumed}
use timeoff_request.Balances.Rows.{clock, ticked}
use timeoff_request.Requests.Repository.{is_due, list_due_outbound_sync_events}
use timeoff_request.Requests.Service.{approve, outbound_payload}
use timeoff_request.Requests.Approval.{IsFresh, time_after, approved_at, approve_lem}
use timeoff_request.Hcm.Client
use timeoff_request.Hcm.Due.{list_due_lem}
use timeoff_request.Hcm.Worker.{backoff_delay, parse_payload, process_event}
use timeoff_request.Hcm.Backoff.{backoff_bounds, parse_payload-outbound_payload}
use timeoff_request.Hcm.Attempt.{IsSynced, IsRetried, IsReversed, can_retry}
use timeoff_request.Hcm.Outcome.{answer, retry_time, retry_jitter, process_event_lem}
use timeoff_request.Hcm.Reversal.{
  event_of, payload_of, approved_row, approval-IsStored, refused_approval_restores_days,
}
use timeoff_request.Tests.Sample.{row, balance, world}

backoff_bounds_example :
    (backoff_delay 3 7 ≤ 30000)
    × (min (250 * 2 ^ 3) 30000 ≤ backoff_delay 3 7)
    × (backoff_delay 3 7 ≤ backoff_delay (suc 3) 7)
backoff_bounds_example = backoff_bounds 3 7

parse_payload-outbound_payload_example :
    parse_payload (outbound_payload row.request none)
    ≡ some (record { employee_id = "e1"; location_id = "l1"; days = pos 4; trace = none })
parse_payload-outbound_payload_example = parse_payload-outbound_payload row.request none

-- the HCM refuses every usage
abbrev refusing : World
refusing = record world { hcm = record world.hcm { failure_mode = FailureMode.functional } }

row-IsFresh : IsFresh row.request refusing
unfolding find
row-IsFresh = record { entry_is_new = refl; event_is_new = refl }

abbrev event : SyncEventRow
event = event_of "r1" row refusing

process_event_lem_example :
    let w = (approve "r1" refusing).1 in
    let payload = payload_of row refusing in
    let r' = approved_row row refusing in
    let b' = consumed row.days (clock refusing) balance in
    let (r, w') = process_event event w in
    (answer event payload w ≡ ok tt → (r ≡ ok 1) × IsSynced event "r1" r' b' w'.db)
    × ((e : Error)
        → answer event payload w ≡ err e
        → can_retry event "r1" r' b' e ≡ true
        → (r ≡ ok 0) × IsRetried event "r1" r' b' e (retry_time w) (retry_jitter w) w'.db)
    × ((e : Error)
        → answer event payload w ≡ err e
        → can_retry event "r1" r' b' e ≡ false
        → (r ≡ ok 0) × IsReversed event "r1" r' b' e w'.db)
unfolding find
process_event_lem_example =
    process_event_lem event "r1" (approved_row row refusing)
      (consumed row.days (clock refusing) balance) (payload_of row refusing)
      (approve "r1" refusing).1
      (parse_payload-outbound_payload (approved_at (time_after 1 refusing) row.request) none)
      (approval-IsStored "r1" row balance refusing refl refl refl (omega arith) row-IsFresh)

refused :
    answer event (payload_of row refusing) (approve "r1" refusing).1
    ≡ err (hcm FailureKind.functional)
unfolding Client.submit_approved_usage find ◌-ℤ◌
refused = rw (approve_lem "r1" row balance refusing refl refl refl refl row-IsFresh) refl

refused_approval_restores_days_example :
    let w' = (process_event event (approve "r1" refusing).1).1 in
    ((r : RequestRow) × (find (is_request "r1") w'.db.requests ≡ some r) × (r.status ≡ reversed))
    × ((c : Balance) × (find (is_balance "e1" "l1") w'.db.balances ≡ some c)
        × (c.available_days ≡ pos 10))
unfolding find
refused_approval_restores_days_example =
    refused_approval_restores_days "r1" row balance refusing (hcm FailureKind.functional) refl refl
      refl (omega arith) row-IsFresh refused refl

-- the approval's event is due
list_due_lem_example :
    let w = (approve "r1" refusing).1 in
    (taken : List SyncEventRow) × (left_out : List SyncEventRow) × (list_due_outbound_sync_events 1
        w
      ≡ (ok taken, ticked w))
    × (length taken ≡ min 1 (count_where (is_due (clock w)) w.db.sync_events))
    × Sorted (λ e. e.created_at) (taken ++ left_out)
    × ((p : SyncEventRow → Bool)
        → count_where p (taken ++ left_out)
          ≡ count_where (λ e. is_due (clock w) e && p e) w.db.sync_events)
list_due_lem_example = list_due_lem 1 (approve "r1" refusing).1
