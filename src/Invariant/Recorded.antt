-- ===== src/Invariant/Recorded.antt =====
-- A realtime event that was delivered stays recorded through every history of calls.
use timeoff_request.Base.{◌≡◌, refl, true, false, arith, List}
use timeoff_request.Base.Table.{find-append, find-update_where}
use timeoff_request.Domain.Errors.{ok}
use timeoff_request.Store.Rows.{SyncEventRow}
use timeoff_request.Store.World.{World}
use timeoff_request.Balances.Rows.{ticked}
use timeoff_request.Balances.Delta.{row_of}
use timeoff_request.Hcm.Realtime.{RealtimeBalanceEvent, is_invalid, process_balance_update}
use timeoff_request.Hcm.Delivery.{is_seen, IsRecorded, process_seen, process-IsRecorded}
use timeoff_request.Invariant.Writes.{PlainWrites, plain, KeepsKey}
use timeoff_request.Invariant.Calls.{serve-Keeps}
use timeoff_request.Api
use timeoff_request.Api.{Call}

same_seen :
    (event : RealtimeBalanceEvent) (f : SyncEventRow → SyncEventRow)
    → KeepsKey f
    → (r : SyncEventRow) → is_seen event (f r) ≡ is_seen event r
same_seen event f key r =
    rw (key.same_id r, key.same_external r, key.same_payload r, key.same_direction r) refl

IsRecorded-Writes : (event : RealtimeBalanceEvent) → PlainWrites (IsRecorded event)
IsRecorded-Writes event = record {
  elsewhere = λ db now b r s h. rw s h;
  upserts = λ e l days time db d h. h;
  consumes = λ e l days version time db h. h;
  creates = λ request db d h. h;
  updates_requests = λ p f db same h. h;
  reverses = λ id row time later db found h. h;
  adds_event = λ r db h. ground (arith, h, find-append (is_seen event) db.sync_events r);
  updates_events = λ p f db key h.
      ground
        (arith, h, find-update_where p (is_seen event) f db.sync_events (same_seen event f key));
}

-- Whatever a valid event did when it was delivered first, returned or threw, and whatever calls came
-- after it: when it is delivered again, the answer comes at once, marked as a duplicate, with the
-- balance that the key has by then, and nothing moves but the clock.
pub redelivery_after_calls :
    (event : RealtimeBalanceEvent) (calls : List Call) (w : World)
    → is_invalid event ≡ false
    → let w' = Api.serve calls (process_balance_update event w).1 in
      process_balance_update event w' ≡ (
        ok (record { deduped = true; balance = row_of event.employee_id event.location_id w' }),
        ticked w',
      )
redelivery_after_calls event calls w valid =
    process_seen event (Api.serve calls (process_balance_update event w).1) valid (
      serve-Keeps (IsRecorded event) (plain (IsRecorded event) (IsRecorded-Writes event)) calls
        (process_balance_update event w).1 (process-IsRecorded event w valid))
