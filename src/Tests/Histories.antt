-- ===== src/Tests/Histories.antt =====
-- Histories of calls in the sample world.
use timeoff_request.Base.{◌≡◌, ◌≤◌, refl, true, some, none, [], ◌∷◌, List, arith}
use timeoff_request.Base.Int.{pos, negsuc}
use timeoff_request.Domain.Days.{finite}
use timeoff_request.Hcm.Realtime.{delta, RealtimeBalanceEvent, process_balance_update}
use timeoff_request.Api.{Call, serve}
use timeoff_request.Base.Table.{find}
use timeoff_request.Domain.Errors.{ok}
use timeoff_request.Store.Rows.{Balance, is_balance}
use timeoff_request.Balances.Rows.{ticked}
use timeoff_request.Balances.Delta.{row_of}
use timeoff_request.Invariant.Sound.{IsSound, serve-IsSound}
use timeoff_request.Invariant.Recorded.{redelivery_after_calls}
use timeoff_request.Invariant.Versions.{version_guards_days}
use timeoff_request.Tests.Sample.{world, balance}

abbrev event : RealtimeBalanceEvent
event = record {
  external_event_id = "x1";
  employee_id = "e1";
  location_id = "l1";
  update_type = delta;
  days = negsuc 6;
}

abbrev calls : List Call
calls =
    Call.approve "r1"
    ∷ Call.ingest_event event
    ∷ Call.process_outbound none
    ∷ Call.reconcile "e1" "l1"
    ∷ Call.ingest_batch_of (record {
      job_id = "j1";
      checksum = "c1";
      balances = record { employee_id = "e2"; location_id = "l1"; days = finite (pos 3) } ∷ [];
      chunk_size = none;
    })
    ∷ []

world-IsSound : IsSound world.db
world-IsSound = omega arith

serve-IsSound_example : IsSound (serve calls world).db
serve-IsSound_example = serve-IsSound calls world world-IsSound

redelivery_after_calls_example :
    let w' = serve calls (process_balance_update event world).1 in
    process_balance_update event w'
    ≡ (ok (record { deduped = true; balance = row_of "e1" "l1" w' }), ticked w')
redelivery_after_calls_example = redelivery_after_calls event calls world refl

version_guards_days_example :
    (c : Balance) × (find (is_balance "e1" "l1") (serve calls world).db.balances ≡ some c)
    × (3 ≤ c.version)
    × (c.version ≡ 3 → c.available_days ≡ pos 10)
unfolding find
version_guards_days_example = version_guards_days "e1" "l1" balance calls world refl
