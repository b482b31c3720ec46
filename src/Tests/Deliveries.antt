-- ===== src/Tests/Deliveries.antt =====
-- Deliveries of realtime events in the sample world.
use timeoff_request.Base.{ℕ, ◌≡◌, refl, String, some, true, false, ◌&&◌, ◌==◌, ◌++◌, [], ◌∷◌}
use timeoff_request.Base.Int.{negsuc, ◌+ℤ◌}
use timeoff_request.Base.Table.{find}
use timeoff_request.Domain.Errors.{ok, err, sqlite, check}
use timeoff_request.Store.Rows.{Balance}
use timeoff_request.Balances.Rows.{ticked}
use timeoff_request.Balances.Delta.{row_of, days_before}
use timeoff_request.Hcm.Realtime.{delta, RealtimeBalanceEvent, process_balance_update}
use timeoff_request.Hcm.Applying.{
  row_for, asked, entry_of, realtime_applies, refused_update_is_lost,
}
use timeoff_request.Tests.Sample.{world}

-- four days less
abbrev event : RealtimeBalanceEvent
event = record {
  external_event_id = "x1";
  employee_id = "e1";
  location_id = "l1";
  update_type = delta;
  days = negsuc 3;
}

-- twenty days less, where ten are left
abbrev too_much : RealtimeBalanceEvent
too_much = record event { days = negsuc 19 }

realtime_applies_example :
    let (r, w') = process_balance_update event world in
    ((b : Balance) × (r ≡ ok (record { deduped = false; balance = some b }))
      × (row_for event w' ≡ some b)
      × (b.available_days ≡ asked event world))
    × ((time : ℕ) × (w'.db.ledger ≡ [] ++ entry_of event "u" time ∷ []))
    × ((j k : String) → ("e1" == j && "l1" == k) ≡ false → row_of j k w' ≡ row_of j k world)
unfolding find ◌+ℤ◌
realtime_applies_example = realtime_applies event world refl refl refl refl

refused_update_is_lost_example :
    let (r, w') = process_balance_update too_much world in
    (r ≡ err (sqlite check))
    × (days_before (row_for too_much w') ≡ days_before (row_for too_much world))
    × (w'.db.ledger ≡ world.db.ledger)
    × (process_balance_update too_much w'
        ≡ (ok (record { deduped = true; balance = row_for too_much w' }), ticked w'))
unfolding find ◌+ℤ◌
refused_update_is_lost_example = refused_update_is_lost too_much world refl refl refl
