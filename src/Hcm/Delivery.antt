-- ===== src/Hcm/Delivery.antt =====
-- What one delivery of a realtime event does, and what a second delivery of it finds.
use timeoff_request.Base.{
  ◌≡◌, String, Option, none, some, Bool, true, false, ◌&&◌, ◌==◌, ◌++◌, [], ◌∷◌, arith, inl, inr,
  Option-cases, is_some, eq_refl,
}
use timeoff_request.Base.Int.{ℤ, pos, ◌+ℤ◌, leb_ℤ}
use timeoff_request.Base.Table.{find, find-append}
use timeoff_request.Json.{json_eqb_refl}
use timeoff_request.Domain.Errors.{ok, err, sqlite, check}
use timeoff_request.Store.Rows.{Db, Balance, inbound, inbound_key, SyncEventRow}
use timeoff_request.Store.World.{World}
use timeoff_request.Balances
use timeoff_request.Balances.{same_event, is_entry, inbound_row}
use timeoff_request.Balances.Rows.{ticked, clock, is_balance_self}
use timeoff_request.Balances.Delta.{
  row_of, SameButBalances, days_before, stored, upsert_absolute_lem, apply_delta_lem,
}
use timeoff_request.Hcm.Realtime.{
  UpdateType, absolute, delta, RealtimeBalanceEvent, event_payload, apply_update, is_invalid,
  apply_event, report_duplicate, process_balance_update,
}

-- the test that `INSERT OR IGNORE` makes
abbrev pub is_seen : RealtimeBalanceEvent → SyncEventRow → Bool
is_seen event =
    same_event (inbound_key event.external_event_id (event_payload event)) event.external_event_id
      (event_payload event) inbound

-- an event of that key is in the table
abbrev pub IsRecorded : RealtimeBalanceEvent → Db → Type 0
IsRecorded event db = is_some (find (is_seen event) db.sync_events) ≡ true

-- the days that an event asks for, given the balance
abbrev pub target : UpdateType → ℤ → Option Balance → ℤ
target absolute days found = days
target delta days found = days_before found +ℤ days

-- the update by the event's type
pub apply_update_lem :
    (type : UpdateType) (e l : String) (days : ℤ) (w : World)
    → let (r, w') = apply_update type e l days w in
      let sum = target type days (row_of e l w) in
      (leb_ℤ (pos 0) sum ≡ true
        → (b : Balance) × (r ≡ ok b) × (row_of e l w' ≡ some b) × (b.available_days ≡ sum))
      × (leb_ℤ (pos 0) sum ≡ false
          → (r ≡ err (sqlite check)) × (days_before (row_of e l w') ≡ days_before (row_of e l w)))
      × ((j k : String) → (e == j && l == k) ≡ false → row_of j k w' ≡ row_of j k w)
      × SameButBalances w w'
unfolding apply_update
apply_update_lem delta e l days w = apply_delta_lem e l days w
apply_update_lem absolute e l days w =
    let (r, rows, frame) = upsert_absolute_lem e l days w in
    (
      λ fits. (
        stored e l days w,
        ground (arith, r),
        ground (arith, rows e l, is_balance_self e l),
        ground arith,
      ),
      λ refused. (ground (arith, r), ground (arith, rows e l)),
      λ j k apart. ground (arith, rows j k),
      frame,
    )

-- the world in which the record of the event has been inserted
abbrev pub after_record : RealtimeBalanceEvent → World → World
after_record event w = record (ticked w) {
  db = record w.db {
    sync_events =
        w.db.sync_events
        ++ inbound_row event.external_event_id (event_payload event) (clock w) ∷ [];
  };
}

pub process_new :
    (event : RealtimeBalanceEvent) (w : World)
    → is_invalid event ≡ false
    → find (is_seen event) w.db.sync_events ≡ none
    → process_balance_update event w ≡ apply_event event (after_record event w)
unfolding process_balance_update Balances.record_inbound_sync_event
process_new event w valid new = ground arith

pub process_seen :
    (event : RealtimeBalanceEvent) (w : World)
    → is_invalid event ≡ false
    → IsRecorded event w.db
    → process_balance_update event w ≡ (
      ok (record { deduped = true; balance = row_of event.employee_id event.location_id w }),
      ticked w,
    )
unfolding process_balance_update Balances.record_inbound_sync_event report_duplicate Balances.get
process_seen event w valid seen = ground arith

after_record-IsRecorded :
    (event : RealtimeBalanceEvent) (w : World) → IsRecorded event (after_record event w).db
after_record-IsRecorded event w = ground (
  arith,
  find-append (is_seen event) w.db.sync_events
      (inbound_row event.external_event_id (event_payload event) (clock w)),
  eq_refl event.external_event_id,
  json_eqb_refl (event_payload event),
)

apply_event-sync_events :
    (event : RealtimeBalanceEvent) (w : World)
    → (apply_event event w).1.db.sync_events ≡ w.db.sync_events
unfolding apply_event Balances.insert_ledger_entry
apply_event-sync_events event w =
    let (_, _, _, frame) =
      apply_update_lem event.update_type event.employee_id event.location_id event.days w in
    ground (arith, frame)

pub process-IsRecorded :
    (event : RealtimeBalanceEvent) (w : World)
    → is_invalid event ≡ false
    → IsRecorded event (process_balance_update event w).1.db
process-IsRecorded event w valid = elim (Option-cases (find (is_seen event) w.db.sync_events)) [
  | inl new ↦ ground (
    arith,
    process_new event w,
    apply_event-sync_events event (after_record event w),
    after_record-IsRecorded event w,
  )
  | inr (r, old) ↦ ground (arith, process_seen event w)
]

-- Whatever a valid event did when it was delivered first, returned or threw: a second delivery
-- returns at once, marked as a duplicate with the balance that the key has, and moves nothing but
-- the clock.
pub redelivery_is_duplicate :
    (event : RealtimeBalanceEvent) (w : World)
    → is_invalid event ≡ false
    → let w' = (process_balance_update event w).1 in
      process_balance_update event w' ≡ (
        ok (record { deduped = true; balance = row_of event.employee_id event.location_id w' }),
        ticked w',
      )
redelivery_is_duplicate event w valid =
    process_seen event (process_balance_update event w).1 valid (process-IsRecorded event w valid)
