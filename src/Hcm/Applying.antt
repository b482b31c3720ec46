-- ===== src/Hcm/Applying.antt =====
-- What a new realtime event changes, and what becomes of one that the CHECK on the balance refuses
-- (services/realtime-sync.service.ts).
use timeoff_request.Base.{
  ◌≡◌, String, Option, none, some, true, false, ◌&&◌, ◌==◌, ◌++◌, [], ◌∷◌, arith, ℕ,
}
use timeoff_request.Base.Int.{ℤ, pos, leb_ℤ}
use timeoff_request.Base.Table.{find}
use timeoff_request.Domain.Errors.{ok, err, sqlite, check}
use timeoff_request.Store.Rows.{Balance, BalanceLedgerEntry}
use timeoff_request.Store.World.{World}
use timeoff_request.Balances
use timeoff_request.Balances.{same_event, is_entry, inbound_row}
use timeoff_request.Balances.Rows.{ticked, clock}
use timeoff_request.Balances.Delta.{row_of, days_before}
use timeoff_request.Hcm.Realtime.{
  RealtimeBalanceEvent, apply_update, entry_type_of, is_invalid, apply_event,
  process_balance_update,
}
use timeoff_request.Hcm.Delivery.{
  is_seen, target, apply_update_lem, after_record, process_new, redelivery_is_duplicate,
}

-- the ledger entry of an event
abbrev pub entry_of : RealtimeBalanceEvent → String → ℕ → BalanceLedgerEntry
entry_of event id time = record {
  id = id;
  balance_key = Balances.balance_key event.employee_id event.location_id;
  entry_type = entry_type_of event.update_type;
  days = event.days;
  request_id = none;
  source = "HCM_REALTIME";
  created_at = time;
}

abbrev pub row_for : RealtimeBalanceEvent → World → Option Balance
row_for event w = row_of event.employee_id event.location_id w

abbrev pub asked : RealtimeBalanceEvent → World → ℤ
asked event w = target event.update_type event.days (row_for event w)

apply_event_accepts :
    (event : RealtimeBalanceEvent) (w : World)
    → leb_ℤ (pos 0) (asked event w) ≡ true
    → find (is_entry (w.env.uuids w.env.uuid_reads)) w.db.ledger ≡ none
    → let (r, w') = apply_event event w in
      ((b : Balance) × (r ≡ ok (record { deduped = false; balance = some b }))
        × (row_for event w' ≡ some b)
        × (b.available_days ≡ asked event w))
      × ((time : ℕ) × (w'.db.ledger
            ≡ w.db.ledger ++ entry_of event (w.env.uuids w.env.uuid_reads) time ∷ []))
      × ((j k : String)
          → (event.employee_id == j && event.location_id == k) ≡ false
          → row_of j k w' ≡ row_of j k w)
unfolding apply_event Balances.insert_ledger_entry
apply_event_accepts event w fits new =
    let (accepts, _, others, frame) =
      apply_update_lem event.update_type event.employee_id event.location_id event.days w in
    let (b, r, row, days) = accepts fits in
    let w₁ = (apply_update event.update_type event.employee_id event.location_id event.days w).1 in
    (
      (b, ground (arith, r, frame), ground (arith, r, frame, row), days),
      (clock w₁, ground (arith, r, frame)),
      λ j k apart. ground (arith, r, frame, others j k),
    )

apply_event_refuses :
    (event : RealtimeBalanceEvent) (w : World)
    → leb_ℤ (pos 0) (asked event w) ≡ false
    → let (r, w') = apply_event event w in
      (r ≡ err (sqlite check))
      × (days_before (row_for event w') ≡ days_before (row_for event w))
      × (w'.db.ledger ≡ w.db.ledger)
unfolding apply_event
apply_event_refuses event w refused =
    let (_, refuses, others, frame) =
      apply_update_lem event.update_type event.employee_id event.location_id event.days w in
    let (r, days) = refuses refused in
    (ground (arith, r), ground (arith, r, days), ground (arith, r, frame))

-- A valid event that is new, with the days that it asks for (`target`) at zero or more and a random
-- key new to the ledger: the returned balance is the key's from then on and has those days, the
-- ledger has one more row, for this event, and no other key's row changes.
pub realtime_applies :
    (event : RealtimeBalanceEvent) (w : World)
    → is_invalid event ≡ false
    → find (is_seen event) w.db.sync_events ≡ none
    → leb_ℤ (pos 0) (asked event w) ≡ true
    → find (is_entry (w.env.uuids w.env.uuid_reads)) w.db.ledger ≡ none
    → let (r, w') = process_balance_update event w in
      ((b : Balance) × (r ≡ ok (record { deduped = false; balance = some b }))
        × (row_for event w' ≡ some b)
        × (b.available_days ≡ asked event w))
      × ((time : ℕ) × (w'.db.ledger
            ≡ w.db.ledger ++ entry_of event (w.env.uuids w.env.uuid_reads) time ∷ []))
      × ((j k : String)
          → (event.employee_id == j && event.location_id == k) ≡ false
          → row_of j k w' ≡ row_of j k w)
realtime_applies event w valid new fits fresh =
    rw (process_new event w valid new) (apply_event_accepts event (after_record event w) fits fresh)

-- A valid event that is new and asks for less than zero days: the violation of the CHECK is thrown,
-- and the key has as many days as before; but the event stays recorded as processed, so that every
-- retry is answered as a duplicate and never applied.
pub refused_update_is_lost :
    (event : RealtimeBalanceEvent) (w : World)
    → is_invalid event ≡ false
    → find (is_seen event) w.db.sync_events ≡ none
    → leb_ℤ (pos 0) (asked event w) ≡ false
    → let (r, w') = process_balance_update event w in
      (r ≡ err (sqlite check))
      × (days_before (row_for event w') ≡ days_before (row_for event w))
      × (w'.db.ledger ≡ w.db.ledger)
      × (process_balance_update event w'
          ≡ (ok (record { deduped = true; balance = row_for event w' }), ticked w'))
refused_update_is_lost event w valid new refused =
    let again = redelivery_is_duplicate event w valid in
    let (r, days, ledger) = apply_event_refuses event (after_record event w) refused in
    let run = process_new event w valid new in
    (ground (arith, run, r), ground (arith, run, days), ground (arith, run, ledger), again)
