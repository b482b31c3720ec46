-- ===== src/Invariant/Approval.antt =====
-- The ledger entry and the event of an approval follow the update of its status: they keep what
-- their statements keep.
use timeoff_request.Base.{
  ℕ, ◌≡◌, refl, String, Option, none, some, true, List, [], ◌∷◌, ◌++◌, arith, inl, inr, ◌⊎◌,
  Bool-cases, Option-cases, is_some,
}
use mathlib.Core.Path.{subst}
use timeoff_request.Base.Table.{find, find_holds, update_where}
use timeoff_request.Base.All.{All, All-find}
use timeoff_request.Store.Rows.{
  Db, Balance, BalanceLedgerEntry, TimeOffRequest, RequestRow, SyncEvent, is_request,
}
use timeoff_request.Domain.Status.{approved}
use timeoff_request.Store.World.{World, Trace}
use timeoff_request.Store.Keeps.{Keeps, keeps_rules}
use timeoff_request.Invariant.Writes.{Writes, is_granted, IsGranted}
use timeoff_request.Requests.Repository
use timeoff_request.Requests.Repository.{
  request_row, event_row, saved, request_synced, request_reversed, refunded, drifts, flagged,
}
use timeoff_request.Requests.Service
use timeoff_request.Balances.Rows.{ticked}
use timeoff_request.Balances
use timeoff_request.Balances.{same_event, or_else}

-- what the statements after the update of the status write
ledger-elsewhere :
    (entry : BalanceLedgerEntry) (w : World)
    → let d = (Balances.insert_ledger_entry entry w).1.db in
      (d.balances ≡ w.db.balances)
      × (d.requests ≡ w.db.requests)
      × (d.sync_events ≡ w.db.sync_events)
unfolding Balances.insert_ledger_entry
ledger-elsewhere entry w = (ground arith, ground arith, ground arith)

-- either nothing, or the event, whose request is then there
create_sync_event_writes :
    (event : SyncEvent) (id : String) (w : World)
    → let d = (Repository.create_sync_event event (some id) w).1.db in
      (d ≡ w.db)
      ⊎ ((time : ℕ) × (d
            ≡ record w.db { sync_events = w.db.sync_events ++ event_row event (some id) time ∷ [] })
          × (is_some (find (is_request id) w.db.requests) ≡ true))
unfolding Repository.create_sync_event
create_sync_event_writes event id w =
    let key =
      find (same_event event.id event.external_event_id event.payload_hash event.direction)
        w.db.sync_events in
    elim (Bool-cases (is_some key)) [
      | inl old ↦ inl (ground arith)
      | inr new ↦ elim (Bool-cases (is_some (find (is_request id) w.db.requests))) [
        | inl there ↦ inr (w.env.times w.env.time_reads, ground arith, there)
        | inr absent ↦ inl (ground arith)
      ]
    ]

same_name : (a b : String) → some a ≡ some b → a ≡ b
same_name a b h = cc

-- every row of this id has been approved
abbrev AllGranted : String → Db → Type 0
AllGranted id d = All (λ r. is_request id r ≡ true → is_granted r.status ≡ true) d.requests

module _ (P : Db → Type 0) (laws : Writes P) where
  -- between the update of the status and the event
  abbrev Tracked : String → Db → Type 0
  Tracked id d = P d × AllGranted id d

  insert_ledger_entry-Tracked :
      (id : String) (entry : BalanceLedgerEntry)
      → Keeps (Tracked id) (Balances.insert_ledger_entry entry)
  insert_ledger_entry-Tracked id entry = record {
    at = λ w h.
        let (b, r, s) = ledger-elsewhere entry w in
        (laws.elsewhere w.db (Balances.insert_ledger_entry entry w).1.db b r s h.0, rw r h.1);
  }

  granted_row :
      (id : String) (d : Db)
      → is_some (find (is_request id) d.requests) ≡ true
      → AllGranted id d
      → IsGranted id d
  granted_row id d there all = elim (Option-cases (find (is_request id) d.requests)) [
    | inl absent ↦ absurd (cc)
    | inr (row, found) ↦ record {
      row = row;
      found = found;
      holds =
          All-find (λ r. is_request id r ≡ true → is_granted r.status ≡ true) (is_request id)
            d.requests row found all (find_holds (is_request id) d.requests row found);
    }
  ]

  create_sync_event-Tracked :
      (event : SyncEvent) (id : String)
      → laws.Kind id
      → Keeps (Tracked id) (Repository.create_sync_event event (some id))
  create_sync_event-Tracked event id kind = record {
    at = λ w h. elim (create_sync_event_writes event id w) [
      | inl same ↦ rw same h
      | inr (time, change, there) ↦ rw change (
        laws.adds_event (event_row event (some id) time) w.db
            (λ j names. subst laws.Kind (same_name id j names) kind)
            (λ j names.
              subst (λ k. IsGranted k w.db) (same_name id j names) (granted_row id w.db there h.1))
            h.0,
        h.1,
      )
    ];
  }

  reservation-Tracked :
      (request : TimeOffRequest) (trace : Option Trace)
      → laws.Kind request.id
      → Keeps (Tracked request.id) (Service.record_reservation request trace)
  unfolding Service.record_reservation
  reservation-Tracked request trace kind =
      search (keeps_rules, insert_ledger_entry-Tracked, create_sync_event-Tracked) depth 10

  save-granted :
      (request : TimeOffRequest) (rows : List RequestRow)
      → is_granted request.status ≡ true
      → All
          (λ r. is_request request.id r ≡ true → is_granted r.status ≡ true)
          (update_where (is_request request.id) (saved request) rows)
  unfolding update_where
  save-granted request [] granted = tt
  save-granted request (r ∷ rows) granted = (λ own. ground arith, save-granted request rows granted)

  record_approval-Keeps :
      (request : TimeOffRequest) → laws.Kind request.id → Keeps P (Service.record_approval request)
  unfolding Service.record_approval Repository.save
  record_approval-Keeps request kind = record {
    at = λ w h.
        let updated = record request {
          status = approved;
          updated_at = w.env.times w.env.time_reads;
        } in
        ((reservation-Tracked updated w.trace kind).at
          (record (ticked w) {
            db = record w.db {
              requests = update_where (is_request request.id) (saved updated) w.db.requests;
            };
          })
          (
            laws.grants request.id (saved updated) w.db kind
                (record { same_key = λ r. refl; same_days = λ r. refl }) (λ r. refl) h,
            save-granted updated w.db.requests refl,
          )).0;
  }

  pub finish_approval-Keeps :
      (b : Option Balance) (request : TimeOffRequest)
      → laws.Kind request.id
      → Keeps P (Service.finish_approval b request)
  unfolding Service.finish_approval
  finish_approval-Keeps none request kind = search keeps_rules
  finish_approval-Keeps (some b) request kind = search (keeps_rules, record_approval-Keeps)
