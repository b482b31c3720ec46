-- ===== src/Accounts/Approvals.antt =====
-- `approve` moves the days of a request from its balance to what granted requests hold.
use timeoff_request.Base.{
  ◌+◌, ◌≡◌, ◌∙◌, refl, ap, String, Option, none, some, true, ◌==◌, eq_iff, eq_refl, ◌&&◌, arith,
  inl, inr, ◌⊎◌, Bool-cases, Option-cases,
}
use timeoff_request.Base.Int.{ℤ, pos, ◌+ℤ◌, ◌-ℤ◌, ◌≤ℤ◌, leb_ℤ, int_laws}
use timeoff_request.Base.All.{All-find}
use timeoff_request.Base.Table.{find, find-update_where, find_holds}
use timeoff_request.Domain.Errors.{Error, err, domain, sqlite, unique_key}
use timeoff_request.Domain.Status.{pending}
use timeoff_request.Store.Rows.{
  Balance, TimeOffRequest, RequestRow, BalanceLedgerEntry, SyncEventRow, is_request, is_balance,
  uuid, outbound,
}
use timeoff_request.Store.World.{World}
use timeoff_request.Balances
use timeoff_request.Balances.{is_entry, same_event, consumed}
use timeoff_request.Balances.Rows.{clock}
use timeoff_request.Balances.Consume.{after_consume, find-after_consume, find-after_consume_other}
use timeoff_request.Requests.Repository.{saved, create_sync_event}
use timeoff_request.Requests.Service.{
  approve, finish_approval, record_approval, record_reservation, outbound_payload,
  approval_event_id,
}
use timeoff_request.Requests.Approval.{
  IsFresh, approved_at, after_approval, approve_lem, time_after, covers, once_lem,
}
use timeoff_request.Requests.Refusals.{available, refusal, refusal_of, approve_refuses}
use timeoff_request.Requests.Atomic.{approve_atomic}
use timeoff_request.Invariant.Sound.{IsSound}
use timeoff_request.Accounts.Held.{weight, HasUniqueIds, days_or_zero}
use timeoff_request.Accounts.Effects.{Conserves, same-Conserves, no_weight}
use timeoff_request.Accounts.Grants.{rewrite-Conserves}

-- what a request that is not refused has
cleared :
    (row : RequestRow) (balance : Option Balance)
    → refusal_of row balance ≡ none
    → (row.status ≡ pending) × (row.days ≤ℤ available balance)
cleared row balance h = (ground (arith, h), ground (arith, h))

exceeds : (a : ℤ) → pos 1 ≤ℤ a → a ≤ℤ pos 0 → ⊥
exceeds a p q = grind (int_laws)

transfer : (a d : ℤ) → (a -ℤ d) +ℤ d ≡ a +ℤ pos 0
transfer a d = grind (int_laws)

-- the INSERTs of an approval with a key that is taken
taken_entry :
    (request : TimeOffRequest) (entry : BalanceLedgerEntry) (w : World)
    → find (is_entry (w.env.uuids w.env.uuid_reads)) w.db.ledger ≡ some entry
    → (record_approval request w).0 ≡ err (sqlite unique_key)
unfolding record_approval record_reservation Balances.insert_ledger_entry
taken_entry request entry w taken = ground (arith, taken)

taken_event :
    (request : TimeOffRequest) (row : RequestRow) (event : SyncEventRow) (w : World)
    → find (is_request request.id) w.db.requests ≡ some row
    → find (is_entry (w.env.uuids w.env.uuid_reads)) w.db.ledger ≡ none
    → find
        (same_event
          (uuid (w.env.uuids (w.env.uuid_reads + 1)))
          (approval_event_id request.id)
          (outbound_payload request w.trace)
          outbound)
        w.db.sync_events
      ≡ some event
    → (record_approval request w).0 ≡ err (sqlite unique_key)
unfolding record_approval record_reservation Balances.insert_ledger_entry create_sync_event
    outbound_payload
taken_event request row event w found free known = ground (
  arith,
  find-update_where (is_request request.id) (is_request request.id)
      (saved (approved_at (clock w) request)) w.db.requests (λ r. refl),
)

failed-Conserves :
    (id : String) (w : World) (e : Error)
    → HasUniqueIds w.db
    → (approve id w).0 ≡ err e
    → Conserves w.db (approve id w).1.db
failed-Conserves id w e unique h =
    let same = (approve_atomic id w e h).1 in
    same-Conserves w.db (approve id w).1.db unique (ap (λ d. d.balances) same)
      (ap (λ d. d.requests) same)

module _ (id : String) (row : RequestRow) (b : Balance) (w : World)
    (found : find (is_request id) w.db.requests ≡ some row)
    (balance : find (is_balance row.employee_id row.location_id) w.db.balances ≡ some b)
    (is_pending : row.status ≡ pending)
    (enough : leb_ℤ (pos 0) (b.available_days -ℤ row.days) ≡ true) where
  moved_own :
      days_or_zero (
          find
            (is_balance row.employee_id row.location_id)
            (after_approval row.request b w).db.balances)
        +ℤ weight row.employee_id row.location_id
            (saved (approved_at (time_after 1 w) row.request) row)
      ≡ days_or_zero (find (is_balance row.employee_id row.location_id) w.db.balances)
        +ℤ weight row.employee_id row.location_id row
  moved_own =
      rw
        (
          find-after_consume row.employee_id row.location_id row.days w b balance enough,
          balance,
          no_weight row.employee_id row.location_id row (rw is_pending refl),
        )
        (rw (eq_refl row.employee_id, eq_refl row.location_id) (transfer b.available_days row.days))

  -- the days that the balance loses are those that the request gains
  moved :
      (e l : String)
      → days_or_zero (find (is_balance e l) (after_approval row.request b w).db.balances)
          +ℤ weight e l (saved (approved_at (time_after 1 w) row.request) row)
        ≡ days_or_zero (find (is_balance e l) w.db.balances) +ℤ weight e l row
  moved e l = elim (Bool-cases (row.employee_id == e && row.location_id == l)) [
    | inr apart ↦
        rw
          (find-after_consume_other row.employee_id row.location_id row.days w b balance enough e l
            apart)
          (ground (arith, apart))
    | inl same ↦
        let own_e : row.employee_id ≡ e = (eq_iff row.employee_id e).0 (ground (arith, same)) in
        let own_l : row.location_id ≡ l = (eq_iff row.location_id l).0 (ground (arith, same)) in
        rw (← own_e, ← own_l) moved_own
  ]

  granted-Conserves : HasUniqueIds w.db → IsFresh row.request w → Conserves w.db (approve id w).1.db
  granted-Conserves unique fresh =
      let own : row.id ≡ id =
        (eq_iff row.id id).0 (find_holds (is_request id) w.db.requests row found) in
      rw (approve_lem id row b w found balance is_pending enough fresh) (
        rewrite-Conserves id (saved (approved_at (time_after 1 w) row.request)) row w.db _ unique
          found (λ r. refl) (rw own refl) moved)

  once_throws :
      (e : Error)
      → (record_approval row.request
          (after_consume row.employee_id row.location_id row.days b.version w)).0
        ≡ err e
      → (approve id w).0 ≡ err e
  unfolding approve finish_approval
  once_throws e h = ground (arith, h, once_lem id row b w found balance is_pending enough)

  found_by_own : find (is_request row.id) w.db.requests ≡ some row
  found_by_own =
      ap (λ j. find (is_request j) w.db.requests)
        ((eq_iff row.id id).0 (find_holds (is_request id) w.db.requests row found))
      ∙ found

  -- a key that is taken makes the approval throw
  stale : IsFresh row.request w ⊎ ((e : Error) × ((approve id w).0 ≡ err e))
  stale = elim (Option-cases (find (is_entry (w.env.uuids w.env.uuid_reads)) w.db.ledger)) [
    | inr (entry, taken) ↦
        inr (
          sqlite unique_key,
          once_throws (sqlite unique_key) (taken_entry row.request entry _ taken),
        )
    | inl free ↦
        elim (Option-cases (
          find
            (same_event (uuid (w.env.uuids (w.env.uuid_reads + 1))) (approval_event_id row.id)
              (outbound_payload row.request w.trace) outbound)
            w.db.sync_events)) [
              | inr (event, known) ↦ inr (
                sqlite unique_key,
                once_throws (sqlite unique_key)
                    (taken_event row.request row event _ found_by_own free known),
              )
              | inl unseen ↦ inl (record { entry_is_new = free; event_is_new = unseen })
            ]
  ]

-- what an approval that succeeds has found
pub record IsGrantable (id : String) (w : World) : Type 0 where
  pub row : RequestRow
  pub balance : Balance
  pub found : find (is_request id) w.db.requests ≡ some row
  pub has_balance : find (is_balance row.employee_id row.location_id) w.db.balances ≡ some balance
  pub pends : row.status ≡ pending
  pub enough : leb_ℤ (pos 0) (balance.available_days -ℤ row.days) ≡ true
  pub fresh : IsFresh row.request w

-- An approval throws, or it finds all that it needs.
pub approve-cases :
    (id : String) (w : World)
    → IsSound w.db
    → ((e : Error) × ((approve id w).0 ≡ err e)) ⊎ IsGrantable id w
approve-cases id w sound = elim (Option-cases (refusal (find (is_request id) w.db.requests) w)) [
  | inr (code, stopped) ↦ inl (domain code, approve_refuses id w code stopped)
  | inl clear ↦ elim (Option-cases (find (is_request id) w.db.requests)) [
    | inl absent ↦ absurd (ground arith)
    | inr (row, found) ↦
        elim (Option-cases (find (is_balance row.employee_id row.location_id) w.db.balances)) [
          | inl empty ↦
              let d : pos 1 ≤ℤ row.days =
                All-find (λ r. pos 1 ≤ℤ r.days) (is_request id) w.db.requests row found
                  sound.positive in
              absurd (exceeds row.days d (cleared row none (ground arith)).1)
          | inr (b, there) ↦
              let both = cleared row (some b) (ground arith) in
              let enough = covers b.available_days row.days both.1 in
              elim (stale id row b w found there both.0 enough) [
                | inl fresh ↦ inr (record {
                  row = row;
                  balance = b;
                  found = found;
                  has_balance = there;
                  pends = both.0;
                  enough = enough;
                  fresh = fresh;
                })
                | inr (e, threw) ↦ inl (e, threw)
              ]
        ]
  ]
]

pub approve-Conserves :
    (id : String) (w : World)
    → IsSound w.db
    → HasUniqueIds w.db
    → Conserves w.db (approve id w).1.db
approve-Conserves id w sound unique = elim (approve-cases id w sound) [
  | inl (e, threw) ↦ failed-Conserves id w e unique threw
  | inr g ↦
      granted-Conserves id g.row g.balance w g.found g.has_balance g.pends g.enough unique g.fresh
]
