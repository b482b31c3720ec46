-- ===== src/Accounts/Owing.antt =====
-- An approval (timeoff-requests.service.ts) adds one event to what the outbound worker owes.
use timeoff_request.Base.{
  ◌+◌, ◌≤◌, ◌≡◌, ◌∙◌, refl, ap, sym, String, some, true, false, eq_iff, [], ◌∷◌, ◌++◌, arith, inl,
  inr, Bool-cases,
}
use mathlib.Core.Path.{subst}
use timeoff_request.Base.All.{All-map, All-concat}
use timeoff_request.Base.Table.{
  find, find_holds, count_where, find-update_where, find-updated, updated,
}
use timeoff_request.Store.Rows.{
  Db, Balance, RequestRow, SyncEventRow, SyncEventId, uuid, outbound, is_request, is_balance,
}
use timeoff_request.Store.World.{World}
use timeoff_request.Balances.{event_id_eqb, same_event, can_consume, consumed}
use timeoff_request.Balances.Rows.{clock}
use timeoff_request.Requests.Repository.{is_event, saved, event_row}
use timeoff_request.Requests.Service.{approve, approval_event_id, outbound_payload}
use timeoff_request.Requests.Approval.{
  approve_lem, approved_at, after_approval, approval_event, time_after,
}
use timeoff_request.Requests.Atomic.{approve_atomic}
use timeoff_request.Invariant.Sound.{IsSound}
use timeoff_request.Accounts.Held.{HasUniqueIds}
use timeoff_request.Accounts.Approvals.{IsGrantable, approve-cases, approve-Conserves}
use timeoff_request.Accounts.Deliveries.{IsHeld, NamesHeld, rewritten-IsHeld}
use timeoff_request.Accounts.Tables.{count_where-append, count_where-narrow, count_where-false}
use timeoff_request.Accounts.Owed.{IsOwed, is_waiting, waits_for, renamed}
use timeoff_request.Accounts.Keeping.{not_held}
use timeoff_request.Accounts.Working.{event_id_sound}

module _ (id : String) (w : World) (g : IsGrantable id w) (h : IsOwed w.db) where
  abbrev granted : Db
  granted = (after_approval g.row.request g.balance w).db

  -- the event that the approval queues
  abbrev queued_row : SyncEventRow
  queued_row =
      event_row
        (approval_event (w.env.uuids (w.env.uuid_reads + 1))
          (w.env.times (w.env.time_reads + 1 + 1 + 1)) g.row.request w)
        (some g.row.id) (w.env.times (w.env.time_reads + 1 + 1 + 1 + 1))

  own : g.row.id ≡ id
  own = (eq_iff g.row.id id).0 (find_holds (is_request id) w.db.requests g.row g.found)

  abbrev granted_row : RequestRow
  granted_row = saved (approved_at (time_after 1 w) g.row.request) g.row

  consumed_stays :
      (e l : String) (b : Balance)
      → find (is_balance e l) w.db.balances ≡ some b
      → (c : Balance) × (find (is_balance e l) granted.balances ≡ some c)
  consumed_stays e l b has =
      let p = can_consume g.row.employee_id g.row.location_id g.row.days g.balance.version in
      let f = consumed g.row.days (clock w) in
      (
        updated p f b,
        rw (find-update_where p (is_balance e l) f w.db.balances (λ r. refl), has) refl,
      )

  still : (j : String) → IsHeld j w.db → IsHeld j granted
  still j k =
      rewritten-IsHeld id j (saved (approved_at (time_after 1 w) g.row.request)) w.db granted
        (not_held id j g.row w.db g.found g.pends k) (λ r. refl) (rw own refl) consumed_stays k

  now_held : IsHeld g.row.id granted
  now_held =
      let (c, has) = consumed_stays g.row.employee_id g.row.location_id g.balance g.has_balance in
      record {
        row = granted_row;
        found =
            find-updated (is_request g.row.id) (saved (approved_at (time_after 1 w) g.row.request))
              w.db.requests g.row (λ r. refl)
              (ap (λ j. find (is_request j) w.db.requests) own ∙ g.found);
        holds = refl;
        balance = c;
        has_balance = has;
      }

  waiting_of : (r : SyncEventRow) → waits_for g.row.id r ≡ true → is_waiting r ≡ true
  waiting_of r x = ground (arith, x)

  named :
      (r : SyncEventRow) (j : String)
      → waits_for g.row.id r ≡ true
      → r.request_id ≡ some j
      → g.row.id ≡ j
  named r j x names = ground (arith, x, names, eq_iff j g.row.id)

  -- no event waits for a request that is pending
  none_waits : count_where (waits_for g.row.id) w.db.sync_events ≡ 0
  none_waits = count_where-false (waits_for g.row.id) w.db.sync_events (
      All-map (λ r. is_waiting r ≡ true → NamesHeld w.db r) (λ r. waits_for g.row.id r ≡ false)
        (λ r k. elim (Bool-cases (waits_for g.row.id r)) [
          | inr other ↦ other
          | inl own_event ↦
              let n = k (waiting_of r own_event) in
              absurd (
                not_held id n.id g.row w.db g.found g.pends n.held
                  (sym own ∙ named r n.id own_event n.names))
        ])
        w.db.sync_events h.owed)

  new_key : count_where (is_event queued_row.id) w.db.sync_events ≡ 0
  new_key =
      count_where-narrow
        (same_event (uuid (w.env.uuids (w.env.uuid_reads + 1))) (approval_event_id g.row.id)
          (outbound_payload g.row.request w.trace) outbound)
        (is_event queued_row.id) w.db.sync_events g.fresh.event_is_new (λ r x. ground (arith, x))

  granted_unique :
      (k : SyncEventId) → count_where (is_event k) (w.db.sync_events ++ queued_row ∷ []) ≤ 1
  granted_unique k = elim (Bool-cases (event_id_eqb queued_row.id k)) [
    | inr other ↦
        rw (count_where-append (is_event k) w.db.sync_events queued_row, other)
          (ground (arith, h.events_unique k))
    | inl same ↦
        let key : queued_row.id ≡ k = event_id_sound queued_row.id k same in
        rw (count_where-append (is_event k) w.db.sync_events queued_row, same, ← key, new_key)
          (omega arith)
  ]

  granted_once : (j : String) → count_where (waits_for j) (w.db.sync_events ++ queued_row ∷ []) ≤ 1
  granted_once j = ground (
    arith,
    count_where-append (waits_for j) w.db.sync_events queued_row,
    h.once j,
    eq_iff g.row.id j,
    none_waits,
  )

  granted-IsOwed : HasUniqueIds granted → IsOwed granted
  granted-IsOwed unique = record {
    requests_unique = unique;
    events_unique = granted_unique;
    once = granted_once;
    owed =
        All-concat (λ r. is_waiting r ≡ true → NamesHeld granted r) w.db.sync_events queued_row
          (All-map (λ r. is_waiting r ≡ true → NamesHeld w.db r)
            (λ r. is_waiting r ≡ true → NamesHeld granted r)
            (λ r k x. renamed w.db granted r r refl still (k x)) w.db.sync_events h.owed)
          (λ x. record { id = g.row.id; names = refl; held = now_held });
  }

pub approve-IsOwed :
    (id : String) (w : World) → IsSound w.db → IsOwed w.db → IsOwed (approve id w).1.db
approve-IsOwed id w sound h = elim (approve-cases id w sound) [
  | inl (e, threw) ↦ subst IsOwed (sym (approve_atomic id w e threw).1) h
  | inr g ↦
      let ran = approve_lem id g.row g.balance w g.found g.has_balance g.pends g.enough g.fresh in
      let unique = (approve-Conserves id w sound h.requests_unique).still_unique in
      let same = ap (λ r. r.1.db) ran in
      subst IsOwed (sym same) (granted-IsOwed id w g h (subst HasUniqueIds same unique))
]
