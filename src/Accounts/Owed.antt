-- ===== src/Accounts/Owed.antt =====
-- What the outbound worker (workers/outbound-sync.worker.ts) still owes: each event that waits for a
-- delivery names a request that is held, and no other event that waits names it.
use mathlib.Core.Path.{subst}
use timeoff_request.Base.{
  ℕ, ◌≤◌, ◌≡◌, ◌≢◌, ◌∙◌, refl, ap, sym, String, Option, none, some, Bool, true, false, ◌==◌, eq_iff,
  ◌&&◌, List, [], ◌∷◌, arith, inl, inr, Bool-cases, if◌then◌else◌,
}
use timeoff_request.Base.All.{All}
use timeoff_request.Base.Table.{find, update_where, count_where, find-updated}
use timeoff_request.Domain.Errors.{Error}
use timeoff_request.Store.Rows.{Db, SyncEventRow, SyncEventId, outbound, is_request}
use timeoff_request.Balances.{direction_eqb, event_id_eqb}
use timeoff_request.Requests.Repository.{is_open, is_event, event_failed, request_synced}
use timeoff_request.Accounts.Held.{HasUniqueIds}
use timeoff_request.Accounts.Settling.{Settled, IsTouched, KeepsName, KeepsName-failed}
use timeoff_request.Accounts.Deliveries.{IsHeld, NamesHeld, Settled-IsHeld, Settled-Conserves}
use timeoff_request.Accounts.Tables.{count_where-update_one, All-update_one, count_where_zero}

-- the event is for the HCM and is not settled
abbrev pub is_waiting : SyncEventRow → Bool
is_waiting r = direction_eqb r.direction outbound && is_open r.status

abbrev pub refers_to : String → Option String → Bool
refers_to j none = false
refers_to j (some k) = k == j

abbrev pub waits_for : String → SyncEventRow → Bool
waits_for j r = is_waiting r && refers_to j r.request_id

pub record IsOwed (d : Db) : Type 0 where
  pub requests_unique : HasUniqueIds d
  pub events_unique : (id : SyncEventId) → count_where (is_event id) d.sync_events ≤ 1
  pub owed : All (λ r. is_waiting r ≡ true → NamesHeld d r) d.sync_events
  pub once : (j : String) → count_where (waits_for j) d.sync_events ≤ 1

pub renamed :
    (d now : Db) (r s : SyncEventRow)
    → s.request_id ≡ r.request_id
    → ((j : String) → IsHeld j d → IsHeld j now)
    → NamesHeld d r
    → NamesHeld now s
renamed d now r s same still h = record {
  id = h.id;
  names = same ∙ h.names;
  held = still h.id h.held;
}

pub All-both :
    {R : Type 0} (P Q S : R → Type 0) (rows : List R)
    → ((r : R) → P r → Q r → S r)
    → All P rows
    → All Q rows
    → All S rows
All-both P Q S [] f h k = tt
All-both P Q S (r ∷ rows) f h k = (f r h.0 k.0, All-both P Q S rows f h.1 k.1)

module _ (event : SyncEventRow) (id : String) (d now : Db) (names : event.request_id ≡ some id)
    (there : find (is_event event.id) d.sync_events ≡ some event)
    (waiting : is_waiting event ≡ true) (h : IsOwed d) where
  -- the update of the event alone
  touched_events_unique :
      (touched : IsTouched event d now) (k : SyncEventId)
      → count_where (is_event k) now.sync_events ≤ 1
  touched_events_unique touched k = rw touched.events (
      omega (
        arith,
        ap {B = ℕ} (λ i. if event_id_eqb i k then 1 else 0) (touched.key.same_id event),
        count_where-update_one (is_event k) (is_event event.id) touched.f d.sync_events event there
            (h.events_unique event.id),
        h.events_unique k,
      ))

  touched_waits :
      (f : SyncEventRow → SyncEventRow) (j : String)
      → KeepsName f
      → (if waits_for j (f event) then 1 else 0) ≤ (if waits_for j event then 1 else 0)
  touched_waits f j key = ground (arith, key.same_request event, key.same_direction event, waiting)

  touched_once :
      (touched : IsTouched event d now) (j : String) → count_where (waits_for j) now.sync_events ≤ 1
  touched_once touched j = rw touched.events (
      omega (
        arith,
        touched_waits touched.f j touched.key,
        count_where-update_one (waits_for j) (is_event event.id) touched.f d.sync_events event there
            (h.events_unique event.id),
        h.once j,
      ))

  touched-IsOwed :
      HasUniqueIds now
      → IsHeld id d
      → IsTouched event d now
      → ((j : String) → IsHeld j d → IsHeld j now)
      → IsOwed now
  touched-IsOwed unique held touched still = record {
    requests_unique = unique;
    events_unique = touched_events_unique touched;
    once = touched_once touched;
    owed = subst (All (λ r. is_waiting r ≡ true → NamesHeld now r)) (sym touched.events) (
        All-update_one (λ r. is_waiting r ≡ true → NamesHeld d r)
          (λ r. is_waiting r ≡ true → NamesHeld now r) (is_event event.id) touched.f d.sync_events
          event there (h.events_unique event.id) (λ r k w. renamed d now r r refl still (k w))
          (λ w. record {
            id = id;
            names = touched.key.same_request event ∙ names;
            held = still id held;
          })
          h.owed);
  }

  own_waits : waits_for id event ≡ true
  own_waits = ground (arith, waiting, names, eq_iff id id)

  failed_waits : (t : ℕ) (e : Error) → waits_for id (event_failed t e event) ≡ false
  failed_waits t e = ground arith

  never : (t : ℕ) (e : Error) → is_waiting (event_failed t e event) ≡ true → ⊥
  never t e w = ground (arith, w)

  differs :
      (r : SyncEventRow) (j : String)
      → is_waiting r ≡ true
      → r.request_id ≡ some j
      → waits_for id r ≡ false
      → id ≢ j
  differs r j w named other same = ground (arith, w, named, other, same, eq_iff j id)

  -- after a reversal no event waits for the request
  none_waits :
      (t : ℕ) (e : Error)
      → count_where
          (waits_for id)
          (update_where (is_event event.id) (event_failed t e) d.sync_events)
        ≡ 0
  none_waits t e = ground (
    arith,
    own_waits,
    failed_waits t e,
    count_where-update_one (waits_for id) (is_event event.id) (event_failed t e) d.sync_events event
        there (h.events_unique event.id),
    h.once id,
  )

  failed-IsOwed :
      (t : ℕ) (e : Error)
      → HasUniqueIds now
      → now.sync_events ≡ update_where (is_event event.id) (event_failed t e) d.sync_events
      → ((j : String) → id ≢ j → IsHeld j d → IsHeld j now)
      → IsOwed now
  failed-IsOwed t e unique events still =
      let touched : IsTouched event d now = record {
        f = event_failed t e;
        key = KeepsName-failed t e;
        events = events;
      } in
      record {
        requests_unique = unique;
        events_unique = touched_events_unique touched;
        once = touched_once touched;
        owed = subst (All (λ r. is_waiting r ≡ true → NamesHeld now r)) (sym events) (
            All-both (λ r. is_waiting r ≡ true → NamesHeld d r) (λ r. waits_for id r ≡ false)
              (λ r. is_waiting r ≡ true → NamesHeld now r)
              (update_where (is_event event.id) (event_failed t e) d.sync_events)
              (λ r k other w.
                let n = k w in
                record {
                  id = n.id;
                  names = n.names;
                  held = still n.id (differs r n.id w n.names other) n.held;
                })
              (All-update_one (λ r. is_waiting r ≡ true → NamesHeld d r)
                (λ r. is_waiting r ≡ true → NamesHeld d r) (is_event event.id) (event_failed t e)
                d.sync_events event there (h.events_unique event.id) (λ r k. k)
                (λ w. absurd (never t e w)) h.owed)
              (count_where_zero (waits_for id) _ (none_waits t e)));
      }

clash : (i j : String) → i ≡ j → (i == j) ≡ false → ⊥
clash i j e other = ground (arith, e, other, eq_iff i j)

synced-IsHeld :
    (id : String) (d now : Db) (time : ℕ)
    → now.balances ≡ d.balances
    → now.requests ≡ update_where (is_request id) (request_synced time) d.requests
    → IsHeld id d
    → IsHeld id now
synced-IsHeld id d now time balances requests k = record {
  row = request_synced time k.row;
  found =
      rw requests
        (find-updated (is_request id) (request_synced time) d.requests k.row (λ r. refl) k.found);
  holds = refl;
  balance = k.balance;
  has_balance = rw balances k.has_balance;
}

-- what a settled event leaves
pub Settled-IsOwed :
    (event : SyncEventRow) (id : String) (d now : Db)
    → event.request_id ≡ some id
    → find (is_event event.id) d.sync_events ≡ some event
    → is_waiting event ≡ true
    → IsHeld id d
    → IsOwed d
    → Settled event id d now
    → IsOwed now
Settled-IsOwed event id d now names there waiting held h (Settled.kept balances requests touched) =
    touched-IsOwed event id d now names there waiting h
      (Settled-Conserves event id d now h.requests_unique held
        (Settled.kept balances requests touched)).still_unique
      held touched
      (λ j k. record {
        row = k.row;
        found = rw requests k.found;
        holds = k.holds;
        balance = k.balance;
        has_balance = rw balances k.has_balance;
      })
Settled-IsOwed event id d now names there waiting held h
      (Settled.synced_at time balances requests touched) =
    touched-IsOwed event id d now names there waiting h
      (Settled-Conserves event id d now h.requests_unique held
        (Settled.synced_at time balances requests touched)).still_unique
      held touched
      (λ j k. elim (Bool-cases (id == j)) [
        | inl own ↦
            subst (λ i. IsHeld i now) ((eq_iff id j).0 own)
              (synced-IsHeld id d now time balances requests held)
        | inr other ↦
            Settled-IsHeld event id j d now (λ e. absurd (clash id j e other)) k
              (Settled.synced_at time balances requests touched)
      ])
Settled-IsOwed event id d now names there waiting held h
      (Settled.reversed_at row time later t e found balances requests failed) =
    failed-IsOwed event id d now names there waiting h t e
      (Settled-Conserves event id d now h.requests_unique held
        (Settled.reversed_at row time later t e found balances requests failed)).still_unique
      failed
      (λ j apart k.
        Settled-IsHeld event id j d now apart k
          (Settled.reversed_at row time later t e found balances requests failed))
