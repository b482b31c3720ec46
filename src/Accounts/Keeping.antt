-- ===== src/Accounts/Keeping.antt =====
-- The local calls leave alone what the outbound worker owes, and an approval adds to it.
use mathlib.Core.Path.{subst}
use timeoff_request.Base.{
  ◌≤◌, ◌≡◌, ◌≢◌, ◌∙◌, refl, ap, sym, String, none, some, Bool, true, ◌==◌, eq_iff, ◌&&◌, arith, inl,
  inr, Bool-cases, Option-cases,
}
use timeoff_request.Base.Int.{pos, ltb_ℤ}
use timeoff_request.Base.All.{All, All-map}
use timeoff_request.Base.Table.{find, find_holds, count_where, find-append}
use timeoff_request.Domain.Errors.{Result-cases}
use timeoff_request.Domain.Status.{pending}
use timeoff_request.Domain.Days.{assert_positive_days}
use timeoff_request.Store.Rows.{
  Db, Balance, RequestRow, TimeOffRequest, SyncEventRow, is_request, is_balance,
}
use timeoff_request.Store.World.{World}
use timeoff_request.Balances
use timeoff_request.Balances.{event_id_eqb, same_event, can_consume, consumed}
use timeoff_request.Balances.Rows.{
  clock, upsert_absolute_stores, after_upsert, find-upsert, key_paths,
}
use timeoff_request.Requests.Repository
use timeoff_request.Requests.Repository.{is_event, request_row, saved, event_row}
use timeoff_request.Requests.Service
use timeoff_request.Requests.Service.{approve, approval_event_id, outbound_payload}
use timeoff_request.Requests.Closing.{
  Closing, close, closed_at, refused, close_run, obstacle, request_in,
}
use timeoff_request.Accounts.Held.{HasUniqueIds, is_held}
use timeoff_request.Accounts.Deliveries.{IsHeld, NamesHeld, rewritten-IsHeld, some_inj}
use timeoff_request.Accounts.Owed.{IsOwed, is_waiting, waits_for, renamed}

-- the events are as they were, and what was held is held
pub record Continues (d now : Db) : Type 0 where
  pub same_events : now.sync_events ≡ d.sync_events
  pub still : (j : String) → IsHeld j d → IsHeld j now

pub Continues-same :
    (d now : Db)
    → now.sync_events ≡ d.sync_events
    → now.requests ≡ d.requests
    → now.balances ≡ d.balances
    → Continues d now
Continues-same d now events requests balances = record {
  same_events = events;
  still = λ j k. record {
    row = k.row;
    found = rw requests k.found;
    holds = k.holds;
    balance = k.balance;
    has_balance = rw balances k.has_balance;
  };
}

ap_count :
    (p : SyncEventRow → Bool) (d now : Db)
    → now.sync_events ≡ d.sync_events
    → count_where p d.sync_events ≤ 1
    → count_where p now.sync_events ≤ 1
ap_count p d now same h = rw same h

pub Continues-IsOwed : (d now : Db) → HasUniqueIds now → Continues d now → IsOwed d → IsOwed now
Continues-IsOwed d now unique c h = record {
  requests_unique = unique;
  events_unique = λ k. ap_count (is_event k) d now c.same_events (h.events_unique k);
  once = λ j. ap_count (waits_for j) d now c.same_events (h.once j);
  owed = subst (All (λ r. is_waiting r ≡ true → NamesHeld now r)) (sym c.same_events) (
      All-map (λ r. is_waiting r ≡ true → NamesHeld d r)
        (λ r. is_waiting r ≡ true → NamesHeld now r) (λ r k w. renamed d now r r refl c.still (k w))
        d.sync_events h.owed);
}

insert-Continues :
    (request : TimeOffRequest) (w : World) → Continues w.db (Repository.create request w).1.db
unfolding Repository.create
insert-Continues request w = elim (Bool-cases (ltb_ℤ (pos 0) request.days)) [
  | inr refuses ↦ rw refuses (Continues-same w.db w.db refl refl refl)
  | inl positive ↦ elim (Option-cases (find (is_request request.id) w.db.requests)) [
    | inr (r, taken) ↦ rw (positive, taken) (Continues-same w.db w.db refl refl refl)
    | inl fresh ↦
        rw (positive, fresh)
          (record {
            same_events = refl;
            still = λ j k. record {
              row = k.row;
              found =
                  rw (find-append (is_request j) w.db.requests (request_row request), k.found) refl;
              holds = k.holds;
              balance = k.balance;
              has_balance = k.has_balance;
            };
          })
  ]
]

pub create-Continues :
    (input : Service.CreateRequestInput) (w : World) → Continues w.db (Service.create input w).1.db
unfolding Service.create
create-Continues input w = elim (Result-cases (assert_positive_days input.days)) [
  | inl valid ↦ elim (Bool-cases (Service.missing input.employee_id input.location_id)) [
    | inl absent ↦ rw (valid, absent) (Continues-same w.db w.db refl refl refl)
    | inr given ↦
        rw (valid, given)
          (record {
            same_events = (insert-Continues _ _).same_events;
            still = (insert-Continues _ _).still;
          })
  ]
  | inr (e, invalid) ↦ rw invalid (Continues-same w.db w.db refl refl refl)
]

false_held : (r : RequestRow) → r.status ≡ pending → is_held r.status ≡ true → ⊥
false_held r pends holds = ground (arith, pends, holds)

-- a request that is pending is not held
pub not_held :
    (id j : String) (row : RequestRow) (d : Db)
    → find (is_request id) d.requests ≡ some row
    → row.status ≡ pending
    → IsHeld j d
    → id ≢ j
not_held id j row d found pends k same =
    let rows : row ≡ k.row =
      some_inj (sym found ∙ (ap (λ i. find (is_request i) d.requests) same ∙ k.found)) in
    let open_status : k.row.status ≡ pending = sym (ap (λ r. r.status) rows) ∙ pends in
    false_held k.row open_status k.holds

pub close-Continues : (c : Closing) (id : String) (w : World) → Continues w.db (close c id w).1.db
close-Continues c id w = elim (Option-cases (obstacle (request_in id w))) [
  | inr (code, stopped) ↦ rw (refused c id w code stopped) (Continues-same w.db w.db refl refl refl)
  | inl clear ↦ elim (Option-cases (request_in id w)) [
    | inl absent ↦ absurd (ground arith)
    | inr (row, found) ↦
        let is_open : row.status ≡ pending = ground arith in
        let own : row.id ≡ id =
          (eq_iff row.id id).0 (find_holds (is_request id) w.db.requests row found) in
        rw (close_run c id row w found is_open) (record {
          same_events = refl;
          still = λ j k.
              rewritten-IsHeld id j (saved (closed_at c (clock w) row.request)) w.db _
                (not_held id j row w.db found is_open k) (λ r. refl) (rw own refl)
                (λ e l b has. (b, has)) k;
        })
  ]
]

none_is_not_some : {A : Type 0} {a : A} → none ≡ some a → ⊥
none_is_not_some e = absurd (cc)

-- the row that `getBalance` inserts stands for no other
upsert_stays :
    (e l j k : String) (w : World) (b : Balance)
    → find (is_balance e l) w.db.balances ≡ none
    → find (is_balance j k) w.db.balances ≡ some b
    → find (is_balance j k) (after_upsert e l (pos 0) w).db.balances ≡ some b
upsert_stays e l j k w b absent has = elim (Bool-cases (e == j && l == k)) [
  | inr apart ↦ rw (find-upsert e l j k (pos 0) (clock w) w.db.balances, apart) has
  | inl same ↦
      let (p, q) = key_paths e l j k same in
      let moved : find (is_balance j k) w.db.balances ≡ none = rw (← p, ← q) absent in
      absurd (none_is_not_some (sym moved ∙ has))
]

pub get_balance-Continues :
    (e l : String) (w : World) → Continues w.db (Balances.get_balance e l w).1.db
unfolding Balances.get_balance Balances.get
get_balance-Continues e l w = elim (Option-cases (find (is_balance e l) w.db.balances)) [
  | inr (b, there) ↦ rw there (Continues-same w.db w.db refl refl refl)
  | inl absent ↦ rw absent (
      rw (upsert_absolute_stores e l (pos 0) w refl) (record {
        same_events = refl;
        still = λ j k. record {
          row = k.row;
          found = k.found;
          holds = k.holds;
          balance = k.balance;
          has_balance =
              upsert_stays e l k.row.employee_id k.row.location_id w k.balance absent k.has_balance;
        };
      }))
]
