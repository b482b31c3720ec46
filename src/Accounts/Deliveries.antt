-- ===== src/Accounts/Deliveries.antt =====
-- A run of the outbound worker (workers/outbound-sync.worker.ts) keeps every account, whatever the
-- HCM answers.
use mathlib.Core.Path.{subst}
use timeoff_request.Base.{
  ℕ, ◌≡◌, ◌≢◌, ◌∙◌, refl, ap, sym, String, some, Bool, true, false, ◌==◌, eq_iff, eq_refl, ◌&&◌,
  List, [], ◌∷◌, arith, inl, inr, Bool-cases,
}
use timeoff_request.Base.Int.{ℤ, pos, ◌+ℤ◌, int_laws}
use timeoff_request.Base.All.{All}
use timeoff_request.Base.Table.{
  find, update_where, find_holds, find-updated, find-update_where, updated,
}
use timeoff_request.Store.Rows.{Db, Balance, RequestRow, SyncEventRow, is_request, is_balance}
use timeoff_request.Balances.Rows.{updated_other}
use timeoff_request.Requests.Repository.{request_synced, request_reversed, refunded}
use timeoff_request.Accounts.Held.{is_held, weight, days_or_zero, HasUniqueIds}
use timeoff_request.Accounts.Effects.{Conserves, same-Conserves, no_weight}
use timeoff_request.Accounts.Grants.{rewrite-Conserves}
use timeoff_request.Accounts.Settling.{Settled}

-- the request has been approved and its days are out of a balance
pub record IsHeld (id : String) (d : Db) : Type 0 where
  pub row : RequestRow
  pub found : find (is_request id) d.requests ≡ some row
  pub holds : is_held row.status ≡ true
  pub balance : Balance
  pub has_balance : find (is_balance row.employee_id row.location_id) d.balances ≡ some balance

restored : (a d : ℤ) → (a +ℤ d) +ℤ pos 0 ≡ a +ℤ d
restored a d = grind (int_laws)

synced_weight :
    (e l : String) (time : ℕ) (row : RequestRow)
    → is_held row.status ≡ true
    → weight e l (request_synced time row) ≡ weight e l row
synced_weight e l time row h = ground (arith, h)

returned_own :
    (d now : Db) (row : RequestRow) (b : Balance) (time later : ℕ)
    → is_held row.status ≡ true
    → find (is_balance row.employee_id row.location_id) d.balances ≡ some b
    → now.balances
      ≡ update_where
          (is_balance row.employee_id row.location_id)
          (refunded row.days later)
          d.balances
    → days_or_zero (find (is_balance row.employee_id row.location_id) now.balances)
        +ℤ weight row.employee_id row.location_id (request_reversed time row)
      ≡ days_or_zero (find (is_balance row.employee_id row.location_id) d.balances)
        +ℤ weight row.employee_id row.location_id row
returned_own d now row b time later holds has balances =
    rw
      (
        balances,
        find-updated (is_balance row.employee_id row.location_id) (refunded row.days later)
            d.balances b (λ r. refl) has,
        has,
        no_weight row.employee_id row.location_id (request_reversed time row) refl,
      )
      (rw (eq_refl row.employee_id, eq_refl row.location_id, holds)
        (restored b.available_days row.days))

-- the days that the balance gains are those that the request gives back
returned :
    (d now : Db) (row : RequestRow) (b : Balance) (time later : ℕ)
    → is_held row.status ≡ true
    → find (is_balance row.employee_id row.location_id) d.balances ≡ some b
    → now.balances
      ≡ update_where
          (is_balance row.employee_id row.location_id)
          (refunded row.days later)
          d.balances
    → (e l : String)
    → days_or_zero (find (is_balance e l) now.balances) +ℤ weight e l (request_reversed time row)
      ≡ days_or_zero (find (is_balance e l) d.balances) +ℤ weight e l row
returned d now row b time later holds has balances e l =
    elim (Bool-cases (row.employee_id == e && row.location_id == l)) [
      | inr apart ↦
          rw
            (
              balances,
              find-update_where (is_balance row.employee_id row.location_id) (is_balance e l)
                  (refunded row.days later) d.balances (λ r. refl),
              updated_other row.employee_id row.location_id e l
                  (is_balance row.employee_id row.location_id) (refunded row.days later)
                  (λ r fits. fits) apart d.balances,
            )
            (ground (arith, apart))
      | inl same ↦
          let own_e : row.employee_id ≡ e = (eq_iff row.employee_id e).0 (ground (arith, same)) in
          let own_l : row.location_id ≡ l = (eq_iff row.location_id l).0 (ground (arith, same)) in
          rw (← own_e, ← own_l) (returned_own d now row b time later holds has balances)
    ]

pub some_inj : {A : Type 0} {x y : A} → some x ≡ some y → x ≡ y
some_inj e = cc

pub Settled-Conserves :
    (event : SyncEventRow) (id : String) (d now : Db)
    → HasUniqueIds d
    → IsHeld id d
    → Settled event id d now
    → Conserves d now
Settled-Conserves event id d now unique h (Settled.kept balances requests touched) =
    same-Conserves d now unique balances requests
Settled-Conserves event id d now unique h (Settled.synced_at time balances requests touched) =
    rewrite-Conserves id (request_synced time) h.row d now unique h.found (λ r. refl) requests
      (λ e l. rw (balances, synced_weight e l time h.row h.holds) refl)
Settled-Conserves event id d now unique h
      (Settled.reversed_at row time later failed_at e found balances requests failed) =
    let same : h.row ≡ row = some_inj (sym h.found ∙ found) in
    let own : row.id ≡ id =
      (eq_iff row.id id).0 (find_holds (is_request id) d.requests row found) in
    rewrite-Conserves id (request_reversed time) row d now unique found (λ r. refl)
      (requests ∙ ap (λ k. update_where (is_request k) (request_reversed time) d.requests) own)
      (returned d now row h.balance time later (subst (λ r. is_held r.status ≡ true) same h.holds)
        (subst (λ r. find (is_balance r.employee_id r.location_id) d.balances ≡ some h.balance) same
          h.has_balance)
        balances)

-- a request of another id is held as before
pub rewritten-IsHeld :
    (id j : String) (f : RequestRow → RequestRow) (d now : Db)
    → id ≢ j
    → ((r : RequestRow) → (f r).id ≡ r.id)
    → now.requests ≡ update_where (is_request id) f d.requests
    → ((e l : String) (b : Balance)
        → find (is_balance e l) d.balances ≡ some b
        → (c : Balance) × (find (is_balance e l) now.balances ≡ some c))
    → IsHeld j d
    → IsHeld j now
rewritten-IsHeld id j f d now apart key requests stays h =
    let other : is_request id h.row ≡ false = ground (
      arith,
      apart,
      find_holds (is_request j) d.requests h.row h.found,
      eq_iff h.row.id j,
      eq_iff h.row.id id,
    ) in
    let (c, has) = stays h.row.employee_id h.row.location_id h.balance h.has_balance in
    record {
      row = h.row;
      found = rw requests (
          rw
            (
              find-update_where (is_request id) (is_request j) f d.requests
                  (λ r. ap (λ k. k == j) (key r)),
              h.found,
            )
            (rw other refl));
      holds = h.holds;
      balance = c;
      has_balance = has;
    }

refund_stays :
    (p : Balance → Bool) (days : ℤ) (later : ℕ) (e l : String) (rows : List Balance) (b : Balance)
    → find (is_balance e l) rows ≡ some b
    → (c : Balance) × (find (is_balance e l) (update_where p (refunded days later) rows) ≡ some c)
refund_stays p days later e l rows b has = (
  updated p (refunded days later) b,
  rw (find-update_where p (is_balance e l) (refunded days later) rows (λ r. refl), has) refl,
)

pub Settled-IsHeld :
    (event : SyncEventRow) (id j : String) (d now : Db)
    → id ≢ j
    → IsHeld j d
    → Settled event id d now
    → IsHeld j now
Settled-IsHeld event id j d now apart h (Settled.kept balances requests touched) = record {
  row = h.row;
  found = rw requests h.found;
  holds = h.holds;
  balance = h.balance;
  has_balance = rw balances h.has_balance;
}
Settled-IsHeld event id j d now apart h (Settled.synced_at time balances requests touched) =
    rewritten-IsHeld id j (request_synced time) d now apart (λ r. refl) requests
      (λ e l b has. (b, rw balances has)) h
Settled-IsHeld event id j d now apart h
      (Settled.reversed_at row time later failed_at e found balances requests failed) =
    let own : row.id ≡ id =
      (eq_iff row.id id).0 (find_holds (is_request id) d.requests row found) in
    rewritten-IsHeld id j (request_reversed time) d now apart (λ r. refl)
      (requests ∙ ap (λ k. update_where (is_request k) (request_reversed time) d.requests) own)
      (λ e l b has. rw balances (
        refund_stays (is_balance row.employee_id row.location_id) row.days later e l d.balances b
          has))
      h

-- the event names a request that is held
pub record NamesHeld (d : Db) (event : SyncEventRow) : Type 0 where
  pub id : String
  pub names : event.request_id ≡ some id
  pub held : IsHeld id d

-- the events name different requests
abbrev pub AllApart : List SyncEventRow → Type 0
AllApart [] = Unit
AllApart (event ∷ due) = All (λ later. event.request_id ≢ later.request_id) due × AllApart due
