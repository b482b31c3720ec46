-- ===== src/Invariant/Lifecycle.antt =====
-- Requests that were rejected or cancelled, under calls and runs of the worker
-- (shared/domain/request-status.policy.ts).
use mathlib.Core.Path.{subst}
use timeoff_request.Base.{
  ◌≡◌, ◌≢◌, ◌∙◌, refl, sym, ap, String, some, Bool, true, false, ◌==◌, List, [], ◌∷◌, ◌++◌, arith,
  eq_iff, inl, inr, Bool-cases,
}
use timeoff_request.Base.All.{All, All-concat, All-update_where}
use timeoff_request.Base.Table.{find, update_where, find-update_where, find-append, find_holds}
use timeoff_request.Domain.Errors.{ok}
use timeoff_request.Domain.Status.{
  RequestStatus, pending, approved, rejected, cancelled, assert_transition,
}
use timeoff_request.Store.Rows.{Db, RequestRow, SyncEventRow, is_request}
use timeoff_request.Requests.Repository.{request_row, request_reversed, is_live}
use timeoff_request.Invariant.Writes.{Writes, Carries, KeepsRequest, KeepsKey}

abbrev pub is_closed : RequestStatus → Bool
is_closed rejected = true
is_closed cancelled = true
is_closed _ = false

closed_is_dead : (s : RequestStatus) → is_closed s ≡ true → is_live s ≢ true
closed_is_dead pending closed live = absurd (cc)
closed_is_dead approved closed live = absurd (cc)
closed_is_dead _ closed live = absurd (cc)

pub pending_is_open : (s : RequestStatus) → is_closed s ≡ true → s ≢ pending
pending_is_open s closed e = ground (arith, closed, e)

-- what an update of one request leaves to the test of another
updated_apart :
    (j id : String) (f : RequestRow → RequestRow) (row : RequestRow) (rows : List RequestRow)
    → (j == id) ≡ false
    → KeepsRequest f
    → find (is_request id) rows ≡ some row
    → find (is_request id) (update_where (is_request j) f rows) ≡ some row
updated_apart j id f row rows apart key found =
    find-update_where (is_request j) (is_request id) f rows
      (λ r. ap (λ k. k == id) (key.same_key r))
    ∙ (rw found (
        ground (
          arith,
          eq_iff row.id j,
          eq_iff row.id id,
          eq_iff j id,
          find_holds (is_request id) rows row found,
          apart,
        )))

pub closed_is_last : (s t : RequestStatus) → is_closed s ≡ true → assert_transition s t ≢ ok tt
unfolding assert_transition
closed_is_last rejected t closed allowed = absurd (cc)
closed_is_last cancelled t closed allowed = absurd (cc)
closed_is_last _ t closed allowed = absurd (cc)

-- the row found at one id, by the test of the same id
pub same_row :
    (j id : String) (r row : RequestRow) (rows : List RequestRow)
    → (j == id) ≡ true
    → find (is_request j) rows ≡ some r
    → find (is_request id) rows ≡ some row
    → r ≡ row
same_row j id r row rows same found found' =
    let there = subst (λ k. find (is_request k) rows ≡ some r) ((eq_iff j id).0 same) found in cc

pub found-append :
    (id : String) (row new : RequestRow) (rows : List RequestRow)
    → find (is_request id) rows ≡ some row
    → find (is_request id) (rows ++ new ∷ []) ≡ some row
found-append id row new rows found = ground (arith, find-append (is_request id) rows new, found)

pub Carries-update :
    (Kind : String → Type 0) (p : SyncEventRow → Bool) (f : SyncEventRow → SyncEventRow)
    (rows : List SyncEventRow)
    → KeepsKey f
    → All (Carries Kind) rows
    → All (Carries Kind) (update_where p f rows)
Carries-update Kind p f rows key h =
    All-update_where (Carries Kind) p f rows
      (λ r fits carries j names. carries j (sym (key.same_request r) ∙ names)) h

module _ (id : String) (row : RequestRow) where
  -- the closed row, which no event names
  pub record IsClosed (d : Db) : Type 0 where
    pub found : find (is_request id) d.requests ≡ some row
    pub closed : is_closed row.status ≡ true
    pub unnamed : All (Carries (λ j. (j == id) ≡ false)) d.sync_events

  -- the requests are as they were at this id, the events too
  still-IsClosed :
      (d now : Db)
      → IsClosed d
      → find (is_request id) now.requests ≡ some row
      → now.sync_events ≡ d.sync_events
      → IsClosed now
  still-IsClosed d now h found same = record {
    found = found;
    closed = h.closed;
    unnamed = rw same h.unnamed;
  }

  flag-closed :
      (p : RequestRow → Bool) (f : RequestRow → RequestRow) (d : Db)
      → KeepsRequest f
      → ((r : RequestRow) → p r ≡ true → is_live r.status ≡ true)
      → IsClosed d
      → find (is_request id) (update_where p f d.requests) ≡ some row
  flag-closed p f d key live h =
      find-update_where p (is_request id) f d.requests (λ r. ap (λ k. k == id) (key.same_key r))
      ∙ (rw h.found (elim (Bool-cases (p row)) [
        | inl fits ↦ absurd (closed_is_dead row.status h.closed (live row fits))
        | inr skips ↦ rw skips refl
      ]))

  pub IsClosed-Writes : Writes IsClosed
  IsClosed-Writes = record {
    Kind = λ j. (j == id) ≡ false;
    kind_of_request = λ j r next d h found allowed. elim (Bool-cases (j == id)) [
      | inl same ↦
          let e = same_row j id r row d.requests same found h.found in
          absurd (closed_is_last row.status next h.closed (rw (← e) allowed))
      | inr apart ↦ apart
    ];
    kind_of_event = λ d h. h.unnamed;
    elsewhere = λ d now b r s h. still-IsClosed d now h (rw r h.found) s;
    upserts = λ e l days time d fits h. still-IsClosed d _ h h.found refl;
    consumes = λ e l days version time d h. still-IsClosed d _ h h.found refl;
    creates = λ request d fits h.
        still-IsClosed d _ h (found-append id row (request_row request) d.requests h.found) refl;
    flags = λ p f d key status live h. still-IsClosed d _ h (flag-closed p f d key live h) refl;
    grants = λ j f d kind key status h.
        still-IsClosed d _ h (updated_apart j id f row d.requests kind key h.found) refl;
    closes = λ j r f d found pends key h. elim (Bool-cases (j == id)) [
      | inl same ↦
          let e = same_row j id r row d.requests same found h.found in
          absurd (pending_is_open row.status h.closed (ap (λ x. x.status) (sym e) ∙ pends))
      | inr apart ↦
          still-IsClosed d _ h (updated_apart j id f row d.requests apart key h.found) refl
    ];
    reverses = λ j r time later d kind found h.
        let own : r.id ≡ j = (eq_iff r.id j).0 (find_holds (is_request j) d.requests r found) in
        still-IsClosed d _ h
          (updated_apart r.id id (request_reversed time) row d.requests
            (subst (λ k. (k == id) ≡ false) (sym own) kind)
            (record { same_key = λ x. refl; same_days = λ x. refl }) h.found)
          refl;
    adds_event = λ r d carries granted h. record {
      found = h.found;
      closed = h.closed;
      unnamed = All-concat (Carries (λ j. (j == id) ≡ false)) d.sync_events r h.unnamed carries;
    };
    updates_events = λ p f d key h. record {
      found = h.found;
      closed = h.closed;
      unnamed = Carries-update (λ j. (j == id) ≡ false) p f d.sync_events key h.unnamed;
    };
  }
