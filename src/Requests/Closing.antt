-- ===== src/Requests/Closing.antt =====
-- `reject` and `cancel`: only a pending request is closed, and nothing else in the database moves.
use timeoff_request.Base.{
  ℕ, ◌≡◌, refl, String, Option, none, some, ◌==◌, arith, eq_iff, inl, inr, Option-cases,
  if◌then◌else◌,
}
use timeoff_request.Base.Table.{find, update_where, find-update_where, find_holds}
use timeoff_request.Domain.Errors.{
  DomainErrorCode, request_not_found, illegal_status_transition, ok, err, domain,
}
use timeoff_request.Domain.Status.{
  RequestStatus, pending, rejected, cancelled, assert_transition, status_eqb,
}
use timeoff_request.Store.Rows.{TimeOffRequest, RequestRow, is_request}
use timeoff_request.Store.World.{World, Action}
use timeoff_request.Balances.Rows.{clock, ticked}
use timeoff_request.Requests.Repository.{saved}
use timeoff_request.Requests.Service.{reject, cancel}

abbrev pub request_in : String → World → Option RequestRow
request_in id w = find (is_request id) w.db.requests

-- the two ways to close a request
pub data Closing : Type 0 where
  rejecting cancelling : Closing

abbrev pub close : Closing → String → Action TimeOffRequest
close rejecting id = reject id
close cancelling id = cancel id

abbrev pub closed_status : Closing → RequestStatus
closed_status rejecting = rejected
closed_status cancelling = cancelled

-- why a request must not be closed, if it must not
abbrev pub obstacle : Option RequestRow → Option DomainErrorCode
obstacle none = some request_not_found
obstacle (some row) = if status_eqb row.status pending then none else some illegal_status_transition

abbrev pub closed_at : Closing → ℕ → TimeOffRequest → TimeOffRequest
closed_at c time request = record request { status = closed_status c; updated_at = time }

abbrev pub after_close : Closing → TimeOffRequest → World → World
after_close c request w = record (ticked w) {
  db = record w.db {
    requests =
        update_where (is_request request.id) (saved (closed_at c (clock w) request)) w.db.requests;
  };
}

pub close_run :
    (c : Closing) (id : String) (row : RequestRow) (w : World)
    → request_in id w ≡ some row
    → row.status ≡ pending
    → close c id w ≡ (ok (closed_at c (clock w) row.request), after_close c row.request w)
unfolding reject cancel assert_transition
close_run rejecting id row w found open_status = ground arith
close_run cancelling id row w found open_status = ground arith

find-saved :
    (c : Closing) (id j : String) (row : RequestRow) (w : World)
    → request_in id w ≡ some row
    → request_in j (after_close c row.request w) ≡ (
        if id == j
        then some (record row { request = closed_at c (clock w) row.request })
        else request_in j w)
find-saved c id j row w found =
    let own : row.id ≡ id =
      (eq_iff row.id id).0 (find_holds (is_request id) w.db.requests row found) in
    let change = saved (closed_at c (clock w) row.request) in
    rw (find-update_where (is_request row.id) (is_request j) change w.db.requests (λ r. refl))
      (elim (Option-cases (request_in j w)) [
        | inl absent ↦ ground (arith, own, eq_iff id j)
        | inr (other, there) ↦ ground (
          arith,
          own,
          eq_iff id j,
          eq_iff other.id j,
          eq_iff other.id id,
          find_holds (is_request j) w.db.requests other there,
        )
      ])

pub refused :
    (c : Closing) (id : String) (w : World) (code : DomainErrorCode)
    → obstacle (request_in id w) ≡ some code
    → close c id w ≡ (err (domain code), w)
unfolding reject cancel assert_transition
refused rejecting id w code h = ground arith
refused cancelling id w code h = ground arith

-- Rejecting or cancelling: an id without a request throws REQUEST_NOT_FOUND and a request that is
-- not pending ILLEGAL_STATUS_TRANSITION, with the world as it was; a pending request is returned
-- with the new status, its row has that status and the time of the call and is otherwise as it was,
-- every other request has its row, and no other table changes.
pub close_lem :
    (c : Closing) (id : String) (w : World)
    → ((code : DomainErrorCode)
        → obstacle (request_in id w) ≡ some code
        → close c id w ≡ (err (domain code), w))
      × ((row : RequestRow)
          → request_in id w ≡ some row
          → row.status ≡ pending
          → let (r, w') = close c id w in
            let request = closed_at c (clock w) row.request in
            (r ≡ ok request)
            × ((j : String)
                → request_in j w'
                  ≡ (if id == j then some (record row { request = request }) else request_in j w))
            × (w'.db ≡ record w.db { requests = w'.db.requests }))
close_lem c id w = (
  refused c id w,
  λ row found is_open.
      rw (close_run c id row w found is_open) (refl, λ j. find-saved c id j row w found, refl),
)
