-- ===== src/Requests/Refusals.antt =====
-- When `approve`, `reject` and `cancel` throw, and what `reject` and `cancel` write.
use timeoff_request.Base.{
  ◌≡◌, refl, String, Option, none, some, false, not, arith, inl, inr, Option-cases, if◌then◌else◌,
}
use timeoff_request.Base.Int.{ℤ, pos, leb_ℤ, int_laws}
use timeoff_request.Base.Table.{find}
use timeoff_request.Domain.Errors.{
  DomainErrorCode, request_not_found, illegal_status_transition, insufficient_balance, err, domain,
}
use timeoff_request.Domain.Status.{pending, assert_transition, status_eqb}
use timeoff_request.Domain.Days.{assert_has_balance}
use timeoff_request.Store.Rows.{Balance, TimeOffRequest, RequestRow, is_request, is_balance}
use timeoff_request.Store.World.{World}
use timeoff_request.Balances
use timeoff_request.Balances.Rows.{clock, upserted_row, after_upsert, upsert_absolute_stores}
use timeoff_request.Requests.Service.{reserve, approve_once, approve}

-- the days at hand: none without a row
abbrev pub available : Option Balance → ℤ
available none = pos 0
available (some b) = b.available_days

-- why an approval must be refused, if it must
abbrev pub refusal_of : RequestRow → Option Balance → Option DomainErrorCode
refusal_of row balance =
    if not (status_eqb row.status pending)
    then some illegal_status_transition
    else if leb_ℤ row.days (available balance)
    then none
    else some insufficient_balance

abbrev balance_for : RequestRow → World → Option Balance
balance_for row w = find (is_balance row.employee_id row.location_id) w.db.balances

abbrev pub refusal : Option RequestRow → World → Option DomainErrorCode
refusal none w = some request_not_found
refusal (some row) w = refusal_of row (balance_for row w)

overdrawn :
    (a d : ℤ) → leb_ℤ d a ≡ false → assert_has_balance a d ≡ err (domain insufficient_balance)
unfolding assert_has_balance
overdrawn a d h = grind (int_laws)

reserve_refuses :
    (b : Balance) (request : TimeOffRequest) (w : World)
    → leb_ℤ request.days b.available_days ≡ false
    → reserve b request w ≡ (err (domain insufficient_balance), w)
unfolding reserve
reserve_refuses b request w h = ground (arith, overdrawn b.available_days request.days)

once_refuses :
    (id : String) (row : RequestRow) (w : World) (c : DomainErrorCode)
    → find (is_request id) w.db.requests ≡ some row
    → refusal_of row (balance_for row w) ≡ some c
    → (approve_once id w).0 ≡ err (domain c)
unfolding approve_once Balances.get assert_transition
once_refuses id row w c found h = elim (Option-cases (balance_for row w)) [
  | inl fresh ↦ ground (
    arith,
    upsert_absolute_stores row.employee_id row.location_id (pos 0) w refl,
    reserve_refuses (upserted_row row.employee_id row.location_id (pos 0) (clock w) none)
        row.request (after_upsert row.employee_id row.location_id (pos 0) w),
  )
  | inr (b, old) ↦ ground (arith, reserve_refuses b row.request w)
]

-- For every request id and database: an id without a request is refused with REQUEST_NOT_FOUND, a
-- request that is not pending with ILLEGAL_STATUS_TRANSITION, a pending one of more days than its
-- balance has (none without a row) with INSUFFICIENT_BALANCE.
pub approve_refuses :
    (id : String) (w : World) (c : DomainErrorCode)
    → refusal (find (is_request id) w.db.requests) w ≡ some c
    → (approve id w).0 ≡ err (domain c)
unfolding approve approve_once
approve_refuses id w c h = elim (Option-cases (find (is_request id) w.db.requests)) [
  | inl absent ↦ ground (arith)
  | inr (row, found) ↦ ground (arith, once_refuses id row w c found)
]
