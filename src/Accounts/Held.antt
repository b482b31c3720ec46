-- ===== src/Accounts/Held.antt =====
-- The days that the approved and synced requests of an employee at a location hold, as a sum over
-- the table, and what the statements on requests do to it (timeoff-requests.repository.ts).
use timeoff_request.Base.{
  ◌≤◌, ◌≡◌, String, Option, none, some, Bool, true, false, ◌&&◌, ◌==◌, List, [], ◌∷◌, ◌++◌, arith,
  if◌then◌else◌, inl, inr, Bool-cases,
}
use timeoff_request.Base.Int.{ℤ, pos, ◌+ℤ◌, int_laws}
use timeoff_request.Base.Table.{find, update_where, count_where}
use timeoff_request.Accounts.Tables.{update_where-none}
use timeoff_request.Domain.Status.{RequestStatus, approved, synced, failed_sync}
use timeoff_request.Store.Rows.{Db, Balance, RequestRow, is_request, is_balance}

abbrev pub is_held : RequestStatus → Bool
is_held approved = true
is_held synced = true
is_held failed_sync = true
is_held _ = false

-- the days that a request takes from the account
abbrev pub weight : String → String → RequestRow → ℤ
weight e l r =
    if (r.employee_id == e && r.location_id == l) && is_held r.status then r.days else pos 0

unfoldable pub held : String → String → List RequestRow → ℤ
held e l [] = pos 0
held e l (r ∷ rows) = weight e l r +ℤ held e l rows

abbrev pub days_or_zero : Option Balance → ℤ
days_or_zero none = pos 0
days_or_zero (some b) = b.available_days

-- the days at hand and the days held
abbrev pub account : String → String → Db → ℤ
account e l d = days_or_zero (find (is_balance e l) d.balances) +ℤ held e l d.requests

-- the primary key of the table of requests
pub record HasUniqueIds (d : Db) : Type 0 where
  pub at_most_one : (id : String) → count_where (is_request id) d.requests ≤ 1

swap : (a b c : ℤ) → (b +ℤ c) +ℤ a ≡ (a +ℤ c) +ℤ b
swap a b c = grind int_laws

shift : (w h h' a b : ℤ) → h +ℤ a ≡ h' +ℤ b → (w +ℤ h) +ℤ a ≡ (w +ℤ h') +ℤ b
shift w h h' a b e = grind (int_laws, e)

-- An update of the one row of an id changes the sum by the change of its weight.
pub held-update_where :
    (e l id : String) (f : RequestRow → RequestRow) (row : RequestRow) (rows : List RequestRow)
    → count_where (is_request id) rows ≤ 1
    → find (is_request id) rows ≡ some row
    → held e l (update_where (is_request id) f rows) +ℤ weight e l row
      ≡ held e l rows +ℤ weight e l (f row)
unfolding held update_where count_where find
held-update_where e l id f row [] one found = absurd (cc)
held-update_where e l id f row (r ∷ rows) one found = elim (Bool-cases (is_request id r)) [
  | inl fits ↦
      let same : r ≡ row = ground (arith, fits, found) in
      let rest : update_where (is_request id) f rows ≡ rows =
        update_where-none (is_request id) f rows (ground (arith, one, fits)) in
      rw (fits, rest, ← same) (swap (weight e l r) (weight e l (f r)) (held e l rows))
  | inr skips ↦ rw skips (
      shift (weight e l r) (held e l (update_where (is_request id) f rows)) (held e l rows)
        (weight e l row) (weight e l (f row))
        (held-update_where e l id f row rows (ground (arith, one, skips))
          (ground (arith, found, skips))))
]

regroup : (a b c : ℤ) → a +ℤ (b +ℤ c) ≡ (a +ℤ b) +ℤ c
regroup a b c = grind int_laws

pub held-append :
    (e l : String) (rows : List RequestRow) (r : RequestRow)
    → held e l (rows ++ r ∷ []) ≡ held e l rows +ℤ weight e l r
unfolding held
held-append e l [] r = grind int_laws
held-append e l (x ∷ rows) r =
    rw (held-append e l rows r) (regroup (weight e l x) (held e l rows) (weight e l r))
