-- ===== src/Accounts/Grants.antt =====
-- `reject` and `cancel` leave every account alone; `approve` moves the days of the request from the
-- balance to the request.
use timeoff_request.Base.{ℕ, ◌≡◌, refl, String, some, eq_iff, arith, inl, inr, Option-cases}
use timeoff_request.Base.Int.{ℤ, pos, ◌+ℤ◌, int_laws}
use timeoff_request.Base.Table.{find, update_where, find_holds}
use timeoff_request.Domain.Status.{pending}
use timeoff_request.Store.Rows.{Db, RequestRow, is_request, is_balance}
use timeoff_request.Store.World.{World}
use timeoff_request.Balances.Rows.{clock}
use timeoff_request.Requests.Repository.{saved}
use timeoff_request.Requests.Closing.{
  Closing, close, closed_at, refused, close_run, obstacle, request_in,
}
use timeoff_request.Accounts.Held.{weight, HasUniqueIds, days_or_zero, held-update_where}
use timeoff_request.Accounts.Effects.{
  Conserves, same-Conserves, count_where-update_where, no_weight,
}

exchange : (a b u v h k : ℤ) → a +ℤ v ≡ b +ℤ u → h +ℤ u ≡ k +ℤ v → a +ℤ h ≡ b +ℤ k
exchange a b u v h k p q = grind (int_laws, p, q)

-- One request is rewritten: the accounts stay if what its balance loses is what it gains.
pub rewrite-Conserves :
    (id : String) (f : RequestRow → RequestRow) (row : RequestRow) (d now : Db)
    → HasUniqueIds d
    → find (is_request id) d.requests ≡ some row
    → ((r : RequestRow) → (f r).id ≡ r.id)
    → now.requests ≡ update_where (is_request id) f d.requests
    → ((e l : String)
        → days_or_zero (find (is_balance e l) now.balances) +ℤ weight e l (f row)
          ≡ days_or_zero (find (is_balance e l) d.balances) +ℤ weight e l row)
    → Conserves d now
rewrite-Conserves id f row d now unique found key requests moved = record {
  same_accounts = λ e l. rw requests (
      exchange (days_or_zero (find (is_balance e l) now.balances))
        (days_or_zero (find (is_balance e l) d.balances)) (weight e l row) (weight e l (f row)) _ _
        (moved e l) (held-update_where e l id f row d.requests (unique.at_most_one id) found));
  still_unique = record {
    at_most_one = λ j.
        rw (requests, count_where-update_where j (is_request id) f d.requests key)
          (unique.at_most_one j);
  };
}

closed_weight :
    (c : Closing) (e l : String) (time : ℕ) (row : RequestRow)
    → weight e l (saved (closed_at c time row.request) row) ≡ pos 0
closed_weight Closing.rejecting e l time row =
    no_weight e l (saved (closed_at Closing.rejecting time row.request) row) refl
closed_weight Closing.cancelling e l time row =
    no_weight e l (saved (closed_at Closing.cancelling time row.request) row) refl

pub close-Conserves :
    (c : Closing) (id : String) (w : World) → HasUniqueIds w.db → Conserves w.db (close c id w).1.db
close-Conserves c id w unique = elim (Option-cases (obstacle (request_in id w))) [
  | inr (code, stopped) ↦
      rw (refused c id w code stopped) (same-Conserves w.db w.db unique refl refl)
  | inl clear ↦ elim (Option-cases (request_in id w)) [
    | inl absent ↦ absurd (ground arith)
    | inr (row, found) ↦
        let is_open : row.status ≡ pending = ground arith in
        let own : row.id ≡ id =
          (eq_iff row.id id).0 (find_holds (is_request id) w.db.requests row found) in
        rw (close_run c id row w found is_open) (
          rewrite-Conserves id (saved (closed_at c (clock w) row.request)) row w.db _ unique found
            (λ r. refl) (rw own refl)
            (λ e l.
              rw (closed_weight c e l (clock w) row, no_weight e l row (rw is_open refl)) refl))
  ]
]
