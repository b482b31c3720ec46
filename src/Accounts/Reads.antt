-- ===== src/Accounts/Reads.antt =====
-- Calls that write no request: `getById`, `getBalance` and the error filter
-- (src/modules/balances/balances.service.ts, src/filters/domain-error.filter.ts).
use timeoff_request.Base.{
  ◌≡◌, refl, ap, String, none, ◌==◌, ◌&&◌, arith, inl, inr, Bool-cases, Option-cases,
}
use timeoff_request.Base.Int.{pos, ◌+ℤ◌}
use timeoff_request.Base.Table.{find}
use timeoff_request.Domain.Errors.{Error, domain}
use timeoff_request.Store.Rows.{is_balance}
use timeoff_request.Store.World.{World}
use timeoff_request.Balances
use timeoff_request.Balances.Rows.{
  upsert_absolute_stores, after_upsert, find-upsert, key_paths, clock,
}
use timeoff_request.Observability
use timeoff_request.Requests.Service
use timeoff_request.Requests.Repository
use timeoff_request.Api
use timeoff_request.Api.{Call, Reply}
use timeoff_request.Accounts.Held.{held, HasUniqueIds, days_or_zero}
use timeoff_request.Accounts.Effects.{Conserves, same-Conserves}

pub filter_error-Conserves :
    (e : Error) (w : World) → HasUniqueIds w.db → Conserves w.db (Api.filter_error e w).1.db
unfolding Api.filter_error Observability.log_at Observability.insert_log
filter_error-Conserves (domain code) w unique = same-Conserves w.db _ unique refl refl
filter_error-Conserves _ w unique = same-Conserves w.db w.db unique refl refl

-- the row that `getBalance` inserts has no days
nothing_added :
    (e l j k : String) (w : World)
    → find (is_balance e l) w.db.balances ≡ none
    → days_or_zero (find (is_balance j k) (after_upsert e l (pos 0) w).db.balances)
      ≡ days_or_zero (find (is_balance j k) w.db.balances)
nothing_added e l j k w absent = elim (Bool-cases (e == j && l == k)) [
  | inr apart ↦ rw (find-upsert e l j k (pos 0) (clock w) w.db.balances, apart) refl
  | inl same ↦
      let (p, q) = key_paths e l j k same in
      rw (find-upsert e l j k (pos 0) (clock w) w.db.balances, same, absent, ← p, ← q, absent) refl
]

pub get_balance-Conserves :
    (e l : String) (w : World)
    → HasUniqueIds w.db
    → Conserves w.db (Balances.get_balance e l w).1.db
unfolding Balances.get_balance Balances.get
get_balance-Conserves e l w unique = elim (Option-cases (find (is_balance e l) w.db.balances)) [
  | inr (b, there) ↦ rw there (same-Conserves w.db w.db unique refl refl)
  | inl absent ↦ rw absent (
      rw (upsert_absolute_stores e l (pos 0) w refl) (record {
        same_accounts =
            λ j k. ap (λ x. x +ℤ held j k w.db.requests) (nothing_added e l j k w absent);
        still_unique = record { at_most_one = unique.at_most_one };
      }))
]

pub find_by_id_reads : (id : String) (w : World) → (Service.find_by_id id w).1.db ≡ w.db
unfolding Service.find_by_id Repository.find_by_id
find_by_id_reads id w = ground arith
