-- ===== src/Hcm/Drift.antt =====
-- `reconcileOne` (services/batch-sync.service.ts): the local balance follows the HCM, a difference
-- is recorded, and without an answer of the HCM nothing is written.
use mathlib.Core.Option
use timeoff_request.Base.{
  ℕ, ◌+◌, ◌≡◌, refl, String, Option, none, some, true, false, not, ◌&&◌, ◌||◌, ◌==◌, [], ◌∷◌, ◌++◌,
  arith, ◌⊎◌, inl, inr, if◌then◌else◌,
}
use timeoff_request.Base.Int.{ℤ, pos, leb_ℤ, int_eqb_iff}
use timeoff_request.Base.Table.{find, update_where, count_where}
use timeoff_request.Domain.Errors.{
  Error, Result, ok, err, domain, hcm_unavailable, invalid_dimensions, sqlite, check,
}
use timeoff_request.Store.Rows.{Db, Balance, is_balance}
use timeoff_request.Store.World.{World}
use timeoff_request.Balances
use timeoff_request.Balances.Rows.{
  clock, ticked, upsert_absolute_stores, upsert_absolute_refuses, find-upsert, find-upsert_self,
}
use timeoff_request.Balances.Delta.{row_of}
use timeoff_request.Requests.Repository.{drifts, flagged, flag_requests_for_drift}
use timeoff_request.Observability
use timeoff_request.Hcm.Client
use timeoff_request.Hcm.Client.{HcmBalance, known, undefined, unavailable}
use timeoff_request.Hcm.Rows.{stored-days}
use timeoff_request.Hcm.Reconcile.{
  Reconciliation, days_at as local_days_of, differs, drift_event, repair, compare_with,
  reconcile_one,
}

-- asking the HCM writes no table and takes no time
pub get_balance-frame :
    (e l : String) (w : World)
    → let w' = (Client.get_balance e l w).1 in (w'.db ≡ w.db) × (clock w' ≡ clock w)
unfolding Client.get_balance Client.fetch
get_balance-frame e l w = (ground arith, ground arith)

-- the answer of the HCM
abbrev pub asked : String → String → World → Result HcmBalance
asked e l w = (Client.get_balance e l w).0

abbrev pub given : String → String → World → World
given e l w = (Client.get_balance e l w).1

pub reconcile_run :
    (e l : String) (w : World) (a : HcmBalance)
    → (e == "" || l == "") ≡ false
    → asked e l w ≡ ok a
    → reconcile_one e l w ≡ compare_with e l (row_of e l w) a (given e l w)
unfolding reconcile_one Balances.get
reconcile_run e l w a valid answer = ground arith

-- why a reconciliation must fail, if it must
abbrev pub failure_of : Option Balance → HcmBalance → Option Error
failure_of local_row unavailable = some (domain hcm_unavailable)
failure_of local_row undefined = some (domain invalid_dimensions)
failure_of local_row (known days) =
    if differs local_row days && not (leb_ℤ (pos 0) days) then some (sqlite check) else none

repair_refuses :
    (e l : String) (d : Option ℤ) (days : ℤ) (w : World)
    → leb_ℤ (pos 0) days ≡ false
    → repair e l d days w ≡ (err (sqlite check), ticked w)
unfolding repair
repair_refuses e l d days w refused = ground (arith, upsert_absolute_refuses e l days w)

-- What a repair leaves: the days of the HCM at the key, every other key as it was, one more drift
-- event, and the open requests of the key flagged.
pub record IsRepaired (e l : String) (d : Option ℤ) (days : ℤ) (before now : Db) : Type 0 where
  pub drift_at : ℕ
  pub flagged_at : ℕ
  pub balance_days :
      Option.map (λ b. b.available_days) (find (is_balance e l) now.balances) ≡ some days
  pub other_balances :
      (j k : String)
      → (e == j && l == k) ≡ false
      → find (is_balance j k) now.balances ≡ find (is_balance j k) before.balances
  pub drift_recorded :
      now.drift_events ≡ before.drift_events ++ drift_event e l d days drift_at ∷ []
  pub requests_flagged :
      now.requests ≡ update_where (drifts e l) (flagged flagged_at) before.requests

module _ (e l : String) (d : Option ℤ) (days : ℤ) (w : World)
    (fits : leb_ℤ (pos 0) days ≡ true) where
  repair_returns : (repair e l d days w).0 ≡ ok (count_where (drifts e l) w.db.requests)
  unfolding repair flag_requests_for_drift Observability.inc Observability.log_at
  repair_returns = ground (arith, upsert_absolute_stores e l days w)

  pub repair-IsRepaired : IsRepaired e l d days w.db (repair e l d days w).1.db
  unfolding repair flag_requests_for_drift Observability.inc Observability.log_at
  repair-IsRepaired = record {
    drift_at = w.env.times (w.env.time_reads + 1 + 1);
    flagged_at = w.env.times (w.env.time_reads + 1);
    balance_days = ground (
      arith,
      upsert_absolute_stores e l days w,
      find-upsert_self e l days (clock w) w.db.balances,
      stored-days e l days w,
    );
    other_balances = λ j k apart. ground (
      arith,
      upsert_absolute_stores e l days w,
      find-upsert e l j k days (clock w) w.db.balances,
    );
    drift_recorded = ground (arith, upsert_absolute_stores e l days w);
    requests_flagged = ground (arith, upsert_absolute_stores e l days w);
  }

abbrev pub report : String → String → Option Balance → ℤ → ℕ → Reconciliation
report e l local_row days flagged_requests = record {
  employee_id = e;
  location_id = l;
  local_days = local_days_of local_row;
  hcm_days = days;
  updated = differs local_row days;
  flagged_requests = flagged_requests;
}

compare_fails :
    (e l : String) (local_row : Option Balance) (a : HcmBalance) (w : World) (x : Error)
    → failure_of local_row a ≡ some x
    → ((compare_with e l local_row a w).0 ≡ err x) × ((compare_with e l local_row a w).1.db ≡ w.db)
unfolding compare_with
compare_fails e l local_row unavailable w x h = (ground arith, refl)
compare_fails e l local_row undefined w x h = (ground arith, refl)
compare_fails e l local_row (known days) w x h = (
  ground (arith, repair_refuses e l (local_days_of local_row) days w),
  ground (arith, repair_refuses e l (local_days_of local_row) days w),
)

-- A reconciliation of two names that are not empty fails when the HCM cannot be asked, is
-- unavailable, does not know the balance, or names a negative amount other than the local one; it
-- throws what `failure_of` says (or what the client threw) and writes no table.
pub reconcile_fails :
    (e l : String) (w : World) (x : Error)
    → (e == "" || l == "") ≡ false
    → (asked e l w ≡ err x)
      ⊎ ((a : HcmBalance) × (asked e l w ≡ ok a) × (failure_of (row_of e l w) a ≡ some x))
    → ((reconcile_one e l w).0 ≡ err x) × ((reconcile_one e l w).1.db ≡ w.db)
unfolding reconcile_one Balances.get
reconcile_fails e l w x valid (inl thrown) =
    (ground arith, ground (arith, (get_balance-frame e l w).0))
reconcile_fails e l w x valid (inr (a, answer, failure)) =
    let (r, d) = compare_fails e l (row_of e l w) a (given e l w) x failure in
    let run = reconcile_run e l w a valid answer in
    (ground (arith, run, r), ground (arith, run, d, (get_balance-frame e l w).0))

pub compare_repairs :
    (e l : String) (local_row : Option Balance) (days : ℤ) (w : World)
    → leb_ℤ (pos 0) days ≡ true
    → differs local_row days ≡ true
    → ((compare_with e l local_row (known days) w).0
        ≡ ok (report e l local_row days (count_where (drifts e l) w.db.requests)))
      × ((compare_with e l local_row (known days) w).1.db
          ≡ (repair e l (local_days_of local_row) days w).1.db)
unfolding compare_with
compare_repairs e l local_row days w fits drift = (
  ground (arith, repair_returns e l (local_days_of local_row) days w fits),
  ground (arith, repair_returns e l (local_days_of local_row) days w fits),
)

pub repaired_agrees :
    (e l : String) (days : ℤ) (found : Option Balance)
    → Option.map (λ b. b.available_days) found ≡ some days
    → differs found days ≡ false
repaired_agrees e l days none h = ground arith
repaired_agrees e l days (some b) h = ground (arith, int_eqb_iff b.available_days days)
