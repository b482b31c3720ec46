-- ===== src/Hcm/Convergence.antt =====
-- `reconcileOne` (services/batch-sync.service.ts) brings the local balance to what the HCM says.
use timeoff_request.Base.{◌≡◌, sym, String, true, false, ◌||◌, ◌==◌, arith, inl, inr, Bool-cases}
use timeoff_request.Base.Int.{ℤ, pos, leb_ℤ}
use timeoff_request.Base.Table.{count_where}
use timeoff_request.Domain.Errors.{ok}
use timeoff_request.Store.World.{World}
use timeoff_request.Balances.Delta.{row_of}
use timeoff_request.Requests.Repository.{drifts}
use timeoff_request.Hcm.Client.{known}
use timeoff_request.Hcm.Reconcile.{
  days_at as local_days_of, differs, repair, compare_with, reconcile_one,
}
use mathlib.Core.Path.{subst}
use timeoff_request.Hcm.Drift.{
  get_balance-frame, asked, given, reconcile_run, report, IsRepaired, repair-IsRepaired,
  compare_repairs, repaired_agrees,
}

module _ (e l : String) (w : World) (days : ℤ) (valid : (e == "" || l == "") ≡ false)
    (answer : asked e l w ≡ ok (known days)) where
  drift_case :
      leb_ℤ (pos 0) days ≡ true
      → differs (row_of e l w) days ≡ true
      → let (r, w') = reconcile_one e l w in
        (r ≡ ok (report e l (row_of e l w) days (count_where (drifts e l) w.db.requests)))
        × IsRepaired e l (local_days_of (row_of e l w)) days w.db w'.db
  drift_case fits drift =
      let d = local_days_of (row_of e l w) in
      let run = reconcile_run e l w (known days) valid answer in
      let (r, s) = compare_repairs e l (row_of e l w) days (given e l w) fits drift in
      let (same, _) = get_balance-frame e l w in
      let last : (reconcile_one e l w).1.db ≡ (repair e l d days (given e l w)).1.db =
        ground (arith, run, s) in
      (
        ground (arith, run, r, same),
        subst (IsRepaired e l d days w.db) (sym last) (
            subst (λ b. IsRepaired e l d days b (repair e l d days (given e l w)).1.db) same
              (repair-IsRepaired e l d days (given e l w) fits)),
      )

  same_case :
      differs (row_of e l w) days ≡ false
      → let (r, w') = reconcile_one e l w in
        (r ≡ ok (report e l (row_of e l w) days 0)) × (w'.db ≡ w.db)
  unfolding compare_with
  same_case same =
      let run = reconcile_run e l w (known days) valid answer in
      let (frame, _) = get_balance-frame e l w in (ground (arith, run), ground (arith, run, frame))

-- The HCM names an amount of zero or more. If the local row is missing or has other days, the
-- report says so, with the number of open requests of the key, and the database is repaired
-- (`IsRepaired`); otherwise no table is written. Either way the local days then agree, so that the
-- same answer again would find no difference.
pub reconcile_converges :
    (e l : String) (w : World) (days : ℤ)
    → (e == "" || l == "") ≡ false
    → asked e l w ≡ ok (known days)
    → leb_ℤ (pos 0) days ≡ true
    → let (r, w') = reconcile_one e l w in
      (differs (row_of e l w) days ≡ true
        → (r ≡ ok (report e l (row_of e l w) days (count_where (drifts e l) w.db.requests)))
          × IsRepaired e l (local_days_of (row_of e l w)) days w.db w'.db)
      × (differs (row_of e l w) days ≡ false
          → (r ≡ ok (report e l (row_of e l w) days 0)) × (w'.db ≡ w.db))
      × (differs (row_of e l w') days ≡ false)
reconcile_converges e l w days valid answer fits =
    let drifted = drift_case e l w days valid answer fits in
    let kept = same_case e l w days valid answer in
    (
      drifted,
      kept,
      elim (Bool-cases (differs (row_of e l w) days)) [
        | inl drift ↦
            repaired_agrees e l days (row_of e l (reconcile_one e l w).1)
              (drifted drift).1.balance_days
        | inr same ↦ ground (arith, (kept same).1)
      ],
    )
