-- ===== src/Tests/Reconciliations.antt =====
-- Reconciliations in the sample world.
use timeoff_request.Base.{◌≡◌, refl, true, false, inr, ◌∷◌, []}
use timeoff_request.Base.Int.{pos}
use timeoff_request.Base.Table.{map_get, count_where}
use timeoff_request.Domain.Errors.{ok, err, domain, hcm_unavailable}
use timeoff_request.Store.World.{World}
use timeoff_request.Balances.{balance_key}
use timeoff_request.Balances.Delta.{row_of}
use timeoff_request.Requests.Repository.{drifts}
use timeoff_request.Hcm.Client
use timeoff_request.Hcm.Client.{known, unavailable}
use timeoff_request.Hcm.Reconcile.{days_at, differs, reconcile_one}
use timeoff_request.Hcm.Drift.{report, IsRepaired, reconcile_fails}
use timeoff_request.Hcm.Convergence.{reconcile_converges}
use timeoff_request.Tests.Sample.{world}

-- the HCM is not there
abbrev cut_off : World
cut_off = record world { hcm = record world.hcm { unavailable = true } }

reconcile_fails_example :
    ((reconcile_one "e1" "l1" cut_off).0 ≡ err (domain hcm_unavailable))
    × ((reconcile_one "e1" "l1" cut_off).1.db ≡ cut_off.db)
unfolding Client.get_balance
reconcile_fails_example =
    reconcile_fails "e1" "l1" cut_off (domain hcm_unavailable) refl (inr (unavailable, refl, refl))

-- the HCM has twelve days
abbrev drifted : World
drifted = record world { hcm = record world.hcm { balances = ("e1::l1", pos 12) ∷ [] } }

reconcile_converges_example :
    let (r, w') = reconcile_one "e1" "l1" drifted in
    (differs (row_of "e1" "l1" drifted) (pos 12) ≡ true
      → (r
          ≡ ok (
              report "e1" "l1"
                (row_of "e1" "l1" drifted)
                (pos 12)
                (count_where (drifts "e1" "l1") drifted.db.requests)))
        × IsRepaired "e1" "l1" (days_at (row_of "e1" "l1" drifted)) (pos 12) drifted.db w'.db)
    × (differs (row_of "e1" "l1" drifted) (pos 12) ≡ false
        → (r ≡ ok (report "e1" "l1" (row_of "e1" "l1" drifted) (pos 12) 0)) × (w'.db ≡ drifted.db))
    × (differs (row_of "e1" "l1" w') (pos 12) ≡ false)
unfolding Client.get_balance balance_key map_get
reconcile_converges_example = reconcile_converges "e1" "l1" drifted (pos 12) refl refl refl
