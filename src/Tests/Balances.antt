-- ===== src/Tests/Balances.antt =====
-- Absolute and relative changes of a balance in the sample world.
use timeoff_request.Base.{◌≡◌, String, some, true, false, ◌&&◌, ◌==◌, if◌then◌else◌}
use timeoff_request.Base.Int.{pos, negsuc, ◌+ℤ◌, leb_ℤ}
use timeoff_request.Domain.Errors.{ok, err, sqlite, check}
use timeoff_request.Store.Rows.{Balance}
use timeoff_request.Balances.{upsert_absolute, apply_delta}
use timeoff_request.Balances.Delta.{
  row_of, stored, SameButBalances, days_before, upsert_absolute_lem, apply_delta_lem,
}
use timeoff_request.Tests.Sample.{world}

upsert_absolute_lem_example :
    let (r, w') = upsert_absolute "e1" "l1" (pos 7) world in
    (r
      ≡ (if leb_ℤ (pos 0) (pos 7) then ok (stored "e1" "l1" (pos 7) world) else err (sqlite check)))
    × ((j k : String)
        → row_of j k w' ≡ (
            if ("e1" == j && "l1" == k) && leb_ℤ (pos 0) (pos 7)
            then some (stored "e1" "l1" (pos 7) world)
            else row_of j k world))
    × SameButBalances world w'
upsert_absolute_lem_example = upsert_absolute_lem "e1" "l1" (pos 7) world

apply_delta_lem_example :
    let (r, w') = apply_delta "e1" "l1" (negsuc 3) world in
    let sum = days_before (row_of "e1" "l1" world) +ℤ negsuc 3 in
    (leb_ℤ (pos 0) sum ≡ true
      → (b : Balance) × (r ≡ ok b) × (row_of "e1" "l1" w' ≡ some b) × (b.available_days ≡ sum))
    × (leb_ℤ (pos 0) sum ≡ false
        → (r ≡ err (sqlite check))
          × (days_before (row_of "e1" "l1" w') ≡ days_before (row_of "e1" "l1" world)))
    × ((j k : String) → ("e1" == j && "l1" == k) ≡ false → row_of j k w' ≡ row_of j k world)
    × SameButBalances world w'
apply_delta_lem_example = apply_delta_lem "e1" "l1" (negsuc 3) world
