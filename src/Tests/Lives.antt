-- ===== src/Tests/Lives.antt =====
-- The life cycle of requests under overlapping runs of the worker.
use mathlib.Core.Path.{subst}
use timeoff_request.Base.{String, ◌≡◌, refl, some, true, List, [], ◌∷◌}
use timeoff_request.Base.Table.{find}
use timeoff_request.Domain.Status.{approved, rejected}
use timeoff_request.Store.Rows.{RequestRow, is_request}
use timeoff_request.Store.World.{World}
use timeoff_request.Api.{Call}
use timeoff_request.Hcm.Overlap
use timeoff_request.Hcm.Overlap.{Turn}
use timeoff_request.Invariant.Writes.{is_taken_up, IsGranted}
use timeoff_request.Invariant.Lifecycle.{is_closed}
use timeoff_request.Invariant.Granted.{IsLinked, play-IsLinked}
use timeoff_request.Invariant.Phases.{phases_are_final}
use timeoff_request.Tests.Sample.{row}
use timeoff_request.Tests.Overlaps.{approved_row, remote}

abbrev rejected_row : RequestRow
rejected_row = record row { request = record row.request { id = "r2"; status = rejected } }

-- an approved request with its event, and a rejected one
abbrev two : World
two = record remote { db = record remote.db { requests = approved_row ∷ rejected_row ∷ [] } }

two-IsGranted : (id : String) → some "r1" ≡ some id → IsGranted id two.db
unfolding find
two-IsGranted id names =
    let same : "r1" ≡ id = cc in
    subst (λ j. IsGranted j two.db) same (record { row = approved_row; found = refl; holds = refl })

two-IsLinked : IsLinked two.db
two-IsLinked = record { linked = (two-IsGranted, tt) }

-- the worker, an attempt to approve and to cancel the rejected request, and what follows the answer
abbrev turns : List Turn
turns =
    Turn.starts 10
    ∷ Turn.serves (Call.approve "r2")
    ∷ Turn.serves (Call.cancel "r2")
    ∷ Turn.resumes 0
    ∷ []

play-IsLinked_example : IsLinked (Overlap.play turns (record { runs = []; world = two })).world.db
play-IsLinked_example = play-IsLinked turns (record { runs = []; world = two }) two-IsLinked

phases_are_final_example :
    let d = (Overlap.play turns (record { runs = []; world = two })).world.db in
    (is_closed approved ≡ true → find (is_request "r1") d.requests ≡ some approved_row)
    × (is_taken_up approved ≡ true
        → (now : RequestRow) × (find (is_request "r1") d.requests ≡ some now)
          × (is_taken_up now.status ≡ true))
unfolding find
phases_are_final_example = phases_are_final turns two "r1" approved_row two-IsLinked refl
