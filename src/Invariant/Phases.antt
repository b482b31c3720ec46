-- ===== src/Invariant/Phases.antt =====
-- The phases that a request does not leave, under calls and runs of the worker
-- (shared/domain/request-status.policy.ts, timeoff-requests.repository.ts).
use timeoff_request.Base.{◌≡◌, String, some, true, false, ◌==◌, List, [], inl, inr, Bool-cases}
use timeoff_request.Base.All.{All-map}
use timeoff_request.Base.Table.{find}
use timeoff_request.Store.Rows.{Db, RequestRow, is_request}
use timeoff_request.Store.World.{World}
use timeoff_request.Hcm.Overlap
use timeoff_request.Hcm.Overlap.{System, Turn}
use timeoff_request.Invariant.Writes.{Carries, is_taken_up, IsGranted}
use timeoff_request.Invariant.Lifecycle.{is_closed, IsClosed, IsClosed-Writes, same_row}
use timeoff_request.Invariant.Granted.{
  IsLinked, play-IsInPhase, taken_up_not_pending, granted_not_closed,
}
use timeoff_request.Invariant.Overlap.{play-Keeps}

linked-IsClosed :
    (id : String) (row : RequestRow) (d : Db)
    → IsLinked d
    → find (is_request id) d.requests ≡ some row
    → is_closed row.status ≡ true
    → IsClosed id row d
linked-IsClosed id row d h found closed = record {
  found = found;
  closed = closed;
  unnamed =
      All-map (Carries (λ j. IsGranted j d)) (Carries (λ j. (j == id) ≡ false))
        (λ r carries j names. elim (Bool-cases (j == id)) [
          | inl same ↦
              let g = carries j names in
              let e = same_row j id g.row row d.requests same g.found found in
              absurd (granted_not_closed row.status (rw (← e) g.holds) closed)
          | inr apart ↦ apart
        ])
        d.sync_events h.linked;
}

-- Every event that names a request names one that was approved, and no run of the worker is under
-- way. Then, whatever calls come and however runs of the worker overlap with them: a request that was
-- rejected or cancelled keeps its row as it is, and a request that is APPROVED, SYNCED or REVERSED is
-- afterwards APPROVED, SYNCED or REVERSED.
pub phases_are_final :
    (turns : List Turn) (w : World) (id : String) (row : RequestRow)
    → IsLinked w.db
    → find (is_request id) w.db.requests ≡ some row
    → let d = (Overlap.play turns (record { runs = []; world = w })).world.db in
      (is_closed row.status ≡ true → find (is_request id) d.requests ≡ some row)
      × (is_taken_up row.status ≡ true
          → (now : RequestRow) × (find (is_request id) d.requests ≡ some now)
            × (is_taken_up now.status ≡ true))
phases_are_final turns w id row h found = (
  λ closed.
      (play-Keeps (IsClosed id row) (IsClosed-Writes id row) turns (record { runs = []; world = w })
        (tt, linked-IsClosed id row w.db h found closed)).1.found,
  λ taken_up.
      let k =
        play-IsInPhase is_taken_up taken_up_not_pending (λ s k. k) id turns
          (record { runs = []; world = w })
          (record { row = row; found = found; holds = taken_up }) in
      (k.row, k.found, k.holds),
)
