-- ===== src/Invariant/Overlap.antt =====
-- Every interleaving of calls with runs of the outbound worker that are cut at their `await`s keeps
-- what the statements keep.
use timeoff_request.Base.{String, ℕ, zero, suc, ◌+◌, ◌≡◌, Option, none, some, List, [], ◌∷◌, take}
use timeoff_request.Base.All.{All, All-concat}
use timeoff_request.Hcm.Due.{all_due}
use timeoff_request.Domain.Errors.{Result, ok, err}
use timeoff_request.Store.Rows.{Db, SyncEventRow}
use timeoff_request.Store.World.{World}
use timeoff_request.Store.Keeps.{Keeps, keeps_rules}
use timeoff_request.Balances.Rows.{ticked}
use timeoff_request.Requests.Repository.{list_due_outbound_sync_events}
use timeoff_request.Invariant.Writes.{Writes, Carries, plain, All-Carries}
use timeoff_request.Invariant.Calls.{
  complete-Keeps, give_up_or_retry-Keeps, due-kinds, respond-Keeps,
}
use timeoff_request.Hcm.Worker
use timeoff_request.Hcm.Attempt.{submit-db}
use timeoff_request.Hcm.Overlap
use timeoff_request.Hcm.Overlap.{Run, waiting, finished, thrown, Flight, Turn, System}
use timeoff_request.Invariant.Sound.{IsSound, IsSound-Writes}

-- sending writes no table
pub send-db :
    (event : SyncEventRow) (payload : Worker.OutboundPayload) (w : World)
    → (Overlap.send event payload w).1.db ≡ w.db
unfolding Overlap.send
send-db event payload w =
    submit-db payload.employee_id payload.location_id payload.days
      (ticked (record w { trace = some (Worker.context_of event payload.trace) }))

module _ (P : Db → Type 0) (laws : Writes P) where
  settle-Keeps :
      (flight : Flight) → Carries laws.Kind flight.event → Keeps P (Overlap.settle flight)
  unfolding Overlap.settle
  settle-Keeps flight kind = search (keeps_rules, complete-Keeps, give_up_or_retry-Keeps) depth 12

  -- what a run has taken names requests of the kind only
  abbrev pub Taken : Run → Type 0
  Taken (waiting flight due n) = Carries laws.Kind flight.event × All (Carries laws.Kind) due
  Taken _ = Unit

  -- the predicate of the database, and the runs that are under way
  abbrev Kept : Run × World → Type 0
  Kept (run, w) = Taken run × P w.db

  send_parsed-keeps :
      (event : SyncEventRow) (due : List SyncEventRow) (n : ℕ)
      (payload : Option Worker.OutboundPayload) (w : World)
      → Carries laws.Kind event
      → All (Carries laws.Kind) due
      → P w.db
      → Kept (Overlap.send_parsed event due n payload w)
  unfolding Overlap.send
  send_parsed-keeps event due n none w kind kinds h = (tt, h)
  send_parsed-keeps event due n (some payload) w kind kinds h =
      ((kind, kinds), rw (send-db event payload w) h)

  advance-keeps :
      (due : List SyncEventRow) (n : ℕ) (w : World)
      → All (Carries laws.Kind) due
      → P w.db
      → Kept (Overlap.advance due n w)
  unfolding Overlap.advance
  advance-keeps [] n w kinds h = (tt, h)
  advance-keeps (event ∷ due) n w kinds h =
      send_parsed-keeps event due n (Worker.parse_payload event.payload_hash) w kinds.0 kinds.1 h

  advance_from-keeps :
      (due : List SyncEventRow) (n : ℕ) (r : Result ℕ × World)
      → All (Carries laws.Kind) due
      → P r.1.db
      → Kept (Overlap.advance_from due n r)
  advance_from-keeps due n (ok one, w) kinds h = advance-keeps due (n + one) w kinds h
  advance_from-keeps due n (err e, w) kinds h = (tt, h)

  resume-keeps : (run : Run) (w : World) → Taken run → P w.db → Kept (Overlap.resume run w)
  unfolding Overlap.resume
  resume-keeps (waiting flight due n) w taken h =
      advance_from-keeps due n (Overlap.settle flight w) taken.1
        ((settle-Keeps flight taken.0).at w h)
  resume-keeps (finished n) w taken h = (tt, h)
  resume-keeps (thrown e) w taken h = (tt, h)

  start-keeps : (limit : ℕ) (w : World) → P w.db → Kept (Overlap.start limit w)
  unfolding Overlap.start list_due_outbound_sync_events
  start-keeps limit w h =
      advance-keeps (take limit (all_due w)) 0 (ticked w) (due-kinds P laws limit w h) h

  abbrev pub KeptSystem : System → Type 0
  KeptSystem s = All Taken s.runs × P s.world.db

  resume_at-keeps :
      (n : ℕ) (runs : List Run) (w : World)
      → All Taken runs
      → P w.db
      → KeptSystem (Overlap.resume_at n runs w)
  unfolding Overlap.resume_at
  resume_at-keeps n [] w taken h = (tt, h)
  resume_at-keeps zero (run ∷ runs) w taken h =
      let (now_taken, p) = resume-keeps run w taken.0 h in ((now_taken, taken.1), p)
  resume_at-keeps (suc n) (run ∷ runs) w taken h =
      let (rest, p) = resume_at-keeps n runs w taken.1 h in ((taken.0, rest), p)

  turn-keeps : (t : Turn) (s : System) → KeptSystem s → KeptSystem (Overlap.turn t s)
  unfolding Overlap.turn
  turn-keeps (Turn.starts limit) s h =
      let (run, w) = Overlap.start limit s.world in
      let (taken, p) = start-keeps limit s.world h.1 in (All-concat Taken s.runs run h.0 taken, p)
  turn-keeps (Turn.resumes n) s h = resume_at-keeps n s.runs s.world h.0 h.1
  turn-keeps (Turn.serves call) s h = (h.0, respond-Keeps P laws call s.world h.1)

  pub play-Keeps :
      (turns : List Turn) (s : System) → KeptSystem s → KeptSystem (Overlap.play turns s)
  unfolding Overlap.play
  play-Keeps [] s h = h
  play-Keeps (t ∷ turns) s h = play-Keeps turns (Overlap.turn t s) (turn-keeps t s h)

-- a kind that every request has
pub All-Taken :
    (P : Db → Type 0) (laws : Writes P)
    → ((id : String) → laws.Kind id)
    → (runs : List Run) → All (Taken P laws) runs
All-Taken P laws kind [] = tt
All-Taken P laws kind (waiting flight due n ∷ runs) =
    ((λ id names. kind id, All-Carries laws.Kind kind due), All-Taken P laws kind runs)
All-Taken P laws kind (finished n ∷ runs) = (tt, All-Taken P laws kind runs)
All-Taken P laws kind (thrown e ∷ runs) = (tt, All-Taken P laws kind runs)

-- From a database in which no balance is negative and every request is for a positive number of
-- days, every history of calls and of runs of the worker that overlap at their `await`s leads to
-- such a database.
pub play-IsSound :
    (turns : List Turn) (s : System) → IsSound s.world.db → IsSound (Overlap.play turns s).world.db
unfolding plain
play-IsSound turns s h =
    let laws = plain IsSound IsSound-Writes in
    (play-Keeps IsSound laws turns s (All-Taken IsSound laws (λ id. tt) s.runs, h)).1
