-- ===== src/Hcm/Overlap.antt =====
-- `processDueEvents` of workers/outbound-sync.worker.ts cut at its `await`: other calls, and other
-- runs of the worker, may come between the call of the HCM client and what follows its answer.
use timeoff_request.Base.{ℕ, zero, suc, ◌+◌, Option, none, some, List, [], ◌∷◌, ◌++◌}
use timeoff_request.Domain.Errors.{Error, Result, ok, err, type_error}
use timeoff_request.Store.Rows.{SyncEventRow}
use timeoff_request.Store.World.{World, Action, lift, run_in_context, try_catch, ◌>>◌}
use timeoff_request.Balances.Rows.{ticked, clock}
use timeoff_request.Requests.Repository.{list_due_outbound_sync_events}
use timeoff_request.Hcm.Client
use timeoff_request.Hcm.Worker
use timeoff_request.Api.{Call, respond}

-- an event that the client was called for, and what the promise comes to
pub record Flight : Type 0 where
  pub event : SyncEventRow
  pub payload : Worker.OutboundPayload
  pub started_at : ℕ
  pub answer : Result Unit

-- the body of `for (const event of due)` down to the `await`
unfoldable pub send : SyncEventRow → Worker.OutboundPayload → World → Flight × World
send event payload w =
    let (answer, w') =
      Client.submit_approved_usage payload.employee_id payload.location_id payload.days
        (ticked (record w { trace = some (Worker.context_of event payload.trace) })) in
    (
      record { event = event; payload = payload; started_at = clock w; answer = answer },
      record w' { trace = w.trace },
    )

-- the rest of the body
unfoldable pub settle : Flight → Action ℕ
settle flight = run_in_context (Worker.context_of flight.event flight.payload.trace) (
    try_catch (lift flight.answer >> Worker.complete flight.event flight.started_at)
      (Worker.give_up_or_retry flight.event))

-- a run of the worker: at an `await`, with the events and the count that are left to it, or over
pub data Run : Type 0 where
  waiting : Flight → List SyncEventRow → ℕ → Run
  finished : ℕ → Run
  thrown : Error → Run

abbrev pub ended : Result ℕ → Run
ended (ok n) = finished n
ended (err e) = thrown e

abbrev pub sent_on : List SyncEventRow → ℕ → Flight × World → Run × World
sent_on due n (flight, w) = (waiting flight due n, w)

abbrev pub send_parsed :
    SyncEventRow → List SyncEventRow → ℕ → Option Worker.OutboundPayload → World → Run × World
send_parsed event due n none w = (thrown type_error, w)
send_parsed event due n (some payload) w = sent_on due n (send event payload w)

-- on to the next `await`, or to the end
unfoldable pub advance : List SyncEventRow → ℕ → World → Run × World
advance [] n w = (finished n, w)
advance (event ∷ due) n w = send_parsed event due n (Worker.parse_payload event.payload_hash) w

abbrev pub advance_from : List SyncEventRow → ℕ → Result ℕ × World → Run × World
advance_from due n (ok one, w) = advance due (n + one) w
advance_from due n (err e, w) = (thrown e, w)

-- the answer of the client has come
unfoldable pub resume : Run → World → Run × World
unfolding settle
resume (waiting flight due n) w = advance_from due n (settle flight w)
resume run w = (run, w)

abbrev pub advance_over : Result (List SyncEventRow) × World → Run × World
advance_over (ok due, w) = advance due 0 w
advance_over (err e, w) = (thrown e, w)

-- a call of `processDueEvents`
unfoldable pub start : ℕ → World → Run × World
start limit w = advance_over (list_due_outbound_sync_events limit w)

-- a run to which nothing comes in between
unfoldable pub alone : ℕ → Run × World → Run × World
unfolding resume
alone zero (run, w) = (run, w)
alone (suc rounds) (run, w) = alone rounds (resume run w)

-- the runs that were started, in that order, and the world they share
pub record System : Type 0 where
  pub runs : List Run
  pub world : World

pub data Turn : Type 0 where
  starts : ℕ → Turn
  -- the run at this position
  resumes : ℕ → Turn
  -- another call, without a pause
  serves : Call → Turn

abbrev pub begun : List Run → Run × World → System
begun runs (run, w) = record { runs = runs ++ run ∷ []; world = w }

abbrev pub put_first : List Run → Run × World → System
put_first runs (run, w) = record { runs = run ∷ runs; world = w }

abbrev pub keep_first : Run → System → System
keep_first run s = record s { runs = run ∷ s.runs }

unfoldable pub resume_at : ℕ → List Run → World → System
resume_at n [] w = record { runs = []; world = w }
resume_at zero (run ∷ runs) w = put_first runs (resume run w)
resume_at (suc n) (run ∷ runs) w = keep_first run (resume_at n runs w)

unfoldable pub turn : Turn → System → System
turn (starts limit) s = begun s.runs (start limit s.world)
turn (resumes n) s = resume_at n s.runs s.world
turn (serves call) s = record s { world = (respond call s.world).1 }

-- a history of turns
unfoldable pub play : List Turn → System → System
unfolding turn
play [] s = s
play (t ∷ turns) s = play turns (turn t s)
