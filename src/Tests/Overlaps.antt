-- ===== src/Tests/Overlaps.antt =====
-- Runs of the outbound worker that overlap, on a request that was approved and is not yet sent.
use timeoff_request.Base.{◌≡◌, refl, true, false, some, none, arith, [], ◌∷◌, ◌++◌}
use timeoff_request.Base.Int.{pos, ◌+ℤ◌}
use timeoff_request.Base.Table.{find, select, order_by}
use timeoff_request.Domain.Errors.{Error, ok, err, hcm, FailureKind}
use timeoff_request.Domain.Status.{approved}
use timeoff_request.Store.Rows.{
  Balance, RequestRow, SyncEventRow, uuid, outbound, queued, is_request, is_balance,
}
use timeoff_request.Store.World.{World, response}
use timeoff_request.Requests.Repository.{list_due_outbound_sync_events}
use timeoff_request.Requests.Service.{outbound_payload}
use timeoff_request.Hcm.Client
use timeoff_request.Hcm.Worker
use timeoff_request.Hcm.Overlap
use timeoff_request.Hcm.Overlap.{System, Turn, finished}
use timeoff_request.Balances.Rows.{ticked}
use timeoff_request.Hcm.Attempt.{IsStored, IsSynced, IsRetried, IsReversed, can_retry}
use timeoff_request.Hcm.Outcome.{answer, retry_time, retry_jitter}
use timeoff_request.Hcm.Alone.{run_alone}
use timeoff_request.Hcm.Twice.{status_after, given_back, consumption}
use timeoff_request.Hcm.Overlapping.{
  overlapping, Takes, first_send, second_send, overlapping_runs_lem,
}
use timeoff_request.Hcm.Liveness.{IsOver, attempts, attempts_end}
use timeoff_request.Hcm.Backoff.{parse_payload-outbound_payload}
use timeoff_request.Invariant.Sound.{IsSound}
use timeoff_request.Invariant.Overlap.{play-IsSound}
use timeoff_request.Tests.Sample.{row, balance, world}

abbrev pub approved_row : RequestRow
approved_row = record row { request = record row.request { status = approved } }

abbrev event : SyncEventRow
event = record {
  event = record {
    id = uuid "v";
    direction = outbound;
    external_event_id = "approve:r1";
    payload_hash = outbound_payload row.request none;
    status = queued;
    error = none;
    created_at = 8;
  };
  request_id = some "r1";
  attempt_count = 0;
  next_attempt_at = some 8;
  processed_at = none;
}

-- the HCM takes the days once and refuses the second time
abbrev pub remote : World
remote = record world {
  db = record world.db { requests = approved_row ∷ []; sync_events = event ∷ [] };
  env = record world.env {
    server = λ history r. elim history [ [] ↦ response 200 (pos 6) | _ ∷ _ ↦ response 409 (pos 6) ];
  };
  hcm = record world.hcm { base_url = some "http://hcm" };
}

abbrev payload : Worker.OutboundPayload
payload = record { employee_id = "e1"; location_id = "l1"; days = pos 4; trace = none }

parsed : Worker.parse_payload event.payload_hash ≡ some payload
parsed = parse_payload-outbound_payload row.request none

Takes-first_send : Takes 10 event remote
unfolding list_due_outbound_sync_events select order_by
Takes-first_send = refl

Takes-second_send : Takes 10 event (first_send event payload remote).1
unfolding list_due_outbound_sync_events select order_by Overlap.send Client.submit_approved_usage
Takes-second_send = refl

answered_first : (first_send event payload remote).0.answer ≡ ok tt
unfolding Overlap.send Client.submit_approved_usage
answered_first = refl

answered_second : (second_send event payload remote).0.answer ≡ err (hcm FailureKind.functional)
unfolding Overlap.send Client.submit_approved_usage
answered_second = refl

overlapping_runs_lem_example :
    let s = Overlap.play (overlapping 10 10) (record { runs = []; world = remote }) in
    (s.runs ≡ finished 1 ∷ finished 0 ∷ [])
    × (s.world.env.sent ≡ (remote.env.sent ++ consumption payload ∷ []) ++ consumption payload ∷ [])
    × ((r : RequestRow) × (find (is_request "r1") s.world.db.requests ≡ some r)
        × (r.status ≡ status_after (err (hcm FailureKind.functional))))
    × ((c : Balance) × (find (is_balance "e1" "l1") s.world.db.balances ≡ some c)
        × (c.available_days
            ≡ (balance.available_days +ℤ given_back (pos 4) (ok tt))
              +ℤ given_back (pos 4) (err (hcm FailureKind.functional))))
unfolding find
overlapping_runs_lem_example =
    overlapping_runs_lem event payload 10 10 remote "r1" approved_row balance (ok tt)
      (err (hcm FailureKind.functional)) parsed refl refl refl refl Takes-first_send
      Takes-second_send answered_first answered_second refl refl

remote-IsStored : IsStored event "r1" approved_row balance remote.db
unfolding find
remote-IsStored = record {
  event_found = refl;
  names_request = refl;
  request_found = refl;
  balance_found = refl;
}

run_alone_example :
    let (run, w') = Overlap.alone 10 (Overlap.start 10 remote) in
    let v = ticked remote in
    (answer event payload v ≡ ok tt
      → (run ≡ finished 1) × IsSynced event "r1" approved_row balance w'.db)
    × ((e : Error)
        → answer event payload v ≡ err e
        → can_retry event "r1" approved_row balance e ≡ true
        → (run ≡ finished 0)
          × IsRetried event "r1" approved_row balance e (retry_time v) (retry_jitter v) w'.db)
    × ((e : Error)
        → answer event payload v ≡ err e
        → can_retry event "r1" approved_row balance e ≡ false
        → (run ≡ finished 0) × IsReversed event "r1" approved_row balance e w'.db)
run_alone_example =
    run_alone 10 event "r1" approved_row balance payload remote parsed Takes-first_send
      remote-IsStored

remote-IsSound : IsSound remote.db
remote-IsSound = record { nonnegative = (omega arith, tt); positive = (omega arith, tt) }

play-IsSound_example :
    IsSound (Overlap.play (overlapping 10 10) (record { runs = []; world = remote })).world.db
play-IsSound_example =
    play-IsSound (overlapping 10 10) (record { runs = []; world = remote }) remote-IsSound

attempts_end_example : IsOver event.id "r1" (attempts 5 event.id remote)
attempts_end_example =
    attempts_end 5 event "r1" approved_row balance payload remote parsed remote-IsStored refl
      (omega arith) (omega arith)
