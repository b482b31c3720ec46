-- ===== src/Hcm/Alone.antt =====
-- A run of the outbound worker to which nothing comes in between, cut at its `await`s, against
-- `processDueEvents` as one action (workers/outbound-sync.worker.ts).
use timeoff_request.Base.{
  ℕ, zero, suc, ◌+◌, ◌≤◌, ◌≡◌, ◌∙◌, true, false, refl, sym, ap, String, some, List, [], ◌∷◌, arith,
  length, length-take, take, Option-cases, inl, inr,
}
use timeoff_request.Base.Int.{ℤ}
use timeoff_request.Domain.Errors.{Error, Result, ok, err, type_error}
use timeoff_request.Store.Rows.{Balance, RequestRow, SyncEventRow}
use timeoff_request.Store.World.{World, try_catch, lift, ◌>>◌}
use timeoff_request.Balances.Rows.{ticked, clock}
use timeoff_request.Requests.Repository.{list_due_outbound_sync_events}
use timeoff_request.Hcm.Client
use timeoff_request.Hcm.Worker
use timeoff_request.Hcm.Attempt.{IsStored, IsSynced, IsRetried, IsReversed, can_retry}
use timeoff_request.Hcm.Outcome.{starting, answer, retry_time, retry_jitter, process_event_lem}
use timeoff_request.Hcm.Overlapping.{Takes}
use timeoff_request.Hcm.Due.{all_due}
use timeoff_request.Hcm.Overlap

-- the client leaves the context of the request alone
submit-trace :
    (e l : String) (days : ℤ) (w : World)
    → (Client.submit_approved_usage e l days w).1.trace ≡ w.trace
unfolding Client.submit_approved_usage Client.fetch
submit-trace e l days w = ground arith

-- what follows the answer of the client, in the context of the attempt
abbrev after_answer :
    SyncEventRow → Worker.OutboundPayload → World → Result Unit × World → Result ℕ × World
after_answer event payload w (answer, u) =
    let (r, v) =
      try_catch (lift answer >> Worker.complete event (clock w)) (Worker.give_up_or_retry event)
        u in
    (r, record v { trace = w.trace })

-- The two halves of an attempt make the whole.
pub settle-send :
    (event : SyncEventRow) (payload : Worker.OutboundPayload) (w : World)
    → Worker.parse_payload event.payload_hash ≡ some payload
    → let (flight, w') = Overlap.send event payload w in
      Overlap.settle flight w' ≡ Worker.process_event event w
unfolding Overlap.send Overlap.settle Worker.process_event Worker.attempt_delivery Worker.deliver
settle-send event payload w parsed =
    let begun = starting event payload w in
    let (answer, u) =
      Client.submit_approved_usage payload.employee_id payload.location_id payload.days begun in
    let same = submit-trace payload.employee_id payload.location_id payload.days begun in
    ap (λ t. after_answer event payload w (answer, record u { trace = t })) (sym same)
    ∙ (rw parsed refl)

pub alone-ended :
    (rounds : ℕ) (r : Result ℕ) (w : World)
    → Overlap.alone rounds (Overlap.ended r, w) ≡ (Overlap.ended r, w)
unfolding Overlap.alone
alone-ended zero r w = refl
alone-ended (suc rounds) (ok n) w = alone-ended rounds (ok n) w
alone-ended (suc rounds) (err e) w = alone-ended rounds (err e) w

abbrev pub ended_at : Result ℕ × World → Overlap.Run × World
ended_at (r, w) = (Overlap.ended r, w)

-- the loop of one action after its first event
abbrev after_event : List SyncEventRow → ℕ → Result ℕ × World → Result ℕ × World
after_event due n r = elim r.0 as (λ _. Result ℕ × World) [
  | ok one ↦ Worker.process_events due (n + one) r.1
  | err e ↦ (err e, r.1)
]

continued :
    (rounds : ℕ) (due : List SyncEventRow) (n : ℕ) (r : Result ℕ × World)
    → ((m : ℕ) (w : World)
        → Overlap.alone rounds (Overlap.advance due m w) ≡ ended_at (Worker.process_events due m w))
    → Overlap.alone rounds (Overlap.advance_from due n r) ≡ ended_at (after_event due n r)
continued rounds due n (ok one, w) rest = rest (n + one) w
continued rounds due n (err e, w) rest = alone-ended rounds (err e) w

alone-advance :
    (rounds : ℕ) (due : List SyncEventRow) (n : ℕ) (w : World)
    → length due ≤ rounds
    → Overlap.alone rounds (Overlap.advance due n w) ≡ ended_at (Worker.process_events due n w)
unfolding Overlap.alone Overlap.advance Worker.process_events Worker.process_event
alone-advance rounds [] n w h = alone-ended rounds (ok n) w
alone-advance zero (event ∷ due) n w h = ground arith
alone-advance (suc rounds) (event ∷ due) n w h =
    elim (Option-cases (Worker.parse_payload event.payload_hash)) [
      | inl unread ↦ rw unread (alone-ended rounds (err type_error) w)
      | inr (payload, parsed) ↦ rw parsed (
          rw (settle-send event payload w parsed) (
            rw parsed (
              continued rounds due n (Worker.process_payload event (some payload) w)
                (λ m v. alone-advance rounds due m v (omega (arith, h))))))
    ]

IsStored-ticked :
    (event : SyncEventRow) (id : String) (row : RequestRow) (b : Balance) (w : World)
    → IsStored event id row b w.db
    → IsStored event id row b (ticked w).db
IsStored-ticked event id row b w h = h

-- the run is over after at most as many answers as the limit says, as one action
alone-process_due_events :
    (limit : ℕ) (w : World)
    → let (r, w') = Worker.process_due_events limit w in
      Overlap.alone limit (Overlap.start limit w) ≡ (Overlap.ended r, w')
unfolding Overlap.start Worker.process_due_events list_due_outbound_sync_events
alone-process_due_events limit w =
    alone-advance limit (take limit (all_due w)) 0 (ticked w)
      (omega (arith, length-take limit (all_due w)))

one_event :
    (limit n : ℕ) (event : SyncEventRow) (w : World)
    → Takes limit event w
    → (Worker.process_event event (ticked w)).0 ≡ ok n
    → Worker.process_due_events limit w ≡ (ok n, (Worker.process_event event (ticked w)).1)
unfolding Worker.process_due_events Worker.process_events
one_event limit n event w due counts = ground (arith, due, counts)

one_event_alone :
    (limit n : ℕ) (event : SyncEventRow) (w : World)
    → Takes limit event w
    → (Worker.process_event event (ticked w)).0 ≡ ok n
    → Overlap.alone limit (Overlap.start limit w)
      ≡ (Overlap.finished n, (Worker.process_event event (ticked w)).1)
one_event_alone limit n event w due counts =
    alone-process_due_events limit w ∙ ap ended_at (one_event limit n event w due counts)

-- A run of the worker that is cut at its `await` and to which nothing comes in between. When it reads
-- its due events within its limit, they are exactly one event, whose payload can be read, with its
-- request and the request's balance in the database. The run is over after at most as many answers as
-- the limit says. If the HCM takes the days, it has processed one event, the event is processed, the
-- request synced and the balance as it was. If the HCM fails in a transient way before the last
-- attempt, it has processed none, the event has one failed attempt more and is due again after the
-- delay of the backoff, the request and the balance as they were. Any other failure: it has processed
-- none, the event has failed, the request is reversed and its days are given back.
pub run_alone :
    (limit : ℕ) (event : SyncEventRow) (id : String) (row : RequestRow) (b : Balance)
    (payload : Worker.OutboundPayload) (w : World)
    → Worker.parse_payload event.payload_hash ≡ some payload
    → Takes limit event w
    → IsStored event id row b w.db
    → let (run, w') = Overlap.alone limit (Overlap.start limit w) in
      let v = ticked w in
      (answer event payload v ≡ ok tt → (run ≡ Overlap.finished 1) × IsSynced event id row b w'.db)
      × ((e : Error)
          → answer event payload v ≡ err e
          → can_retry event id row b e ≡ true
          → (run ≡ Overlap.finished 0)
            × IsRetried event id row b e (retry_time v) (retry_jitter v) w'.db)
      × ((e : Error)
          → answer event payload v ≡ err e
          → can_retry event id row b e ≡ false
          → (run ≡ Overlap.finished 0) × IsReversed event id row b e w'.db)
run_alone limit event id row b payload w parsed due stored =
    let v = ticked w in
    let (delivered, retried_later, given_up) =
      process_event_lem event id row b payload v parsed (IsStored-ticked event id row b w stored) in
    (
      λ fine. let (r, s) = delivered fine in rw (one_event_alone limit 1 event w due r) (refl, s),
      λ e thrown again.
          let (r, s) = retried_later e thrown again in
          rw (one_event_alone limit 0 event w due r) (refl, s),
      λ e thrown last.
          let (r, s) = given_up e thrown last in
          rw (one_event_alone limit 0 event w due r) (refl, s),
    )
