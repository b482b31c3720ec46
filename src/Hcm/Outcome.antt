-- ===== src/Hcm/Outcome.antt =====
-- `processDueEvents` for one due event (workers/outbound-sync.worker.ts): synced, retried or
-- reversed, by what the HCM client returns or throws.
use Prim.Native.Nat.{◌%◌}
use timeoff_request.Base.{ℕ, ◌+◌, ◌≡◌, ◌∙◌, String, some, true, false, arith, sym}
use mathlib.Core.Path.{subst}
use timeoff_request.Domain.Errors.{Error, Result, ok, err}
use timeoff_request.Store.Rows.{Db, Balance, RequestRow, SyncEventRow}
use timeoff_request.Store.World.{World}
use timeoff_request.Balances.Rows.{ticked, clock}
use timeoff_request.Hcm.Client
use timeoff_request.Hcm.Worker
use timeoff_request.Hcm.Attempt.{
  IsStored, IsSynced, IsRetried, IsReversed, IsStored-submit, can_retry, deliver_ok, deliver_err,
  retry_lem, give_up_lem, submit-env,
}

-- the world in which the client is called
abbrev pub starting : SyncEventRow → Worker.OutboundPayload → World → World
starting event payload w =
    ticked (record w { trace = some (Worker.context_of event payload.trace) })

-- what the client returns or throws
abbrev pub answer : SyncEventRow → Worker.OutboundPayload → World → Result Unit
answer event payload w =
    (Client.submit_approved_usage payload.employee_id payload.location_id payload.days
      (starting event payload w)).0

abbrev answered : SyncEventRow → Worker.OutboundPayload → World → World
answered event payload w =
    (Client.submit_approved_usage payload.employee_id payload.location_id payload.days
      (starting event payload w)).1

module _ (event : SyncEventRow) (payload : Worker.OutboundPayload) (w : World)
    (parsed : Worker.parse_payload event.payload_hash ≡ some payload) where
  run_ok :
      (n : ℕ)
      → let out = Worker.deliver event payload (clock w) (starting event payload w) in
        out.0 ≡ ok n
        → ((Worker.process_event event w).0 ≡ ok n)
          × ((Worker.process_event event w).1.db ≡ out.1.db)
  unfolding Worker.process_event Worker.attempt_delivery
  run_ok n h = (ground (arith, parsed, h), ground (arith, parsed, h))

  run_err :
      (e : Error)
      → let out = Worker.give_up_or_retry event e (answered event payload w) in
        Worker.deliver event payload (clock w) (starting event payload w)
          ≡ (err e, answered event payload w)
        → ((Worker.process_event event w).0 ≡ out.0)
          × ((Worker.process_event event w).1.db ≡ out.1.db)
  unfolding Worker.process_event Worker.attempt_delivery
  run_err e h = (ground (arith, parsed, h), ground (arith, parsed, h))

-- the readings from which the next attempt is computed
abbrev pub retry_time : World → ℕ
retry_time w = w.env.times (w.env.time_reads + 1 + 1)

abbrev pub retry_jitter : World → ℕ
retry_jitter w = w.env.randoms w.env.random_reads % 100

at_retry_time :
    (event : SyncEventRow) (id : String) (row : RequestRow) (b : Balance)
    (payload : Worker.OutboundPayload) (w : World) (e : Error) (d : Db)
    → let u = answered event payload w in
      IsRetried event id row b e
        (u.env.times (u.env.time_reads + 1))
        (u.env.randoms u.env.random_reads % 100)
        d
      → IsRetried event id row b e (retry_time w) (retry_jitter w) d
at_retry_time event id row b payload w e d h =
    let u = answered event payload w in
    let (time, random) =
      submit-env payload.employee_id payload.location_id payload.days (starting event payload w) in
    subst (λ t. IsRetried event id row b e t (retry_jitter w) d) time
      (subst (λ r. IsRetried event id row b e (u.env.times (u.env.time_reads + 1)) (r % 100) d)
        random h)

-- An event whose payload can be read, with its request and the request's balance in the database.
-- The HCM takes it: the event is processed, the request synced, the balance as it was. It fails in
-- a transient way before the last attempt: the event has one failed attempt more and is due again at
-- the second reading of the clock after the one that began the attempt, plus the delay of the backoff
-- for that number of attempts and the next random number modulo 100, the request and the balance as
-- they were. Any other failure: the event has failed, the request is
-- reversed and its days are given back. Nothing is thrown in these cases.
pub process_event_lem :
    (event : SyncEventRow) (id : String) (row : RequestRow) (b : Balance)
    (payload : Worker.OutboundPayload) (w : World)
    → Worker.parse_payload event.payload_hash ≡ some payload
    → IsStored event id row b w.db
    → let (r, w') = Worker.process_event event w in
      (answer event payload w ≡ ok tt → (r ≡ ok 1) × IsSynced event id row b w'.db)
      × ((e : Error)
          → answer event payload w ≡ err e
          → can_retry event id row b e ≡ true
          → (r ≡ ok 0) × IsRetried event id row b e (retry_time w) (retry_jitter w) w'.db)
      × ((e : Error)
          → answer event payload w ≡ err e
          → can_retry event id row b e ≡ false
          → (r ≡ ok 0) × IsReversed event id row b e w'.db)
process_event_lem event id row b payload w parsed stored =
    let start = starting event payload w in
    let later =
      IsStored-submit event id row b payload.employee_id payload.location_id payload.days start
        stored in
    let failed = deliver_err event id row b payload start stored (clock w) in
    (
      λ fine.
          let (r, s) = deliver_ok event id row b payload start stored (clock w) fine in
          let (p, q) = run_ok event payload w parsed 1 r in
          (p, subst (IsSynced event id row b) (sym q) s),
      λ e thrown again.
          let (p, q) = run_err event payload w parsed e (failed e thrown) in
          let (r, s) = retry_lem event id row b e (answered event payload w) later again in
          (
            p ∙ r,
            subst (IsRetried event id row b e (retry_time w) (retry_jitter w)) (sym q)
                (at_retry_time event id row b payload w e _ s),
          ),
      λ e thrown last.
          let (p, q) = run_err event payload w parsed e (failed e thrown) in
          let (r, s) = give_up_lem event id row b e (answered event payload w) later last in
          (p ∙ r, subst (IsReversed event id row b e) (sym q) s),
    )
