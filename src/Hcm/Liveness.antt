-- ===== src/Hcm/Liveness.antt =====
-- An event that is attempted again and again comes to its end
-- (workers/outbound-sync.worker.ts, SYNC_MAX_ATTEMPTS of config/defaults.ts).
use timeoff_request.Base.{
  ℕ, zero, suc, ◌+◌, ◌≤◌, ◌<◌, ◌≡◌, refl, String, Option, none, some, true, false, arith, inl, inr,
  ◌⊎◌, Bool-cases, if◌then◌else◌,
}
use timeoff_request.Base.Table.{find}
use timeoff_request.Domain.Errors.{Result-cases}
use timeoff_request.Domain.Status.{synced, reversed}
use timeoff_request.Store.Rows.{Balance, RequestRow, SyncEventRow, SyncEventId, is_request}
use timeoff_request.Store.World.{World}
use timeoff_request.Requests.Repository.{is_event, is_open}
use timeoff_request.Hcm.Worker
use timeoff_request.Hcm.Attempt.{IsStored, can_retry}
use timeoff_request.Hcm.Outcome.{answer, process_event_lem}

-- the attempts at the event of a key, each on the row as it then is; none once it is closed
abbrev attempt_row : Option SyncEventRow → (SyncEventRow → World) → World → World
attempt_row none next w = w
attempt_row (some event) next w = if is_open event.status then next event else w

unfoldable pub attempts : ℕ → SyncEventId → World → World
attempts zero id w = w
attempts (suc n) id w =
    attempt_row (find (is_event id) w.db.sync_events)
      (λ event. attempts n id (Worker.process_event event w).1) w

-- the event is closed, and its request has one of the two final statuses
pub record IsOver (key : SyncEventId) (id : String) (w : World) : Type 0 where
  pub event_now : SyncEventRow
  pub row_now : RequestRow
  pub event_found : find (is_event key) w.db.sync_events ≡ some event_now
  pub closed : is_open event_now.status ≡ false
  pub request_found : find (is_request id) w.db.requests ≡ some row_now
  pub final : (row_now.status ≡ synced) ⊎ (row_now.status ≡ reversed)

over-attempts :
    (n : ℕ) (key : SyncEventId) (id : String) (w : World) → IsOver key id w → attempts n key w ≡ w
unfolding attempts
over-attempts zero key id w over = refl
over-attempts (suc n) key id w over = ground (arith, over.event_found, over.closed)

attempts-next :
    (n : ℕ) (event : SyncEventRow) (w : World)
    → find (is_event event.id) w.db.sync_events ≡ some event
    → is_open event.status ≡ true
    → attempts (suc n) event.id w ≡ attempts n event.id (Worker.process_event event w).1
unfolding attempts
attempts-next n event w found open_now = rw found (rw open_now refl)

-- A stored event that is open, with fewer than five failed attempts and a payload that can be read, is closed after at
-- most as many further attempts as are left of the five, whatever the HCM answers to each of them:
-- the event is no longer due, and its request is SYNCED or REVERSED.
pub attempts_end :
    (n : ℕ) (event : SyncEventRow) (id : String) (row : RequestRow) (b : Balance)
    (payload : Worker.OutboundPayload) (w : World)
    → Worker.parse_payload event.payload_hash ≡ some payload
    → IsStored event id row b w.db
    → is_open event.status ≡ true
    → event.attempt_count < Worker.sync_max_attempts
    → Worker.sync_max_attempts ≤ event.attempt_count + n
    → IsOver event.id id (attempts n event.id w)
attempts_end zero event id row b payload w parsed stored open_now few many = ground arith
attempts_end (suc n) event id row b payload w parsed stored open_now few many =
    let (delivered, retried_later, given_up) =
      process_event_lem event id row b payload w parsed stored in
    let w' = (Worker.process_event event w).1 in
    let over : IsOver event.id id w' → IsOver event.id id (attempts n event.id w') =
      λ o. rw (over-attempts n event.id id w' o) o in
    rw (attempts-next n event w stored.event_found open_now)
      (elim (Result-cases (answer event payload w)) [
        | inl fine ↦
            let s = (delivered fine).1 in
            over (record {
              event_now = _;
              row_now = _;
              event_found = s.event_synced_row;
              closed = refl;
              request_found = s.request_synced_row;
              final = inl refl;
            })
        | inr (e, thrown) ↦ elim (Bool-cases (can_retry event id row b e)) [
          | inr last ↦
              let s = (given_up e thrown last).1 in
              over (record {
                event_now = _;
                row_now = _;
                event_found = s.event_failed_row;
                closed = refl;
                request_found = s.request_reversed_row;
                final = inr refl;
              })
          | inl again ↦
              let s = (retried_later e thrown again).1 in
              attempts_end n _ id row b payload w' parsed
                (record {
                  event_found = s.event_retried_row;
                  names_request = stored.names_request;
                  request_found = s.request_kept;
                  balance_found = s.balance_kept;
                })
                refl (ground (arith, again)) (omega arith)
        ]
      ])
