-- ===== src/Requests/Repository.antt =====
-- src/modules/timeoff-requests/timeoff-requests.repository.ts: one action for each method.
use mathlib.Core.Option
use timeoff_request.Base.{
  ℕ, ◌+◌, String, Option, none, some, Bool, true, false, not, ◌&&◌, List, [], ◌∷◌, ◌++◌, map, ◌==◌,
  leb, if◌then◌else◌, is_some, take,
}
use timeoff_request.Base.Int.{ℤ, pos, ◌+ℤ◌, ltb_ℤ}
use timeoff_request.Base.Table.{find, select, update_where, count_where, order_by}
use timeoff_request.Domain.Errors.{Error, sqlite, unique_key, check, foreign_key}
use timeoff_request.Domain.Status.{RequestStatus, pending, approved, synced, reversed, status_eqb}
use timeoff_request.Store.Rows.{
  Db, Balance, TimeOffRequest, RequestRow, SyncState, pending_sync, done, SyncEvent, SyncEventRow,
  SyncEventId, outbound, SyncStatus, queued, retry_pending, processed, is_request, is_balance,
}
use timeoff_request.Store.World.{Action, pure, gets, now, write, write_if, require, ◌>>=◌, ◌>>◌}
use timeoff_request.Balances.{event_id_eqb, same_event, direction_eqb, refers}

abbrev pub request_row : TimeOffRequest → RequestRow
request_row request = record {
  request = request;
  sync_state = if status_eqb request.status pending then none else some pending_sync;
  drift_flag = false;
}

unfoldable pub create : TimeOffRequest → Action TimeOffRequest
create request = do
  db ← gets λ w. w.db
  require (ltb_ℤ (pos 0) request.days) (sqlite check)
  write_if (not (is_some (find (is_request request.id) db.requests))) (sqlite unique_key)
      (λ d. record d { requests = d.requests ++ request_row request ∷ [] })
  pure request

unfoldable pub find_by_id : String → Action (Option TimeOffRequest)
find_by_id id = gets λ w. Option.map (λ r. r.request) (find (is_request id) w.db.requests)

-- `created_at DESC`
abbrev newest_first : RequestRow → RequestRow → Bool
newest_first a b = leb b.created_at a.created_at

unfoldable pub list_all : Action (List TimeOffRequest)
list_all = gets λ w. map (λ r. r.request) (order_by newest_first w.db.requests)

abbrev pub saved : TimeOffRequest → RequestRow → RequestRow
saved request r = record r {
  request = record r.request {
    status = request.status;
    reason = request.reason;
    updated_at = request.updated_at;
  };
}

unfoldable pub save : TimeOffRequest → Action TimeOffRequest
save request = do
  write λ db. record db {
    requests = update_where (is_request request.id) (saved request) db.requests;
  }
  pure request

abbrev pub event_row : SyncEvent → Option String → ℕ → SyncEventRow
event_row event request_id time = record {
  event = event;
  request_id = request_id;
  attempt_count = 0;
  next_attempt_at = some time;
  processed_at = none;
}

unfoldable pub create_sync_event : SyncEvent → Option String → Action SyncEvent
create_sync_event event request_id = do
  time ← now
  db ← gets λ w. w.db
  require
      (not (
        is_some (
          find (same_event event.id event.external_event_id event.payload_hash event.direction)
            db.sync_events)))
      (sqlite unique_key)
  write_if (refers request_id db) (sqlite foreign_key)
      (λ d. record d { sync_events = d.sync_events ++ event_row event request_id time ∷ [] })
  pure event

-- `request_id = ?`, which NULL does not fit
abbrev is_reference : String → Option String → Bool
is_reference id none = false
is_reference id (some j) = j == id

abbrev is_event_of : String → SyncEventRow → Bool
is_event_of id r = is_reference id r.request_id

unfoldable pub list_sync_events_by_request_id : String → Action (List SyncEvent)
list_sync_events_by_request_id id =
    gets λ w. map (λ r. r.event) (select (is_event_of id) w.db.sync_events)

abbrev pub is_open : SyncStatus → Bool
is_open queued = true
is_open retry_pending = true
is_open _ = false

abbrev pub not_later : Option ℕ → ℕ → Bool
not_later none time = true
not_later (some t) time = leb t time

abbrev pub is_due : ℕ → SyncEventRow → Bool
is_due time r =
    direction_eqb r.direction outbound && is_open r.status && not_later r.next_attempt_at time

-- `created_at ASC`
abbrev pub oldest_first : SyncEventRow → SyncEventRow → Bool
oldest_first a b = leb a.created_at b.created_at

unfoldable pub list_due_outbound_sync_events : ℕ → Action (List SyncEventRow)
list_due_outbound_sync_events limit = do
  time ← now
  gets λ w. take limit (order_by oldest_first (select (is_due time) w.db.sync_events))

abbrev pub is_event : SyncEventId → SyncEventRow → Bool
is_event id r = event_id_eqb r.id id

abbrev update_event : SyncEventId → (SyncEventRow → SyncEventRow) → Db → Db
update_event id f db = record db { sync_events = update_where (is_event id) f db.sync_events }

abbrev pub retried : ℕ → ℕ → Error → SyncEventRow → SyncEventRow
retried attempts next e r = record r {
  event = record r.event { status = retry_pending; error = some e };
  attempt_count = attempts;
  next_attempt_at = some next;
}

unfoldable pub mark_sync_event_retry : SyncEventId → ℕ → ℕ → Error → Action Unit
mark_sync_event_retry id attempts next e = write (update_event id (retried attempts next e))

abbrev pub event_synced : ℕ → SyncEventRow → SyncEventRow
event_synced time r = record r {
  event = record r.event { status = processed };
  next_attempt_at = none;
  processed_at = some time;
}

unfoldable pub mark_sync_event_synced : SyncEventId → Action Unit
mark_sync_event_synced id = do time ← now; write (update_event id (event_synced time))

abbrev pub event_failed : ℕ → Error → SyncEventRow → SyncEventRow
event_failed time e r = record r {
  event = record r.event { status = SyncStatus.failed; error = some e };
  processed_at = some time;
}

unfoldable pub mark_sync_event_failed : SyncEventId → Error → Action Unit
mark_sync_event_failed id e = do time ← now; write (update_event id (event_failed time e))

abbrev pub request_synced : ℕ → RequestRow → RequestRow
request_synced time r = record r {
  request = record r.request { status = synced; updated_at = time };
  sync_state = some done;
}

unfoldable pub mark_request_synced : String → Action Unit
mark_request_synced id = do
  time ← now
  write
      λ db. record db { requests = update_where (is_request id) (request_synced time) db.requests }

abbrev pub request_reversed : ℕ → RequestRow → RequestRow
request_reversed time r = record r {
  request = record r.request { status = reversed; updated_at = time };
  sync_state = some SyncState.failed;
}

abbrev pub refunded : ℤ → ℕ → Balance → Balance
refunded days time b = record b {
  available_days = b.available_days +ℤ days;
  version = b.version + 1;
  updated_at = time;
}

-- the two UPDATEs after `if (!request) return`
unfoldable pub reverse_request : Option TimeOffRequest → Action Unit
reverse_request none = pure tt
reverse_request (some request) = do
  time ← now
  write λ db. record db {
    requests = update_where (is_request request.id) (request_reversed time) db.requests;
  }
  later ← now
  write λ db. record db {
    balances =
        update_where (is_balance request.employee_id request.location_id)
          (refunded request.days later) db.balances;
  }

unfoldable pub mark_request_failed_and_reversed : String → Action Unit
unfolding find_by_id reverse_request
mark_request_failed_and_reversed id = do found ← find_by_id id; reverse_request found

-- `status IN ('PENDING', 'APPROVED')`
abbrev pub is_live : RequestStatus → Bool
is_live pending = true
is_live approved = true
is_live _ = false

abbrev pub drifts : String → String → RequestRow → Bool
drifts e l r = r.employee_id == e && r.location_id == l && is_live r.status

abbrev pub flagged : ℕ → RequestRow → RequestRow
flagged time r = record r { request = record r.request { updated_at = time }; drift_flag = true }

unfoldable pub flag_requests_for_drift : String → String → Action ℕ
flag_requests_for_drift e l = do
  time ← now
  changes ← gets λ w. count_where (drifts e l) w.db.requests
  write λ db. record db { requests = update_where (drifts e l) (flagged time) db.requests }
  pure changes
