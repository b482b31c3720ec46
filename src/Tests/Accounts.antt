-- ===== src/Tests/Accounts.antt =====
-- A history of calls, some of which fail, with runs of the worker.
use timeoff_request.Base.{
  ◌≤◌, ◌≡◌, ◌≢◌, eq_iff, refl, String, some, none, true, false, List, [], ◌∷◌, arith,
}
use timeoff_request.Base.Int.{ℤ, pos, ◌+ℤ◌}
use timeoff_request.Base.Table.{find, count_where}
use timeoff_request.Domain.Days.{finite}
use timeoff_request.Api.{Call, serve}
use timeoff_request.Accounts.Held.{account, held, HasUniqueIds}
use timeoff_request.Accounts.History.{serve-account}
use timeoff_request.Accounts.Owed.{IsOwed}
use timeoff_request.Domain.Status.{approved}
use timeoff_request.Store.Rows.{
  RequestRow, SyncEventRow, SyncEventId, inbound_key, pending_sync, uuid, outbound, queued,
}
use timeoff_request.Store.World.{World, FailureMode}
use timeoff_request.Requests.Repository.{is_event}
use timeoff_request.Requests.Service.{approval_event_id, outbound_payload}
use timeoff_request.Tests.Sample.{world, row, balance}

-- two approved requests, whose days the balance has lost, and an HCM that refuses every usage
abbrev granted : String → ℤ → RequestRow
granted id days = record {
  request = record row.request { id = id; days = days; status = approved };
  sync_state = some pending_sync;
  drift_flag = false;
}

abbrev waiting : String → RequestRow → SyncEventRow
waiting id r = record {
  event = record {
    id = uuid id;
    direction = outbound;
    external_event_id = approval_event_id r.id;
    payload_hash = outbound_payload r.request none;
    status = queued;
    error = none;
    created_at = 8;
  };
  request_id = some r.id;
  attempt_count = 0;
  next_attempt_at = some 8;
  processed_at = none;
}

abbrev refusing : World
refusing = record world {
  hcm = record world.hcm { failure_mode = FailureMode.functional };
  db = record world.db {
    balances = record balance { available_days = pos 4 } ∷ [];
    requests = granted "r1" (pos 4) ∷ granted "r2" (pos 2) ∷ [];
    sync_events = waiting "v1" (granted "r1" (pos 4)) ∷ waiting "v2" (granted "r2" (pos 2)) ∷ [];
  };
}

abbrev first : String
first = "r1"

abbrev second : String
second = "r2"

different : first ≢ second
different e = let wrong : false ≡ true = (eq_iff first second).1 e in absurd (cc)

refusing-HasUniqueIds : HasUniqueIds refusing.db
unfolding count_where
refusing-HasUniqueIds = record {
  at_most_one = λ id. ground (arith, eq_iff first id, eq_iff second id, different);
}

abbrev first_event : String
first_event = "v1"

abbrev second_event : String
second_event = "v2"

different_events : first_event ≢ second_event
different_events e = let wrong : false ≡ true = (eq_iff first_event second_event).1 e in absurd (cc)

events_unique : (id : SyncEventId) → count_where (is_event id) refusing.db.sync_events ≤ 1
unfolding count_where
events_unique (uuid id) =
    ground (arith, eq_iff first_event id, eq_iff second_event id, different_events)
events_unique (inbound_key s p) = ground arith

refusing-IsOwed : IsOwed refusing.db
unfolding count_where find
refusing-IsOwed = record {
  requests_unique = refusing-HasUniqueIds;
  events_unique = events_unique;
  owed = (
    λ _. record {
      id = "r1";
      names = refl;
      held = record {
        row = granted "r1" (pos 4);
        found = refl;
        holds = refl;
        balance = record balance { available_days = pos 4 };
        has_balance = refl;
      };
    },
    (
      λ _. record {
        id = "r2";
        names = refl;
        held = record {
          row = granted "r2" (pos 2);
          found = refl;
          holds = refl;
          balance = record balance { available_days = pos 4 };
          has_balance = refl;
        };
      },
      tt,
    ),
  );
  once = λ id. ground (arith, eq_iff first id, eq_iff second id, different);
}

-- The reversals give the days back; a request for seven days is approved once.
abbrev calls : List Call
calls =
    Call.process_outbound none
    ∷ Call.create
        (record { employee_id = "e1"; location_id = "l1"; days = finite (pos 7); reason = none })
    ∷ Call.approve "u"
    ∷ Call.approve "u"
    ∷ Call.cancel "u"
    ∷ Call.get_balance "e9" "l1"
    ∷ Call.process_outbound (some 3)
    ∷ []

serve-account_example : account "e1" "l1" (serve calls refusing).db ≡ pos 10
unfolding ◌+ℤ◌ find held
serve-account_example =
    serve-account calls refusing (refl, (refl, (refl, (refl, (refl, (refl, (refl, tt)))))))
      (record { nonnegative = omega arith; positive = omega arith }) refusing-IsOwed "e1" "l1"
