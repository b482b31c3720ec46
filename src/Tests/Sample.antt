-- ===== src/Tests/Sample.antt =====
-- A small database and a world that the tests run in.
use Prim.Native.String.{◌++◌ as concat}
use timeoff_request.Base.{ℕ, zero, suc, ◌+◌, ◌*◌, String, none, some, false, [], ◌∷◌}
use timeoff_request.Base.Int.{pos}
use timeoff_request.Domain.Status.{pending}
use timeoff_request.Store.Rows.{Balance, RequestRow, Db}
use timeoff_request.Store.World.{HcmClient, no_failure, rejected, Env, World}

-- the keys "u", "uu", "uuu", ... of `randomUUID`
abbrev pub uuid_at : ℕ → String
uuid_at zero = "u"
uuid_at (suc n) = concat "u" (uuid_at n)

abbrev pub env : Env
env = record {
  times = λ n. 1000 + n;
  time_reads = 0;
  uuids = uuid_at;
  uuid_reads = 0;
  randoms = λ n. n * 37;
  random_reads = 0;
  server = λ history r. rejected;
  sent = [];
}

abbrev pub hcm : HcmClient
hcm = record {
  balances = ("e1::l1", pos 10) ∷ [];
  unavailable = false;
  failure_mode = no_failure;
  base_url = none;
}

-- ten days for e1 at l1
abbrev pub balance : Balance
balance = record {
  employee_id = "e1";
  location_id = "l1";
  available_days = pos 10;
  version = 3;
  updated_at = 5;
  last_synced_at = some 5;
}

abbrev pub row : RequestRow
row = record {
  request = record {
    id = "r1";
    employee_id = "e1";
    location_id = "l1";
    days = pos 4;
    reason = none;
    status = pending;
    created_at = 7;
    updated_at = 7;
  };
  sync_state = none;
  drift_flag = false;
}

abbrev pub empty_db : Db
empty_db = record {
  balances = [];
  requests = [];
  ledger = [];
  sync_events = [];
  idempotency = [];
  batch_jobs = [];
  batch_checkpoints = [];
  dead_letters = [];
  drift_events = [];
  log = [];
}

abbrev pub db : Db
db = record empty_db { balances = balance ∷ []; requests = row ∷ [] }

abbrev pub world : World
world = record {
  db = db;
  env = env;
  hcm = hcm;
  metrics = record { counters = []; sums = []; counts = [] };
  trace = none;
}
