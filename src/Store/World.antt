-- ===== src/Store/World.antt =====
-- The world of a call: the database, the clock and the random sources, the HCM client's own state,
-- the metrics and the request context; and actions, which return or throw and leave a new world.
-- What was written before an exception stays written, unless a transaction rolls it back
-- (`withTransaction` of src/db/database.service.ts).
use timeoff_request.Base.{ℕ, ◌+◌, String, Option, none, some, Bool, List, if◌then◌else◌}
use timeoff_request.Base.Int.{ℤ}
use timeoff_request.Domain.Errors.{Result, ok, err, Error, type_error}
use timeoff_request.Store.Rows.{Db}

pub data FailureMode : Type 0 where
  no_failure transient functional : FailureMode

-- what the HCM client sends by `fetch`, and what comes back: a rejected promise, or a status with
-- the `days` of the body
pub data HcmRequest : Type 0 where
  get_balance : String → String → HcmRequest
  consume : String → String → ℤ → HcmRequest
  upsert : String → String → ℤ → HcmRequest
  set_mode : FailureMode → HcmRequest

pub data HcmResponse : Type 0 where
  rejected : HcmResponse
  response : ℕ → ℤ → HcmResponse

-- What the program does not decide: the n-th reading of the clock, of `randomUUID` and of
-- `Math.random`, and the remote server, which answers by all that it has been sent.
pub record Env : Type 0 where
  pub times : ℕ → ℕ
  pub time_reads : ℕ
  pub uuids : ℕ → String
  pub uuid_reads : ℕ
  pub randoms : ℕ → ℕ
  pub random_reads : ℕ
  pub server : List HcmRequest → HcmRequest → HcmResponse
  pub sent : List HcmRequest

-- the fields of `HcmClient`
pub record HcmClient : Type 0 where
  pub balances : List (String × ℤ)
  pub unavailable : Bool
  pub failure_mode : FailureMode
  pub base_url : Option String

-- the fields of `MetricsService`
pub record Metrics : Type 0 where
  pub counters : List (String × ℕ)
  pub sums : List (String × ℤ)
  pub counts : List (String × ℕ)

-- `RequestTraceContext`
pub record Trace : Type 0 where
  pub correlation_id : String
  pub request_id : String
  pub external_event_id : Option String

pub record World : Type 0 where
  pub db : Db
  pub env : Env
  pub hcm : HcmClient
  pub metrics : Metrics
  pub trace : Option Trace

abbrev pub Action : Type 0 → Type 0
Action A = World → Result A × World

module _ {A : Type 0} where
  abbrev pub pure : A → Action A
  pure a w = (ok a, w)

  abbrev pub raise : Error → Action A
  raise e w = (err e, w)

  abbrev pub lift : Result A → Action A
  lift r w = (r, w)

  abbrev pub gets : (World → A) → Action A
  gets f w = (ok (f w), w)

  abbrev pub roll_back : Db → Result A × World → Result A × World
  roll_back db (ok a, w) = (ok a, w)
  roll_back db (err e, w) = (err e, record w { db = db })

  -- a property of `undefined`
  abbrev pub defined : Option A → Action A
  defined none w = (err type_error, w)
  defined (some a) w = (ok a, w)

  -- `withTransaction`: an exception undoes what the database was told
  abbrev pub with_transaction : Action A → Action A
  with_transaction m w = roll_back w.db (m w)

  -- `try { ... } catch (error) { ... }`
  abbrev pub try_catch : Action A → (Error → Action A) → Action A
  try_catch m handler w = let (r, w') = m w in elim r [ ok a ↦ (ok a, w') | err e ↦ handler e w' ]

  -- `RequestContext.run`
  abbrev pub run_in_context : Trace → Action A → Action A
  run_in_context t m w =
      let (r, w') = m (record w { trace = some t }) in (r, record w' { trace = w.trace })

infixl 5 ◌>>=◌ ◌>>◌
abbrev pub ◌>>=◌ : {A B : Type 0} → Action A → (A → Action B) → Action B
◌>>=◌ m f w = let (r, w') = m w in elim r [ ok a ↦ f a w' | err e ↦ (err e, w') ]

abbrev pub ◌>>◌ : {A B : Type 0} → Action A → Action B → Action B
m >> k = m >>= λ _. k

-- `new Date().toISOString()` and `Date.now()`
abbrev pub now : Action ℕ
now w = (
  ok (w.env.times w.env.time_reads),
  record w { env = record w.env { time_reads = w.env.time_reads + 1 } },
)

-- `randomUUID()`
abbrev pub random_uuid : Action String
random_uuid w = (
  ok (w.env.uuids w.env.uuid_reads),
  record w { env = record w.env { uuid_reads = w.env.uuid_reads + 1 } },
)

-- the statements that write one table
abbrev pub write : (Db → Db) → Action Unit
write f w = (ok tt, record w { db = f w.db })

-- a constraint that SQLite checks before it writes
abbrev pub require : Bool → Error → Action Unit
require holds e w = (if holds then ok tt else err e, w)

-- an INSERT that SQLite may refuse
abbrev pub write_if : Bool → Error → (Db → Db) → Action Unit
write_if fits e f w = if fits then (ok tt, record w { db = f w.db }) else (err e, w)
