-- ===== src/Database/Reset.antt =====
-- `resetAllTables` of src/db/database.service.ts, with the foreign keys of 001_init.sql.
use timeoff_request.Base.{
  String, Option, none, some, Bool, false, not, ◌&&◌, [], ◌≡◌, ◌==◌, is_some, refl,
}
use timeoff_request.Base.Table.{find}
use timeoff_request.Domain.Errors.{ok, sqlite, foreign_key}
use timeoff_request.Store.Rows.{Db, BatchJob, is_request}
use timeoff_request.Store.World.{World, Action, write, write_if, ◌>>◌}

-- a reference that names a row
abbrev names_request : Db → Option String → Bool
names_request db none = false
names_request db (some id) = is_some (find (is_request id) db.requests)

abbrev is_job : String → BatchJob → Bool
is_job id job = job.job_id == id

abbrev names_job : Db → String → Bool
names_job db id = is_some (find (is_job id) db.batch_jobs)

-- no row of another table names a row of this one
unfoldable pub requests_are_free : Db → Bool
requests_are_free db =
    not (is_some (find (λ e. names_request db e.request_id) db.ledger))
    && not (is_some (find (λ e. names_request db e.request_id) db.sync_events))

unfoldable pub jobs_are_free : Db → Bool
jobs_are_free db =
    not (is_some (find (λ c. names_job db c.job_id) db.batch_checkpoints))
    && not (is_some (find (λ l. names_job db l.job_id) db.dead_letters))

-- a DELETE that the foreign keys of other tables may refuse
abbrev pub delete_if : (Db → Bool) → (Db → Db) → Action Unit
delete_if free f w = write_if (free w.db) (sqlite foreign_key) f w

-- the statements one after another, outside any transaction
unfoldable pub reset_all_tables : Action Unit
unfolding requests_are_free jobs_are_free
reset_all_tables = do
  write λ db. record db { log = [] }
  write λ db. record db { ledger = [] }
  write λ db. record db { sync_events = [] }
  write λ db. record db { idempotency = [] }
  write λ db. record db { dead_letters = [] }
  write λ db. record db { batch_checkpoints = [] }
  delete_if jobs_are_free (λ db. record db { batch_jobs = [] })
  write λ db. record db { drift_events = [] }
  delete_if requests_are_free (λ db. record db { requests = [] })
  write λ db. record db { balances = [] }

abbrev pub empty_db : Db
empty_db = record {
  balances = [];
  requests = [];
  ledger = [];
  sync_events = [];
  idempotency = [];
  batch_jobs = [];
  batch_checkpoints = [];
  dead_letters = [];
  drift_events = [];
  log = [];
}

-- Whatever the database holds and refers to: no statement of the reset is refused by a foreign key,
-- every table is empty after it, and nothing else of the world moves.
pub reset_all_tables_lem : (w : World) → reset_all_tables w ≡ (ok tt, record w { db = empty_db })
unfolding find requests_are_free jobs_are_free reset_all_tables
reset_all_tables_lem w = refl
