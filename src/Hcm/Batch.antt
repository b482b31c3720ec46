-- ===== src/Hcm/Batch.antt =====
-- `ingestBatch` of src/modules/hcm-sync/services/batch-sync.service.ts.
use timeoff_request.Base.{
  ℕ, zero, suc, ◌+◌, String, Option, none, some, Bool, true, false, not, ◌||◌, List, [], ◌∷◌, ◌++◌,
  ◌==◌, ltb, min, if◌then◌else◌, length, take, drop,
}
use timeoff_request.Base.Int.{int_eqb}
use timeoff_request.Base.Table.{find, select, update_where}
use timeoff_request.Domain.Errors.{domain, invalid_dimensions}
use timeoff_request.Domain.Days.{is_finite, lt_zero, days_of}
use timeoff_request.Store.Rows.{Balance, BatchJob, running, completed, BatchRow, DeadLetter}
use timeoff_request.Store.World.{Action, pure, raise, gets, defined, now, write, ◌>>=◌, ◌>>◌}
use timeoff_request.Balances

pub record BatchPayload : Type 0 where
  pub job_id : String
  pub checksum : String
  pub balances : List BatchRow
  pub chunk_size : Option ℕ

-- the four counters
pub record Counts : Type 0 where
  pub inserted : ℕ
  pub updated : ℕ
  pub unchanged : ℕ
  pub rejected : ℕ

pub record BatchReport : Type 0 where
  pub counts : Counts
  pub deduped : Bool
  pub resumed : Bool

abbrev pub no_counts : Counts
no_counts = record { inserted = 0; updated = 0; unchanged = 0; rejected = 0 }

abbrev pub is_job : String → BatchJob → Bool
is_job id j = j.job_id == id

-- the test on a row
abbrev pub is_invalid_row : BatchRow → Bool
is_invalid_row row =
    row.employee_id == "" || row.location_id == "" || not (is_finite row.days) || lt_zero row.days

-- `payload.chunkSize && payload.chunkSize > 0 ? payload.chunkSize : 100`
abbrev pub effective_chunk_size : Option ℕ → ℕ
effective_chunk_size none = 100
effective_chunk_size (some zero) = 100
effective_chunk_size (some (suc n)) = suc n

abbrev pub dead_letter : String → BatchRow → ℕ → DeadLetter
dead_letter job_id row time = record {
  job_id = job_id;
  row_payload = row;
  reason = "INVALID_ROW";
  created_at = time;
}

-- what becomes of a row with valid fields
unfoldable pub ingest_valid : BatchRow → Option Balance → Counts → Action Counts
ingest_valid row none c = do
  Balances.upsert_absolute row.employee_id row.location_id (days_of row.days)
  pure (record c { inserted = c.inserted + 1 })
ingest_valid row (some existing) c =
    if int_eqb existing.available_days (days_of row.days)
    then pure (record c { unchanged = c.unchanged + 1 })
    else (do
      Balances.upsert_absolute row.employee_id row.location_id (days_of row.days)
      pure (record c { updated = c.updated + 1 }))

-- the body of `for (const row of chunk)`
unfoldable pub ingest_row : String → BatchRow → Counts → Action Counts
unfolding Balances.get
ingest_row job_id row c =
    if is_invalid_row row
    then (do
      time ← now
      write λ db. record db { dead_letters = db.dead_letters ++ dead_letter job_id row time ∷ [] }
      pure (record c { rejected = c.rejected + 1 }))
    else (do existing ← Balances.get row.employee_id row.location_id; ingest_valid row existing c)

unfoldable pub ingest_rows : String → List BatchRow → Counts → Action Counts
ingest_rows job_id [] c = pure c
ingest_rows job_id (row ∷ rows) c = do c' ← ingest_row job_id row c; ingest_rows job_id rows c'

abbrev pub progressed : ℕ → ℕ → BatchJob → BatchJob
progressed rows time j = record j { processed_rows = rows; updated_at = time }

-- the two statements at the end of a chunk
unfoldable pub save_checkpoint : String → ℕ → ℕ → ℕ → Action Unit
save_checkpoint job_id i chunk_size processed = do
  time ← now
  write λ db. record db {
    batch_jobs = update_where (is_job job_id) (progressed processed time) db.batch_jobs;
  }
  later ← now
  write λ db. record db {
    batch_checkpoints =
        db.batch_checkpoints
        ++ record {
          job_id = job_id;
          checkpoint_index = (i, chunk_size);
          processed_rows = processed;
          created_at = later;
        }
          ∷ [];
  }

-- `for (let i = startAt; i < payload.balances.length; i += chunkSize)`, with the rounds that may
-- still be made
unfoldable pub ingest_chunks : ℕ → String → List BatchRow → ℕ → ℕ → Counts → Action Counts
ingest_chunks zero job_id rows chunk_size i c = pure c
ingest_chunks (suc rounds) job_id rows chunk_size i c =
    let next : Action Counts = (do
      c' ← ingest_rows job_id (take chunk_size (drop i rows)) c
      save_checkpoint job_id i chunk_size (min (i + chunk_size) (length rows))
      ingest_chunks rounds job_id rows chunk_size (i + chunk_size) c') in
    if ltb i (length rows) then next else pure c

abbrev pub processed_of : Option BatchJob → ℕ
processed_of none = 0
processed_of (some j) = j.processed_rows

abbrev pub created_of : ℕ → Option BatchJob → ℕ
created_of time none = time
created_of time (some j) = j.created_at

abbrev pub started_job : BatchPayload → ℕ → Option BatchJob → BatchJob
started_job payload time existing = record {
  job_id = payload.job_id;
  checksum = payload.checksum;
  status = running;
  total_rows = length payload.balances;
  processed_rows = processed_of existing;
  chunk_size = effective_chunk_size payload.chunk_size;
  created_at = created_of time existing;
  updated_at = time;
}

-- `INSERT OR REPLACE`: the row of the same key goes, and the new one comes last
unfoldable pub replace_job : BatchJob → List BatchJob → List BatchJob
replace_job job jobs = select (λ j. not (is_job job.job_id j)) jobs ++ job ∷ []

abbrev pub finished : ℕ → BatchJob → BatchJob
finished time j = record j { status = completed; updated_at = time }

-- what follows the test for a known job
unfoldable pub run_job : BatchPayload → Action BatchReport
unfolding replace_job
run_job payload = do
  time ← now
  write λ db. record db {
    batch_jobs =
        replace_job (started_job payload time (find (is_job payload.job_id) db.batch_jobs))
          db.batch_jobs;
  }
  job ← gets λ w. find (is_job payload.job_id) w.db.batch_jobs
  started ← defined job
  counts ←
      ingest_chunks (suc (length payload.balances)) payload.job_id payload.balances
        (effective_chunk_size payload.chunk_size) started.processed_rows no_counts
  end_time ← now
  write λ db. record db {
    batch_jobs = update_where (is_job payload.job_id) (finished end_time) db.batch_jobs;
  }
  pure (record { counts = counts; deduped = false; resumed = ltb 0 started.processed_rows })

-- `existingJob && existingJob.checksum === payload.checksum`
abbrev pub is_known : String → Option BatchJob → Bool
is_known checksum none = false
is_known checksum (some j) = j.checksum == checksum

unfoldable pub ingest_batch : BatchPayload → Action BatchReport
ingest_batch payload = do
  if payload.job_id == "" || payload.checksum == ""
      then raise (domain invalid_dimensions)
      else pure tt
  existing ← gets λ w. find (is_job payload.job_id) w.db.batch_jobs
  if is_known payload.checksum existing
      then pure (record { counts = no_counts; deduped = true; resumed = false })
      else run_job payload
