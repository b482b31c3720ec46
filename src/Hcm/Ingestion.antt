-- ===== src/Hcm/Ingestion.antt =====
-- `ingestBatch` (services/batch-sync.service.ts): a run over the rows that its job has not taken
-- yet, and the answer to a payload that it knows.
use timeoff_request.Base.{
  ℕ, zero, suc, ◌≤◌, ◌≡◌, refl, String, Option, none, some, true, false, not, ◌||◌, ◌==◌, List, [],
  ◌∷◌, arith, eq_refl, length, drop, ltb,
}
use timeoff_request.Base.Table.{find, select, count_where, update_where, find-append, find-updated}
use timeoff_request.Domain.Errors.{Result, ok}
use timeoff_request.Store.Rows.{BatchJob, completed, BatchRow}
use timeoff_request.Store.World.{World}
use timeoff_request.Balances.Rows.{clock, ticked}
use timeoff_request.Hcm.Batch.{
  BatchPayload, Counts, BatchReport, no_counts, is_job, is_invalid_row, effective_chunk_size,
  processed_of, started_job, replace_job, finished, ingest_chunks, run_job, is_known, ingest_batch,
}
use timeoff_request.Hcm.Rows.{days_at, final_days, total_of}
use timeoff_request.Hcm.Chunks.{ChunksRun, ingest_chunks-ChunksRun}

find-select_job :
    (job : BatchJob) (id : String) (jobs : List BatchJob)
    → find (is_job id) (select (λ j. not (is_job id j)) jobs) ≡ none
unfolding find select
find-select_job job id [] = refl
find-select_job job id (j ∷ jobs) = ground (arith, find-select_job job id jobs)

find-replace_job :
    (job : BatchJob) (jobs : List BatchJob)
    → find (is_job job.job_id) (replace_job job jobs) ≡ some job
unfolding replace_job
find-replace_job job jobs = ground (
  arith,
  find-append (is_job job.job_id) (select (λ j. not (is_job job.job_id j)) jobs) job,
  find-select_job job job.job_id jobs,
  eq_refl job.job_id,
)

positive_size : (size : Option ℕ) → 1 ≤ effective_chunk_size size
positive_size none = omega arith
positive_size (some zero) = omega arith
positive_size (some (suc n)) = omega arith

abbrev pub job_of : BatchPayload → World → Option BatchJob
job_of payload w = find (is_job payload.job_id) w.db.batch_jobs

-- the rows that the run has to take
abbrev pub rest_of : BatchPayload → World → List BatchRow
rest_of payload w = drop (processed_of (job_of payload w)) payload.balances

-- the world with the job's new row
abbrev started : BatchPayload → World → World
started payload w = record (ticked w) {
  db = record w.db {
    batch_jobs = replace_job (started_job payload (clock w) (job_of payload w)) w.db.batch_jobs;
  };
}

module _ (payload : BatchPayload) (w : World) where
  abbrev run_of : Result Counts × World
  run_of =
      ingest_chunks (suc (length payload.balances)) payload.job_id payload.balances
        (effective_chunk_size payload.chunk_size) (processed_of (job_of payload w)) no_counts
        (started payload w)

  abbrev JobRun : Type 0
  JobRun =
      ChunksRun payload.job_id payload.balances (processed_of (job_of payload w)) no_counts
        (started payload w) run_of

  chunks_of : processed_of (job_of payload w) ≤ length payload.balances → JobRun
  chunks_of fits =
      ingest_chunks-ChunksRun (suc (length payload.balances))
        (effective_chunk_size payload.chunk_size) payload.job_id payload.balances
        (processed_of (job_of payload w)) no_counts (started payload w)
        (started_job payload (clock w) (job_of payload w)) (positive_size payload.chunk_size)
        (ground arith)
        (find-replace_job (started_job payload (clock w) (job_of payload w)) w.db.batch_jobs)
        (ground arith)

  abbrev ended : World
  ended = record (ticked run_of.1) {
    db = record run_of.1.db {
      batch_jobs =
          update_where (is_job payload.job_id) (finished (clock run_of.1)) run_of.1.db.batch_jobs;
    };
  }

  run_job_lem :
      (run : JobRun)
      → run_job payload w ≡ (
        ok (record {
          counts = run.counts;
          deduped = false;
          resumed = ltb 0 (processed_of (job_of payload w));
        }),
        ended,
      )
  unfolding run_job
  run_job_lem run = ground (
    arith,
    run.returns,
    find-replace_job (started_job payload (clock w) (job_of payload w)) w.db.batch_jobs,
  )

  ingest_runs :
      (payload.job_id == "" || payload.checksum == "") ≡ false
      → is_known payload.checksum (job_of payload w) ≡ false
      → ingest_batch payload w ≡ run_job payload w
  unfolding ingest_batch
  ingest_runs valid unknown = ground arith

  job_ended :
      (job : BatchJob)
      → find (is_job payload.job_id) run_of.1.db.batch_jobs ≡ some job
      → job_of payload ended ≡ some (finished (clock run_of.1) job)
  job_ended job found =
      find-updated (is_job payload.job_id) (finished (clock run_of.1)) run_of.1.db.batch_jobs job
        (λ r. refl) found

-- A payload with a job id and a checksum that the job does not have (a new job, or one of another
-- checksum), whose job has taken no more rows than the payload has, for any chunk size: nothing is
-- thrown; each of the rows that the job has not taken is counted once, the invalid ones as
-- rejected (and the answer says whether it resumed); each key has the days of the last valid one of these rows, or as before; the job is
-- completed with all rows of the payload processed.
pub ingest_batch_lem :
    (payload : BatchPayload) (w : World)
    → (payload.job_id == "" || payload.checksum == "") ≡ false
    → is_known payload.checksum (job_of payload w) ≡ false
    → processed_of (job_of payload w) ≤ length payload.balances
    → let (r, w') = ingest_batch payload w in
      ((report : BatchReport) × (r ≡ ok report)
        × (report.deduped ≡ false)
        × (report.resumed ≡ ltb 0 (processed_of (job_of payload w)))
        × (total_of report.counts ≡ length (rest_of payload w))
        × (report.counts.rejected ≡ count_where is_invalid_row (rest_of payload w)))
      × ((j k : String) → days_at j k w' ≡ final_days (rest_of payload w) j k (days_at j k w))
      × ((job : BatchJob) × (job_of payload w' ≡ some job)
          × (job.status ≡ completed)
          × (job.processed_rows ≡ length payload.balances))
ingest_batch_lem payload w valid unknown fits =
    let run = chunks_of payload w fits in
    let (job, found, processed, _) = run.job in
    rw (ingest_runs payload w valid unknown) (
      rw (run_job_lem payload w run) (
        (
          record {
            counts = run.counts;
            deduped = false;
            resumed = ltb 0 (processed_of (job_of payload w));
          },
          refl,
          refl,
          refl,
          omega (arith, run.total),
          omega (arith, run.rejects),
        ),
        run.days,
        (finished (clock (run_of payload w).1) job, job_ended payload w job found, refl, processed),
      ))

abbrev pub skipped : BatchReport
skipped = record { counts = no_counts; deduped = true; resumed = false }

skip_lem :
    (payload : BatchPayload) (w : World)
    → (payload.job_id == "" || payload.checksum == "") ≡ false
    → is_known payload.checksum (job_of payload w) ≡ true
    → ingest_batch payload w ≡ (ok skipped, w)
unfolding ingest_batch
skip_lem payload w valid known = ground arith

is_known_after :
    (payload : BatchPayload) (w : World)
    → (payload.job_id == "" || payload.checksum == "") ≡ false
    → is_known payload.checksum (job_of payload w) ≡ false
    → processed_of (job_of payload w) ≤ length payload.balances
    → is_known payload.checksum (job_of payload (ingest_batch payload w).1) ≡ true
is_known_after payload w valid unknown fits =
    let run = chunks_of payload w fits in
    let (job, found, _, checksum) = run.job in
    let first = started_job payload (clock w) (job_of payload w) in
    let same : job.checksum ≡ payload.checksum =
      checksum first (find-replace_job first w.db.batch_jobs) in
    rw (ingest_runs payload w valid unknown) (
      rw (run_job_lem payload w run)
        (ground (arith, job_ended payload w job found, same, eq_refl payload.checksum)))

-- A payload whose job has the same checksum is skipped, whatever the status of the job and the rows
-- that it has left: nothing is counted, nothing is written, and the answer says so. So is a payload
-- that was taken (as in `ingest_batch_lem`) when it is sent again.
pub known_batch_is_skipped :
    (payload : BatchPayload) (w : World)
    → (payload.job_id == "" || payload.checksum == "") ≡ false
    → (is_known payload.checksum (job_of payload w) ≡ true
        → ingest_batch payload w ≡ (ok skipped, w))
      × (is_known payload.checksum (job_of payload w) ≡ false
          → processed_of (job_of payload w) ≤ length payload.balances
          → let w' = (ingest_batch payload w).1 in ingest_batch payload w' ≡ (ok skipped, w'))
known_batch_is_skipped payload w valid = (
  skip_lem payload w valid,
  λ unknown fits.
      skip_lem payload (ingest_batch payload w).1 valid
        (is_known_after payload w valid unknown fits),
)
