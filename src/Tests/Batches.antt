-- ===== src/Tests/Batches.antt =====
-- Batches in the sample world.
use timeoff_request.Base.{◌≡◌, ◌≤◌, refl, String, some, true, false, [], ◌∷◌, length, ltb, arith}
use timeoff_request.Base.Int.{pos}
use timeoff_request.Base.Table.{find, count_where}
use timeoff_request.Domain.Errors.{ok}
use timeoff_request.Domain.Days.{finite, nan}
use timeoff_request.Store.Rows.{BatchJob, completed, running}
use timeoff_request.Store.World.{World}
use timeoff_request.Hcm.Batch.{
  BatchPayload, BatchReport, is_invalid_row, is_known, processed_of, ingest_batch,
}
use timeoff_request.Hcm.Rows.{days_at, final_days, total_of}
use timeoff_request.Hcm.Ingestion.{
  job_of, rest_of, skipped, ingest_batch_lem, known_batch_is_skipped,
}
use timeoff_request.Tests.Sample.{world}

-- three rows, one of them without a number, in chunks of two
abbrev payload : BatchPayload
payload = record {
  job_id = "j1";
  checksum = "c1";
  balances =
      record { employee_id = "e1"; location_id = "l1"; days = finite (pos 8) }
      ∷ record { employee_id = "e2"; location_id = "l1"; days = nan }
      ∷ record { employee_id = "e2"; location_id = "l1"; days = finite (pos 3) }
      ∷ [];
  chunk_size = some 2;
}

-- the job has been left after its first row
abbrev interrupted : World
interrupted = record world {
  db = record world.db {
    batch_jobs =
        record {
          job_id = "j1";
          checksum = "c1";
          status = running;
          total_rows = 3;
          processed_rows = 1;
          chunk_size = 1;
          created_at = 3;
          updated_at = 3;
        }
        ∷ [];
  };
}

ingest_batch_lem_example :
    let again = record payload { checksum = "c2" } in
    let (r, w') = ingest_batch again interrupted in
    ((report : BatchReport) × (r ≡ ok report)
      × (report.deduped ≡ false)
      × (report.resumed ≡ ltb 0 (processed_of (job_of again interrupted)))
      × (total_of report.counts ≡ length (rest_of again interrupted))
      × (report.counts.rejected ≡ count_where is_invalid_row (rest_of again interrupted)))
    × ((j k : String)
        → days_at j k w' ≡ final_days (rest_of again interrupted) j k (days_at j k interrupted))
    × ((job : BatchJob) × (job_of again w' ≡ some job)
        × (job.status ≡ completed)
        × (job.processed_rows ≡ length again.balances))
unfolding find
ingest_batch_lem_example =
    ingest_batch_lem (record payload { checksum = "c2" }) interrupted refl refl (omega arith)

known_batch_is_skipped_example :
    (is_known "c1" (job_of payload interrupted) ≡ true
      → ingest_batch payload interrupted ≡ (ok skipped, interrupted))
    × (is_known "c1" (job_of payload interrupted) ≡ false
        → processed_of (job_of payload interrupted) ≤ 3
        → let w' = (ingest_batch payload interrupted).1 in
          ingest_batch payload w' ≡ (ok skipped, w'))
known_batch_is_skipped_example = known_batch_is_skipped payload interrupted refl
