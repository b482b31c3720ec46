-- ===== src/Invariant/Batch.antt =====
-- A batch keeps what its statements keep.
use timeoff_request.Base.{ℕ, zero, suc, ◌+◌, String, Option, none, some, List, [], ◌∷◌}
use timeoff_request.Store.Rows.{Db, Balance, BatchRow}
use timeoff_request.Store.Keeps.{Keeps, keeps_rules, Keeps-bind}
use timeoff_request.Invariant.Writes.{Writes}
use timeoff_request.Invariant.Balances.{write_elsewhere, upsert_absolute-Keeps}
use timeoff_request.Hcm.Batch

module _ (P : Db → Type 0) (laws : Writes P) where
  ingest_valid-Keeps :
      (row : BatchRow) (o : Option Balance) (c : Batch.Counts)
      → Keeps P (Batch.ingest_valid row o c)
  unfolding Batch.ingest_valid
  ingest_valid-Keeps row none c = search (keeps_rules, upsert_absolute-Keeps)
  ingest_valid-Keeps row (some b) c = search (keeps_rules, upsert_absolute-Keeps)

  ingest_row-Keeps :
      (job_id : String) (row : BatchRow) (c : Batch.Counts)
      → Keeps P (Batch.ingest_row job_id row c)
  unfolding Batch.ingest_row
  ingest_row-Keeps job_id row c = search (keeps_rules, write_elsewhere, ingest_valid-Keeps) depth 8

  ingest_rows-Keeps :
      (job_id : String) (rows : List BatchRow) (c : Batch.Counts)
      → Keeps P (Batch.ingest_rows job_id rows c)
  unfolding Batch.ingest_rows
  ingest_rows-Keeps job_id [] c = search keeps_rules
  ingest_rows-Keeps job_id (row ∷ rows) c =
      Keeps-bind P (Batch.ingest_row job_id row c) (Batch.ingest_rows job_id rows)
        (ingest_row-Keeps job_id row c) (ingest_rows-Keeps job_id rows)

  save_checkpoint-Keeps :
      (job_id : String) (i size processed : ℕ)
      → Keeps P (Batch.save_checkpoint job_id i size processed)
  unfolding Batch.save_checkpoint
  save_checkpoint-Keeps job_id i size processed = search (keeps_rules, write_elsewhere) depth 9

  ingest_chunks-Keeps :
      (rounds : ℕ) (job_id : String) (rows : List BatchRow) (size i : ℕ) (c : Batch.Counts)
      → Keeps P (Batch.ingest_chunks rounds job_id rows size i c)
  unfolding Batch.ingest_chunks
  ingest_chunks-Keeps zero job_id rows size i c = search keeps_rules
  ingest_chunks-Keeps (suc rounds) job_id rows size i c =
      search
        (
          keeps_rules,
          ingest_rows-Keeps,
          save_checkpoint-Keeps,
          ingest_chunks-Keeps rounds job_id rows size (i + size),
        )
        depth 8

  run_job-Keeps : (payload : Batch.BatchPayload) → Keeps P (Batch.run_job payload)
  unfolding Batch.run_job
  run_job-Keeps payload = search (keeps_rules, write_elsewhere, ingest_chunks-Keeps) depth 14

  pub ingest_batch-Keeps : (payload : Batch.BatchPayload) → Keeps P (Batch.ingest_batch payload)
  unfolding Batch.ingest_batch
  ingest_batch-Keeps payload = search (keeps_rules, run_job-Keeps) depth 8
