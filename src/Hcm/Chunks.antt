-- ===== src/Hcm/Chunks.antt =====
-- The chunk loop of `ingestBatch` (services/batch-sync.service.ts): whatever the chunk size, it
-- takes the rows from its start on, each once and in order.
use timeoff_request.Base.{
  ℕ, zero, suc, ◌+◌, ◌≤◌, ◌≡◌, refl, String, Option, some, Bool, true, false, List, [], ◌∷◌, ◌++◌,
  arith, inl, inr, Bool-cases, length, ltb, min, take, drop, take-append-drop, drop-drop, drop_all,
  length-append, sym, ap, ◌∙◌,
}
use timeoff_request.Base.Table.{find, count_where, find-updated}
use timeoff_request.Domain.Errors.{Result, ok}
use timeoff_request.Store.Rows.{BatchJob, BatchRow, is_balance}
use mathlib.Core.Option
use timeoff_request.Store.World.{World}
use timeoff_request.Balances.Rows.{clock}
use timeoff_request.Base.Int.{ℤ}
use timeoff_request.Hcm.Batch.{
  Counts, is_job, is_invalid_row, progressed, ingest_rows, save_checkpoint, ingest_chunks,
}
use timeoff_request.Hcm.Rows.{
  days_at, final_days, final_days-append, total_of, RowsRun, ingest_rows-RowsRun,
}

-- `RowsRun` with the job's row, which has taken all the rows of the payload and keeps its checksum.
pub record ChunksRun (job_id : String) (rows : List BatchRow) (i : ℕ) (c : Counts) (w : World)
    (out : Result Counts × World) : Type 0 where
  pub counts : Counts
  pub returns : out.0 ≡ ok counts
  pub total : total_of counts ≡ total_of c + length (drop i rows)
  pub rejects : counts.rejected ≡ c.rejected + count_where is_invalid_row (drop i rows)
  pub days : (j k : String) → days_at j k out.1 ≡ final_days (drop i rows) j k (days_at j k w)
  pub job :
      (j : BatchJob) × (find (is_job job_id) out.1.db.batch_jobs ≡ some j)
      × (j.processed_rows ≡ length rows)
      × ((k : BatchJob) → find (is_job job_id) w.db.batch_jobs ≡ some k → j.checksum ≡ k.checksum)

count_where-append :
    (p : BatchRow → Bool) (xs ys : List BatchRow)
    → count_where p (xs ++ ys) ≡ count_where p xs + count_where p ys
unfolding count_where
count_where-append p [] ys = ground arith
count_where-append p (x ∷ xs) ys = ground (arith, count_where-append p xs ys)

-- a chunk and what follows it
chunk_split :
    (size i : ℕ) (rows : List BatchRow)
    → take size (drop i rows) ++ drop (i + size) rows ≡ drop i rows
chunk_split size i rows = ground (arith, take-append-drop size (drop i rows), drop-drop size i rows)

split_counts :
    (size i : ℕ) (rows : List BatchRow)
    → count_where is_invalid_row (drop i rows)
      ≡ count_where is_invalid_row (take size (drop i rows))
        + count_where is_invalid_row (drop (i + size) rows)
split_counts size i rows = ground (
  arith,
  chunk_split size i rows,
  count_where-append is_invalid_row (take size (drop i rows)) (drop (i + size) rows),
)

split_length :
    (size i : ℕ) (rows : List BatchRow)
    → length (drop i rows) ≡ length (take size (drop i rows)) + length (drop (i + size) rows)
split_length size i rows =
    ground (
      arith,
      chunk_split size i rows,
      length-append (take size (drop i rows)) (drop (i + size) rows),
    )

split_days :
    (size i : ℕ) (rows : List BatchRow) (j k : String) (d : Option ℤ)
    → final_days (drop i rows) j k d
      ≡ final_days (drop (i + size) rows) j k (final_days (take size (drop i rows)) j k d)
split_days size i rows j k d =
    ap (λ xs. final_days xs j k d) (sym (chunk_split size i rows))
    ∙ final_days-append (take size (drop i rows)) (drop (i + size) rows) j k d

-- no rows are left
nothing_left :
    (job_id : String) (rows : List BatchRow) (i : ℕ) (c : Counts) (w : World) (job : BatchJob)
    → length rows ≤ i
    → find (is_job job_id) w.db.batch_jobs ≡ some job
    → job.processed_rows ≡ min i (length rows)
    → ChunksRun job_id rows i c w (ok c, w)
unfolding final_days count_where
nothing_left job_id rows i c w job past found at = record {
  counts = c;
  returns = refl;
  total = ground (arith, drop_all i rows);
  rejects = ground (arith, drop_all i rows);
  days = λ j k. rw (drop_all i rows past) refl;
  job = (job, found, ground arith, λ k same. ground arith);
}

no_rounds :
    (job_id : String) (rows : List BatchRow) (size i : ℕ) (c : Counts) (w : World) (job : BatchJob)
    → length rows ≤ i
    → find (is_job job_id) w.db.batch_jobs ≡ some job
    → job.processed_rows ≡ min i (length rows)
    → ChunksRun job_id rows i c w (ingest_chunks 0 job_id rows size i c w)
unfolding ingest_chunks
no_rounds job_id rows size i c w job past found at =
    nothing_left job_id rows i c w job past found at

last_round :
    (job_id : String) (rows : List BatchRow) (size i rounds : ℕ) (c : Counts) (w : World)
    (job : BatchJob)
    → ltb i (length rows) ≡ false
    → find (is_job job_id) w.db.batch_jobs ≡ some job
    → job.processed_rows ≡ min i (length rows)
    → ChunksRun job_id rows i c w (ingest_chunks (suc rounds) job_id rows size i c w)
unfolding ingest_chunks
last_round job_id rows size i rounds c w job past found at =
    rw past (nothing_left job_id rows i c w job (ground arith) found at)

module _ (job_id : String) (i size processed : ℕ) (w : World) where
  checkpoint_returns : (save_checkpoint job_id i size processed w).0 ≡ ok tt
  unfolding save_checkpoint
  checkpoint_returns = refl

  checkpoint-balances : (save_checkpoint job_id i size processed w).1.db.balances ≡ w.db.balances
  unfolding save_checkpoint
  checkpoint-balances = refl

  checkpoint-job :
      (job : BatchJob)
      → find (is_job job_id) w.db.batch_jobs ≡ some job
      → find (is_job job_id) (save_checkpoint job_id i size processed w).1.db.batch_jobs
        ≡ some (progressed processed (clock w) job)
  unfolding save_checkpoint
  checkpoint-job job found =
      find-updated (is_job job_id) (progressed processed (clock w)) w.db.batch_jobs job (λ r. refl)
        found

-- a chunk, its checkpoint, and the chunks after it
chunk_then :
    (job_id : String) (rows : List BatchRow) (size i : ℕ) (c : Counts) (w : World)
    (chunk : Result Counts × World) (rest : Result Counts × World)
    (part : RowsRun (take size (drop i rows)) c w chunk)
    → ChunksRun job_id rows
        (i + size)
        part.counts
        (save_checkpoint job_id i size (min (i + size) (length rows)) chunk.1).1
        rest
    → ChunksRun job_id rows i c w rest
chunk_then job_id rows size i c w chunk rest part later = record {
  counts = later.counts;
  returns = later.returns;
  total = ground (arith, part.total, later.total, split_length size i rows);
  rejects = ground (arith, part.rejects, later.rejects, split_counts size i rows);
  days = λ j k.
      later.days j k
      ∙ ap (final_days (drop (i + size) rows) j k) (
          ap (Option.map (λ b. b.available_days)) (
            ap (find (is_balance j k))
              (checkpoint-balances job_id i size (min (i + size) (length rows)) chunk.1))
          ∙ part.days j k)
      ∙ sym (split_days size i rows j k (days_at j k w));
  job =
      let (j, found, processed, checksum) = later.job in
      (
        j,
        found,
        processed,
        λ k first. checksum (progressed (min (i + size) (length rows)) (clock chunk.1) k) (
            checkpoint-job job_id i size (min (i + size) (length rows)) chunk.1 k
              (ground (arith, part.jobs, first))),
      );
}

module _ (job_id : String) (rows : List BatchRow) (size i rounds : ℕ) (c : Counts) (w : World)
    (part : RowsRun
      (take size (drop i rows))
      c
      w
      (ingest_rows job_id (take size (drop i rows)) c w)) where
  unfoldable w₂ : World
  w₂ =
      (save_checkpoint job_id i size (min (i + size) (length rows))
        (ingest_rows job_id (take size (drop i rows)) c w).1).1

  one_round :
      ltb i (length rows) ≡ true
      → ingest_chunks (suc rounds) job_id rows size i c w
        ≡ ingest_chunks rounds job_id rows size (i + size) part.counts w₂
  unfolding ingest_chunks w₂ save_checkpoint
  one_round more = ground (arith, part.returns)

pub ingest_chunks-ChunksRun :
    (rounds size : ℕ) (job_id : String) (rows : List BatchRow) (i : ℕ) (c : Counts) (w : World)
    (job : BatchJob)
    → 1 ≤ size
    → length rows + 1 ≤ i + rounds
    → find (is_job job_id) w.db.batch_jobs ≡ some job
    → job.processed_rows ≡ min i (length rows)
    → ChunksRun job_id rows i c w (ingest_chunks rounds job_id rows size i c w)
unfolding w₂
ingest_chunks-ChunksRun zero size job_id rows i c w job positive enough found at =
    no_rounds job_id rows size i c w job (ground arith) found at
ingest_chunks-ChunksRun (suc rounds) size job_id rows i c w job positive enough found at =
    let chunk = take size (drop i rows) in
    let done = min (i + size) (length rows) in
    let part = ingest_rows-RowsRun job_id chunk c w in
    let w₁ = (ingest_rows job_id chunk c w).1 in
    elim (Bool-cases (ltb i (length rows))) [
      | inl more ↦ rw (one_round job_id rows size i rounds c w part more) (
          chunk_then job_id rows size i c w (ingest_rows job_id chunk c w)
            (ingest_chunks rounds job_id rows size (i + size) part.counts
              (w₂ job_id rows size i rounds c w part))
            part
            (ingest_chunks-ChunksRun rounds size job_id rows (i + size) part.counts
              (w₂ job_id rows size i rounds c w part) (progressed done (clock w₁) job) positive
              (ground arith) (checkpoint-job job_id i size done w₁ job (ground (arith, part.jobs)))
              refl))
      | inr past ↦ last_round job_id rows size i rounds c w job past found at
    ]
