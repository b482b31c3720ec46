-- ===== src/Hcm/Rows.antt =====
-- What a list of batch rows does to the balances and the counters (the inner loop of `ingestBatch`
-- in services/batch-sync.service.ts).
use mathlib.Core.Option
use timeoff_request.Base.{
  ℕ, ◌+◌, ◌≡◌, refl, String, Option, some, true, false, not, ◌&&◌, ◌==◌, List, [], ◌∷◌, ◌++◌, arith,
  eq_iff, inl, inr, Option-cases, Bool-cases, if◌then◌else◌, length,
}
use timeoff_request.Base.Int.{ℤ, pos, leb_ℤ, int_eqb, int_eqb_iff}
use timeoff_request.Base.Table.{count_where}
use timeoff_request.Domain.Errors.{Result, ok}
use timeoff_request.Domain.Days.{Number, is_finite, lt_zero, days_of}
use timeoff_request.Store.Rows.{BatchRow}
use timeoff_request.Store.World.{World}
use timeoff_request.Balances
use timeoff_request.Balances.Delta.{row_of, stored, upsert_absolute_lem}
use timeoff_request.Hcm.Batch.{Counts, is_invalid_row, ingest_valid, ingest_row, ingest_rows}

-- the days of a key, if it has a row
abbrev pub days_at : String → String → World → Option ℤ
days_at j k w = Option.map (λ b. b.available_days) (row_of j k w)

-- the last valid row of a key decides
unfoldable pub final_days : List BatchRow → String → String → Option ℤ → Option ℤ
final_days [] j k d = d
final_days (row ∷ rows) j k d = final_days rows j k (
    if not (is_invalid_row row) && (row.employee_id == j && row.location_id == k)
    then some (days_of row.days)
    else d)

pub final_days-append :
    (xs ys : List BatchRow) (j k : String) (d : Option ℤ)
    → final_days (xs ++ ys) j k d ≡ final_days ys j k (final_days xs j k d)
unfolding final_days
final_days-append [] ys j k d = refl
final_days-append (x ∷ xs) ys j k d = final_days-append xs ys j k _

abbrev pub total_of : Counts → ℕ
total_of c = c.inserted + c.updated + c.unchanged + c.rejected

-- The rows are all taken: nothing is thrown, each row is counted once, the invalid ones as
-- rejected, and the balances are those that the last valid rows say.
pub record RowsRun (rows : List BatchRow) (c : Counts) (w : World) (out : Result Counts × World)
    : Type 0 where
  pub counts : Counts
  pub returns : out.0 ≡ ok counts
  pub total : total_of counts ≡ total_of c + length rows
  pub rejects : counts.rejected ≡ c.rejected + count_where is_invalid_row rows
  pub days : (j k : String) → days_at j k out.1 ≡ final_days rows j k (days_at j k w)
  pub jobs : out.1.db.batch_jobs ≡ w.db.batch_jobs

valid_number :
    (n : Number) → not (is_finite n) ≡ false → lt_zero n ≡ false → leb_ℤ (pos 0) (days_of n) ≡ true
valid_number (Number.finite z) h h' = ground arith
valid_number _ h h' = ground arith

valid_days : (row : BatchRow) → is_invalid_row row ≡ false → leb_ℤ (pos 0) (days_of row.days) ≡ true
valid_days row h = ground (arith, valid_number row.days)

pub stored-days : (e l : String) (days : ℤ) (w : World) → (stored e l days w).available_days ≡ days
stored-days e l days w = elim (Option-cases (row_of e l w)) [
  | inl fresh ↦ ground arith
  | inr (b, old) ↦ ground arith
]

ingest_valid-RowsRun :
    (row : BatchRow) (c : Counts) (w : World)
    → is_invalid_row row ≡ false
    → RowsRun (row ∷ []) c w (ingest_valid row (row_of row.employee_id row.location_id w) c w)
unfolding ingest_valid final_days count_where
ingest_valid-RowsRun row c w valid =
    let fits = valid_days row valid in
    let (r, rows, frame) =
      upsert_absolute_lem row.employee_id row.location_id (days_of row.days) w in
    let same = stored-days row.employee_id row.location_id (days_of row.days) w in
    elim (Option-cases (row_of row.employee_id row.location_id w)) [
      | inl fresh ↦ record {
        counts = record c { inserted = c.inserted + 1 };
        returns = ground (arith, r);
        total = ground arith;
        rejects = ground arith;
        days = λ j k. ground (arith, r, rows j k, same);
        jobs = ground (arith, r, frame);
      }
      | inr (b, old) ↦ elim (Bool-cases (int_eqb b.available_days (days_of row.days))) [
        | inl equal ↦ record {
          counts = record c { unchanged = c.unchanged + 1 };
          returns = ground arith;
          total = ground arith;
          rejects = ground arith;
          days = λ j k. ground (
            arith,
            (int_eqb_iff b.available_days (days_of row.days)).0 equal,
            eq_iff row.employee_id j,
            eq_iff row.location_id k,
          );
          jobs = ground arith;
        }
        | inr differs ↦ record {
          counts = record c { updated = c.updated + 1 };
          returns = ground (arith, r);
          total = ground arith;
          rejects = ground arith;
          days = λ j k. ground (arith, r, rows j k, same);
          jobs = ground (arith, r, frame);
        }
      ]
    ]

ingest_row-RowsRun :
    (job_id : String) (row : BatchRow) (c : Counts) (w : World)
    → RowsRun (row ∷ []) c w (ingest_row job_id row c w)
unfolding ingest_row Balances.get final_days count_where
ingest_row-RowsRun job_id row c w = elim (Bool-cases (is_invalid_row row)) [
  | inl invalid ↦ record {
    counts = record c { rejected = c.rejected + 1 };
    returns = ground arith;
    total = ground arith;
    rejects = ground arith;
    days = λ j k. ground arith;
    jobs = ground arith;
  }
  | inr valid ↦ rw valid (ingest_valid-RowsRun row c w valid)
]

pub ingest_rows-RowsRun :
    (job_id : String) (rows : List BatchRow) (c : Counts) (w : World)
    → RowsRun rows c w (ingest_rows job_id rows c w)
unfolding ingest_rows final_days count_where
ingest_rows-RowsRun job_id [] c w = record {
  counts = c;
  returns = refl;
  total = ground arith;
  rejects = ground arith;
  days = λ j k. refl;
  jobs = refl;
}
ingest_rows-RowsRun job_id (row ∷ rows) c w =
    let one = ingest_row-RowsRun job_id row c w in
    let rest = ingest_rows-RowsRun job_id rows one.counts (ingest_row job_id row c w).1 in
    record {
      counts = rest.counts;
      returns = ground (arith, one.returns, rest.returns);
      total = ground (arith, one.total, rest.total);
      rejects = ground (arith, one.rejects, rest.rejects);
      days = λ j k. ground (arith, one.returns, one.days j k, rest.days j k);
      jobs = ground (arith, one.returns, one.jobs, rest.jobs);
    }
