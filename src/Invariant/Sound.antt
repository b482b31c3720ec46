-- ===== src/Invariant/Sound.antt =====
-- No balance is negative and every request is for a positive number of days: the invariant of
-- docs/trd/02-domain-model-and-invariants.md.
use timeoff_request.Base.{ℕ, ◌≡◌, String, true, List, arith, is_some}
use timeoff_request.Base.Int.{ℤ, pos, ◌≤ℤ◌, leb_ℤ, int_laws}
use timeoff_request.Base.All.{All, All-concat, All-if, All-update_where, All-find}
use timeoff_request.Base.Table.{find}
use timeoff_request.Store.Rows.{Db, Balance, is_balance, is_request}
use timeoff_request.Store.World.{World}
use timeoff_request.Balances.{upsert, upserted, can_consume, consumed}
use timeoff_request.Requests.Repository.{request_row, request_reversed, refunded}
use timeoff_request.Invariant.Writes.{PlainWrites, plain}
use timeoff_request.Invariant.Calls.{serve-Keeps}
use timeoff_request.Api
use timeoff_request.Api.{Call}

pub record IsSound (db : Db) : Type 0 where
  pub nonnegative : All (λ b. pos 0 ≤ℤ b.available_days) db.balances
  pub positive : All (λ r. pos 1 ≤ℤ r.days) db.requests

leb_nonneg : (d : ℤ) → leb_ℤ (pos 0) d ≡ true → pos 0 ≤ℤ d
leb_nonneg d h = ground arith

upsert-nonneg :
    (e l : String) (days : ℤ) (time : ℕ) (rows : List Balance)
    → pos 0 ≤ℤ days
    → All (λ b. pos 0 ≤ℤ b.available_days) rows
    → All (λ b. pos 0 ≤ℤ b.available_days) (upsert e l days time rows)
unfolding upsert
upsert-nonneg e l days time rows d h =
    All-if (All (λ b. pos 0 ≤ℤ b.available_days)) (is_some (find (is_balance e l) rows)) _ _
      (λ _.
        All-update_where (λ b. pos 0 ≤ℤ b.available_days) (is_balance e l) (upserted days time) rows
          (λ b _ _. d) h)
      (λ _. All-concat (λ b. pos 0 ≤ℤ b.available_days) rows _ h d)

pub IsSound-Writes : PlainWrites IsSound
IsSound-Writes = record {
  elsewhere =
      λ db now b r s h. record { nonnegative = rw b h.nonnegative; positive = rw r h.positive };
  upserts = λ e l days time db d h. record {
    nonnegative = upsert-nonneg e l days time db.balances (leb_nonneg days d) h.nonnegative;
    positive = h.positive;
  };
  consumes = λ e l days version time db h. record {
    nonnegative =
        All-update_where (λ b. pos 0 ≤ℤ b.available_days) (can_consume e l days version)
          (consumed days time) db.balances (λ b fits _. ground arith) h.nonnegative;
    positive = h.positive;
  };
  creates = λ request db d h. record {
    nonnegative = h.nonnegative;
    positive =
        All-concat (λ r. pos 1 ≤ℤ r.days) db.requests (request_row request) h.positive
          (ground arith);
  };
  updates_requests = λ p f db same h. record {
    nonnegative = h.nonnegative;
    positive =
        All-update_where (λ r. pos 1 ≤ℤ r.days) p f db.requests (λ r _ k. rw same k) h.positive;
  };
  reverses = λ id row time later db found h.
      let d : pos 1 ≤ℤ row.days =
        All-find (λ r. pos 1 ≤ℤ r.days) (is_request id) db.requests row found h.positive in
      record {
        nonnegative =
            All-update_where (λ b. pos 0 ≤ℤ b.available_days)
              (is_balance row.employee_id row.location_id) (refunded row.days later) db.balances
              (λ b _ k. grind int_laws) h.nonnegative;
        positive =
            All-update_where (λ r. pos 1 ≤ℤ r.days) (is_request row.id) (request_reversed time)
              db.requests (λ r _ k. k) h.positive;
      };
  adds_event = λ r db h. record { nonnegative = h.nonnegative; positive = h.positive };
  updates_events = λ p f db key h. record { nonnegative = h.nonnegative; positive = h.positive };
}

-- From a database in which no balance is negative and every request is for a positive number of
-- days, every history of calls, of all routes and with any answers of the HCM, leads to such a
-- database.
pub serve-IsSound : (calls : List Call) (w : World) → IsSound w.db → IsSound (Api.serve calls w).db
serve-IsSound = serve-Keeps IsSound (plain IsSound IsSound-Writes)
