-- ===== src/Accounts/Effects.antt =====
-- What the calls of timeoff-requests.service.ts do to the accounts and to the keys of the requests.
use timeoff_request.Base.{
  ◌≡◌, ◌∙◌, refl, String, none, Bool, false, eq_iff, [], ◌∷◌, ◌++◌, List, arith, inl, inr,
  Bool-cases, Option-cases,
}
use timeoff_request.Base.Int.{pos, ltb_ℤ, int_laws}
use timeoff_request.Base.Table.{find, update_where, count_where, count_where-find}
use timeoff_request.Domain.Errors.{Result-cases}
use timeoff_request.Domain.Status.{pending}
use timeoff_request.Domain.Days.{assert_positive_days}
use timeoff_request.Store.Rows.{Db, TimeOffRequest, RequestRow, is_request}
use timeoff_request.Store.World.{World}
use timeoff_request.Requests.Repository
use timeoff_request.Requests.Repository.{request_row}
use timeoff_request.Requests.Service
use timeoff_request.Accounts.Tables.{count_where-append}
use timeoff_request.Accounts.Held.{is_held, weight, account, HasUniqueIds, held-append}

-- every account is as it was, and the ids are still unique
pub record Conserves (d now : Db) : Type 0 where
  pub same_accounts : (e l : String) → account e l now ≡ account e l d
  pub still_unique : HasUniqueIds now

pub Conserves-trans : (d now later : Db) → Conserves d now → Conserves now later → Conserves d later
Conserves-trans d now later h k = record {
  same_accounts = λ e l. k.same_accounts e l ∙ h.same_accounts e l;
  still_unique = k.still_unique;
}

pub same-Conserves :
    (d now : Db)
    → HasUniqueIds d
    → now.balances ≡ d.balances
    → now.requests ≡ d.requests
    → Conserves d now
same-Conserves d now unique balances requests = record {
  same_accounts = λ e l. rw (balances, requests) refl;
  still_unique = record { at_most_one = λ id. rw requests (unique.at_most_one id) };
}

pub count_where-update_where :
    (id : String) (p : RequestRow → Bool) (f : RequestRow → RequestRow) (rows : List RequestRow)
    → ((r : RequestRow) → (f r).id ≡ r.id)
    → count_where (is_request id) (update_where p f rows) ≡ count_where (is_request id) rows
unfolding count_where update_where
count_where-update_where id p f [] key = refl
count_where-update_where id p f (x ∷ rows) key =
    ground (arith, key x, count_where-update_where id p f rows key)

pub no_weight : (e l : String) (r : RequestRow) → is_held r.status ≡ false → weight e l r ≡ pos 0
no_weight e l r h = ground (arith, h)

-- a pending request under a new id
append-Conserves :
    (request : TimeOffRequest) (d : Db)
    → request.status ≡ pending
    → HasUniqueIds d
    → find (is_request request.id) d.requests ≡ none
    → Conserves d (record d { requests = d.requests ++ request_row request ∷ [] })
append-Conserves request d open_status unique fresh = record {
  same_accounts = λ e l.
      rw (held-append e l d.requests (request_row request))
        (rw (no_weight e l (request_row request) (rw open_status refl)) (grind int_laws));
  still_unique = record {
    at_most_one = λ id. ground (
      arith,
      count_where-append (is_request id) d.requests (request_row request),
      eq_iff request.id id,
      unique.at_most_one id,
      count_where-find (is_request request.id) d.requests fresh,
    );
  };
}

insert-Conserves :
    (request : TimeOffRequest) (w : World)
    → request.status ≡ pending
    → HasUniqueIds w.db
    → Conserves w.db (Repository.create request w).1.db
unfolding Repository.create
insert-Conserves request w open_status unique = elim (Bool-cases (ltb_ℤ (pos 0) request.days)) [
  | inr refused ↦ rw refused (same-Conserves w.db w.db unique refl refl)
  | inl positive ↦ elim (Option-cases (find (is_request request.id) w.db.requests)) [
    | inr (r, taken) ↦ rw (positive, taken) (same-Conserves w.db w.db unique refl refl)
    | inl fresh ↦ rw (positive, fresh) (append-Conserves request w.db open_status unique fresh)
  ]
]

pub create-Conserves :
    (input : Service.CreateRequestInput) (w : World)
    → HasUniqueIds w.db
    → Conserves w.db (Service.create input w).1.db
unfolding Service.create
create-Conserves input w unique = elim (Result-cases (assert_positive_days input.days)) [
  | inl valid ↦ elim (Bool-cases (Service.missing input.employee_id input.location_id)) [
    | inl absent ↦ rw (valid, absent) (same-Conserves w.db w.db unique refl refl)
    | inr given ↦ rw (valid, given) (insert-Conserves _ _ refl unique)
  ]
  | inr (e, invalid) ↦ rw invalid (same-Conserves w.db w.db unique refl refl)
]
