-- ===== src/Invariant/Requests.antt =====
-- The operations on requests keep what their statements keep.
use timeoff_request.Base.{
  ℕ, zero, suc, ◌≡◌, refl, ap, sym, String, Option, none, some, false, arith, eq_iff, inl, inr, ◌⊎◌,
  Option-cases,
}
use mathlib.Core.Path.{subst}
use timeoff_request.Base.Int.{pos}
use timeoff_request.Base.Table.{find, find_holds}
use timeoff_request.Store.Rows.{Db, Balance, TimeOffRequest, RequestRow, is_request}
use timeoff_request.Domain.Errors.{
  Result-cases, ok, err, domain, request_not_found, illegal_status_transition,
}
use timeoff_request.Domain.Status.{
  RequestStatus, pending, approved, synced, rejected, cancelled, failed_sync, reversed,
  assert_transition, status_eqb,
}
use timeoff_request.Store.World.{World, Action, pure, lift, with_transaction, ◌>>=◌, ◌>>◌}
use timeoff_request.Store.Run.{bind_ok, bind_err}
use timeoff_request.Store.Keeps.{
  Keeps, keeps_rules, Keeps-write_if, Keeps-bind, Keeps-with_transaction,
}
use timeoff_request.Invariant.Writes.{Writes}
use timeoff_request.Invariant.Balances.{or_upsert-Keeps, consume_with_version-Keeps}
use timeoff_request.Requests.Repository
use timeoff_request.Requests.Repository.{
  request_row, event_row, saved, request_synced, request_reversed, refunded, drifts, flagged,
}
use timeoff_request.Requests.Service
use timeoff_request.Requests.Closing.{
  Closing, rejecting, cancelling, close, closed_at, refused, close_run,
}
use timeoff_request.Balances.Rows.{clock}
use timeoff_request.Balances
use timeoff_request.Balances.{same_event, or_else}
use timeoff_request.Invariant.Approval.{finish_approval-Keeps}

pending_or : (s : RequestStatus) → (s ≡ pending) ⊎ (status_eqb s pending ≡ false)
pending_or pending = inl refl
pending_or approved = inr refl
pending_or synced = inr refl
pending_or rejected = inr refl
pending_or cancelled = inr refl
pending_or failed_sync = inr refl
pending_or reversed = inr refl

find_by_id-absent :
    (id : String) (w : World)
    → find (is_request id) w.db.requests ≡ none
    → Service.find_by_id id w ≡ (err (domain request_not_found), w)
unfolding Service.find_by_id Repository.find_by_id
find_by_id-absent id w h = ground (arith, h)

find_by_id-found :
    (id : String) (row : RequestRow) (w : World)
    → find (is_request id) w.db.requests ≡ some row
    → Service.find_by_id id w ≡ (ok row.request, w)
unfolding Service.find_by_id Repository.find_by_id
find_by_id-found id row w h = ground (arith, h)

module _ (P : Db → Type 0) (laws : Writes P) where
  create-Keeps : (request : TimeOffRequest) → Keeps P (Repository.create request)
  unfolding Repository.create
  create-Keeps request = search (keeps_rules, Keeps-write_if, laws.creates)

  reserve-Keeps :
      (b : Balance) (request : TimeOffRequest)
      → laws.Kind request.id
      → Keeps P (Service.reserve b request)
  unfolding Service.reserve
  reserve-Keeps b request kind =
      search (keeps_rules, consume_with_version-Keeps, finish_approval-Keeps P laws)

  or_not_found-Keeps : (o : Option TimeOffRequest) → Keeps P (Service.or_not_found o)
  or_not_found-Keeps none = record { at = λ w h. h }
  or_not_found-Keeps (some r) = record { at = λ w h. h }

  find_by_id-Keeps : (id : String) → Keeps P (Service.find_by_id id)
  unfolding Service.find_by_id
  find_by_id-Keeps id = search (keeps_rules, or_not_found-Keeps)

  -- what follows `assertTransition` of the request that was found
  allowed-Keeps :
      {B : Type 0} (id : String) (next : RequestStatus) (k : TimeOffRequest → Action B)
      → ((request : TimeOffRequest) → laws.Kind request.id → Keeps P (k request))
      → Keeps P (
          Service.find_by_id id >>= λ request.
          lift (assert_transition request.status next) >> k request)
  allowed-Keeps id next k rest = record {
    at = λ w h. elim (Option-cases (find (is_request id) w.db.requests)) [
      | inl absent ↦
          rw (bind_err _ _ w w (domain request_not_found) (find_by_id-absent id w absent)) h
      | inr (row, found) ↦
          rw
            (bind_ok _ (λ request. lift (assert_transition request.status next) >> k request) w w
              row.request (find_by_id-found id row w found))
            (elim (Result-cases (assert_transition row.status next)) [
              | inl allowed ↦
                  let own : id ≡ row.id =
                    ground (
                      arith,
                      eq_iff row.id id,
                      find_holds (is_request id) w.db.requests row found,
                    ) in
                  rw
                    (bind_ok (lift (assert_transition row.status next)) (λ _. k row.request) w w tt
                      (ap (λ r. (r, w)) allowed))
                    ((rest row.request (
                        subst laws.Kind own
                          (laws.kind_of_request id row next w.db h found allowed))).at
                      w h)
              | inr (e, denied) ↦
                  rw
                    (bind_err (lift (assert_transition row.status next)) (λ _. k row.request) w w e
                      (ap (λ r. (r, w)) denied))
                    h
            ])
    ];
  }

  approve_once-Keeps : (id : String) → Keeps P (Service.approve_once id)
  unfolding Service.approve_once Balances.get
  approve_once-Keeps id =
      allowed-Keeps id approved
        (λ request. do
          found ← Balances.get request.employee_id request.location_id
          current ←
              or_else found
                (Balances.upsert_absolute request.employee_id request.location_id (pos 0))
          Service.reserve current request)
        (λ request kind. search (keeps_rules, or_upsert-Keeps, reserve-Keeps) depth 12)

  or_retry-Keeps :
      (n : ℕ) (id : String) (o : Option TimeOffRequest)
      → Keeps P (Service.approve_within n id)
      → Keeps P (elim o as (λ _. Action TimeOffRequest) [
        | some request ↦ pure request
        | none ↦ Service.approve_within n id
      ])
  or_retry-Keeps n id none k = k
  or_retry-Keeps n id (some request) k = record { at = λ w h. h }

  approve_within-Keeps : (n : ℕ) (id : String) → Keeps P (Service.approve_within n id)
  unfolding Service.approve_within
  approve_within-Keeps zero id = search keeps_rules
  approve_within-Keeps (suc n) id =
      Keeps-bind P (with_transaction (Service.approve_once id)) _
        (Keeps-with_transaction P (Service.approve_once id) (approve_once-Keeps id))
        (λ o. or_retry-Keeps n id o (approve_within-Keeps n id))

  pub approve-Keeps : (id : String) → Keeps P (Service.approve id)
  unfolding Service.approve
  approve-Keeps id = approve_within-Keeps 3 id

  close-Keeps : (c : Closing) (id : String) → Keeps P (close c id)
  close-Keeps c id = record {
    at = λ w h. elim (Option-cases (find (is_request id) w.db.requests)) [
      | inl absent ↦ rw (refused c id w request_not_found (ground (arith, absent))) h
      | inr (row, found) ↦ elim (pending_or row.status) [
        | inl open_status ↦
            let own : row.id ≡ id =
              ground
                (arith, eq_iff row.id id, find_holds (is_request id) w.db.requests row found) in
            rw (close_run c id row w found open_status) (
              laws.closes row.id row (saved (closed_at c (clock w) row.request)) w.db
                (subst (λ k. find (is_request k) w.db.requests ≡ some row) (sym own) found)
                open_status (record { same_key = λ r. refl; same_days = λ r. refl }) h)
        | inr other ↦ rw (refused c id w illegal_status_transition (ground (arith, found, other))) h
      ]
    ];
  }

  pub reject-Keeps : (id : String) → Keeps P (Service.reject id)
  reject-Keeps id = close-Keeps rejecting id

  pub cancel-Keeps : (id : String) → Keeps P (Service.cancel id)
  cancel-Keeps id = close-Keeps cancelling id

  pub create_request-Keeps : (input : Service.CreateRequestInput) → Keeps P (Service.create input)
  unfolding Service.create
  create_request-Keeps input = search (keeps_rules, create-Keeps) depth 8

  pub get_by_id-Keeps : (id : String) → Keeps P (Service.find_by_id id)
  get_by_id-Keeps id = find_by_id-Keeps id
