-- ===== src/Accounts/History.antt =====
-- Histories of calls on requests and balances with runs of the outbound worker in between: every
-- account stays.
use timeoff_request.Base.{
  ℕ, ◌≤◌, ◌≡◌, ◌≢◌, ◌∙◌, refl, ap, sym, String, some, Bool, true, false, eq_iff, List, [], ◌∷◌,
  arith, take,
}
use mathlib.Core.Path.{subst}
use timeoff_request.Base.All.{All, All-map}
use timeoff_request.Base.Table.{count_where}
use timeoff_request.Domain.Errors.{Error, Result, ok, err, domain}
use timeoff_request.Store.Rows.{Db, SyncEventRow}
use timeoff_request.Store.World.{World, pure, ◌>>=◌}
use timeoff_request.Balances
use timeoff_request.Balances.Rows.{ticked}
use timeoff_request.Observability
use timeoff_request.Requests.Repository
use timeoff_request.Requests.Repository.{list_due_outbound_sync_events}
use timeoff_request.Requests.Service
use timeoff_request.Requests.Closing.{Closing}
use timeoff_request.Invariant.Sound.{IsSound, IsSound-Writes}
use timeoff_request.Invariant.Writes.{plain}
use timeoff_request.Invariant.Calls.{respond-Keeps}
use timeoff_request.Hcm.Due.{all_due}
use timeoff_request.Hcm.Worker
use timeoff_request.Hcm.Reconcile.{drift_report}
use timeoff_request.Api
use timeoff_request.Api.{Call, Reply}
use timeoff_request.Accounts.Held.{account}
use timeoff_request.Accounts.Effects.{Conserves, Conserves-trans, same-Conserves, create-Conserves}
use timeoff_request.Accounts.Grants.{close-Conserves}
use timeoff_request.Accounts.Approvals.{approve-Conserves}
use timeoff_request.Accounts.Reads.{get_balance-Conserves, find_by_id_reads, filter_error-Conserves}
use timeoff_request.Accounts.Deliveries.{NamesHeld, AllApart}
use timeoff_request.Accounts.Tables.{count_where_zero}
use timeoff_request.Accounts.Owed.{IsOwed, is_waiting, waits_for, All-both}
use timeoff_request.Accounts.Working.{IsIn, Works, events-Works, known_due, waits_once}
use timeoff_request.Accounts.Keeping.{
  Continues, Continues-same, Continues-IsOwed, create-Continues, close-Continues,
  get_balance-Continues,
}
use timeoff_request.Accounts.Owing.{approve-IsOwed}

differs_from :
    (x y : SyncEventRow) (id : String)
    → x.request_id ≡ some id
    → is_waiting y ≡ true
    → waits_for id y ≡ false
    → x.request_id ≢ y.request_id
differs_from x y id names waits other same = ground (arith, names, waits, other, same, eq_iff id id)

own_waits :
    (x : SyncEventRow) (id : String)
    → x.request_id ≡ some id
    → is_waiting x ≡ true
    → waits_for id x ≡ true
own_waits x id names waits = ground (arith, names, waits, eq_iff id id)

-- events that wait, at most one for each request, name different requests
apart_of :
    (d : Db) (due : List SyncEventRow)
    → ((j : String) → count_where (waits_for j) due ≤ 1)
    → All (λ r. IsIn d r × NamesHeld d r) due
    → AllApart due
unfolding count_where
apart_of d [] once known = tt
apart_of d (x ∷ due) once known = (
  All-both (λ y. waits_for known.0.1.id y ≡ false) (λ r. IsIn d r × NamesHeld d r)
      (λ y. x.request_id ≢ y.request_id) due
      (λ y other k. differs_from x y known.0.1.id known.0.1.names k.0.waiting other)
      (count_where_zero (waits_for known.0.1.id) due (
        ground
          (arith, once known.0.1.id, own_waits x known.0.1.id known.0.1.names known.0.0.waiting)))
      known.1,
  apart_of d due (λ j. omega (arith, once j)) known.1,
)

pub process_due_events-Works :
    (limit : ℕ) (w : World) → IsOwed w.db → Works w.db (Worker.process_due_events limit w).1.db
unfolding Worker.process_due_events list_due_outbound_sync_events
process_due_events-Works limit w owed =
    let known = known_due limit w owed in
    events-Works (take limit (all_due w)) 0 (ticked w) owed
      (apart_of w.db (take limit (all_due w)) (λ j. waits_once limit w j owed) known)
      (All-map (λ r. IsIn w.db r × NamesHeld w.db r) (IsIn w.db) (λ r k. k.0)
        (take limit (all_due w)) known)

-- the calls that take nothing from the HCM
abbrev pub is_own : Call → Bool
is_own (Call.create input) = true
is_own Call.list_all = true
is_own (Call.get_by_id id) = true
is_own (Call.approve id) = true
is_own (Call.reject id) = true
is_own (Call.cancel id) = true
is_own (Call.get_balance e l) = true
is_own Call.drift = true
is_own (Call.process_outbound limit) = true
is_own _ = false

Continues-Works : (d now : Db) → IsOwed d → Conserves d now → Continues d now → Works d now
Continues-Works d now owed c k = record {
  conserved = c;
  still_owed = Continues-IsOwed d now c.still_unique k owed;
}

reads-Works : (d now : Db) → IsOwed d → now ≡ d → Works d now
reads-Works d now owed same = record {
  conserved =
      same-Conserves d now owed.requests_unique (ap (λ x. x.balances) same)
        (ap (λ x. x.requests) same);
  still_owed = subst IsOwed (sym same) owed;
}

returned-Works :
    {A B : Type 0} (f : A → B) (d : Db) (r : Result A) (w : World)
    → Works d w.db
    → Works d (((λ v. (r, w)) >>= (λ a. pure (f a))) w).1.db
returned-Works f d (ok a) w h = h
returned-Works f d (err e) w h = h

handle-Works :
    (c : Call) (w : World)
    → is_own c ≡ true
    → IsSound w.db
    → IsOwed w.db
    → Works w.db (Api.handle c w).1.db
unfolding Api.handle Service.list_all Repository.list_all drift_report
handle-Works (Call.create input) w here sound owed =
    returned-Works Reply.request w.db (Service.create input w).0 (Service.create input w).1 (
      Continues-Works w.db _ owed (create-Conserves input w owed.requests_unique)
        (create-Continues input w))
handle-Works Call.list_all w here sound owed = reads-Works w.db w.db owed refl
handle-Works (Call.get_by_id id) w here sound owed =
    returned-Works Reply.request w.db (Service.find_by_id id w).0 (Service.find_by_id id w).1
      (reads-Works w.db (Service.find_by_id id w).1.db owed (find_by_id_reads id w))
handle-Works (Call.approve id) w here sound owed =
    returned-Works Reply.request w.db (Service.approve id w).0 (Service.approve id w).1 (record {
      conserved = approve-Conserves id w sound owed.requests_unique;
      still_owed = approve-IsOwed id w sound owed;
    })
handle-Works (Call.reject id) w here sound owed =
    returned-Works Reply.request w.db (Service.reject id w).0 (Service.reject id w).1 (
      Continues-Works w.db _ owed (close-Conserves Closing.rejecting id w owed.requests_unique)
        (close-Continues Closing.rejecting id w))
handle-Works (Call.cancel id) w here sound owed =
    returned-Works Reply.request w.db (Service.cancel id w).0 (Service.cancel id w).1 (
      Continues-Works w.db _ owed (close-Conserves Closing.cancelling id w owed.requests_unique)
        (close-Continues Closing.cancelling id w))
handle-Works (Call.get_balance e l) w here sound owed =
    returned-Works Reply.balance w.db (Balances.get_balance e l w).0 (Balances.get_balance e l w).1
      (Continues-Works w.db _ owed (get_balance-Conserves e l w owed.requests_unique)
        (get_balance-Continues e l w))
handle-Works Call.drift w here sound owed = reads-Works w.db w.db owed refl
handle-Works (Call.process_outbound limit) w here sound owed =
    let n = Api.limit_or_default limit in
    returned-Works Reply.processed w.db (Worker.process_due_events n w).0
      (Worker.process_due_events n w).1 (process_due_events-Works n w owed)
handle-Works _ w here sound owed = absurd (ground (arith, here))

filter_error-Continues : (e : Error) (w : World) → Continues w.db (Api.filter_error e w).1.db
unfolding Api.filter_error Observability.log_at Observability.insert_log
filter_error-Continues (domain code) w = Continues-same w.db _ refl refl refl
filter_error-Continues _ w = Continues-same w.db w.db refl refl refl

replied-Works :
    (d : Db) (r : Result Reply) (w : World) → Works d w.db → Works d (Api.reply_of r w).1.db
replied-Works d (ok r) w h = h
replied-Works d (err e) w h = record {
  conserved =
      Conserves-trans d w.db _ h.conserved
        (filter_error-Conserves e w h.still_owed.requests_unique);
  still_owed =
      Continues-IsOwed w.db _ (filter_error-Conserves e w h.still_owed.requests_unique).still_unique
        (filter_error-Continues e w) h.still_owed;
}

respond-Works :
    (c : Call) (w : World)
    → is_own c ≡ true
    → IsSound w.db
    → IsOwed w.db
    → Works w.db (Api.respond c w).1.db
unfolding Api.respond
respond-Works c w here sound owed =
    replied-Works w.db (Api.handle c w).0 (Api.handle c w).1 (handle-Works c w here sound owed)

-- From a database in which no balance is negative, every request is for a positive number of days,
-- no two requests and no two events have the same id, and each outbound event that is not settled
-- names a request that is approved, synced or failed in synchronisation and has a balance, no two of
-- them the same request: a history of any calls but reconciliations, events and batches of the HCM,
-- with runs of the outbound worker one at a time and any answers of the HCM to it, keeps every
-- account, whichever calls fail. For each employee and location the days at hand (none without a row)
-- and the days of the requests that are approved, synced or failed in synchronisation are together
-- what they were.
pub serve-account :
    (calls : List Call) (w : World)
    → All (λ c. is_own c ≡ true) calls
    → IsSound w.db
    → IsOwed w.db
    → (e l : String) → account e l (Api.serve calls w).db ≡ account e l w.db
unfolding Api.serve
serve-account [] w own sound owed e l = refl
serve-account (c ∷ calls) w own sound owed e l =
    let step = respond-Works c w own.0 sound owed in
    serve-account calls (Api.respond c w).1 own.1
      (respond-Keeps IsSound (plain IsSound IsSound-Writes) c w sound) step.still_owed e l
    ∙ step.conserved.same_accounts e l
