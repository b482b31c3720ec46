-- ===== src/Invariant/Granted.antt =====
-- Requests from their approval on, and the events of the worker, which name them
-- (timeoff-requests.repository.ts).
use mathlib.Core.Path.{subst}
use timeoff_request.Base.{
  ◌≡◌, ◌≢◌, ◌∙◌, refl, sym, ap, String, Bool, true, ◌==◌, List, [], ◌∷◌, ◌++◌, arith, eq_iff, inl,
  inr, Bool-cases,
}
use timeoff_request.Base.All.{All, All-concat, All-map}
use timeoff_request.Base.Table.{update_where, find-update_where, find_holds, updated}
use timeoff_request.Domain.Status.{RequestStatus, pending, rejected, cancelled, reversed}
use timeoff_request.Store.Rows.{Db, RequestRow, is_request}
use timeoff_request.Requests.Repository.{request_row, request_reversed}
use timeoff_request.Hcm.Overlap
use timeoff_request.Hcm.Overlap.{System, Turn}
use timeoff_request.Invariant.Writes.{
  Writes, Carries, All-Carries, KeepsRequest, is_granted, is_taken_up, IsInPhase, IsGranted,
}
use timeoff_request.Invariant.Lifecycle.{is_closed, same_row, found-append, Carries-update}
use timeoff_request.Invariant.Overlap.{play-Keeps, All-Taken}

granted_not_pending : (s : RequestStatus) → is_granted s ≡ true → s ≢ pending
granted_not_pending s granted e = ground (arith, granted, e)

pub granted_not_closed : (s : RequestStatus) → is_granted s ≡ true → is_closed s ≢ true
granted_not_closed pending granted closed = absurd (cc)
granted_not_closed rejected granted closed = absurd (cc)
granted_not_closed cancelled granted closed = absurd (cc)
granted_not_closed _ granted closed = absurd (cc)

taken_up_is_granted : (s : RequestStatus) → is_taken_up s ≡ true → is_granted s ≡ true
taken_up_is_granted s h = ground (arith, h)

pub taken_up_not_pending : (s : RequestStatus) → is_taken_up s ≡ true → s ≢ pending
taken_up_not_pending s h e = ground (arith, h, e)

-- a kind of statuses that has all that an approval and the worker give, and not PENDING
module _ (phase : RequestStatus → Bool)
    (not_pending : (s : RequestStatus) → phase s ≡ true → s ≢ pending)
    (covers : (s : RequestStatus) → is_taken_up s ≡ true → phase s ≡ true) (id : String) where
  still-IsInPhase :
      (d now : Db) → now.requests ≡ d.requests → IsInPhase phase id d → IsInPhase phase id now
  still-IsInPhase d now same h = record { row = h.row; found = rw same h.found; holds = h.holds }

  update-phase :
      (p : RequestRow → Bool) (f : RequestRow → RequestRow) (d now : Db)
      → now.requests ≡ update_where p f d.requests
      → KeepsRequest f
      → (h : IsInPhase phase id d) → (p h.row ≡ true → phase (f h.row).status ≡ true)
      → IsInPhase phase id now
  update-phase p f d now change key h fits = record {
    row = updated p f h.row;
    found = rw change (
        find-update_where p (is_request id) f d.requests (λ r. ap (λ k. k == id) (key.same_key r))
        ∙ (rw h.found refl));
    holds = elim (Bool-cases (p h.row)) [
      | inl yes_p ↦ rw yes_p (fits yes_p)
      | inr no_p ↦ rw no_p h.holds
    ];
  }

  IsInPhase-Writes : Writes (IsInPhase phase id)
  IsInPhase-Writes = record {
    Kind = λ j. Unit;
    kind_of_request = λ j r next d h found allowed. tt;
    kind_of_event = λ d h. All-Carries (λ j. Unit) (λ j. tt) d.sync_events;
    elsewhere = λ d now b r s h. still-IsInPhase d now r h;
    upserts = λ e l days time d fits h. still-IsInPhase d _ refl h;
    consumes = λ e l days version time d h. still-IsInPhase d _ refl h;
    creates = λ request d fits h. record {
      row = h.row;
      found = found-append id h.row (request_row request) d.requests h.found;
      holds = h.holds;
    };
    flags = λ p f d key status live h.
        update-phase p f d _ refl key h (λ fits. rw (status h.row) h.holds);
    grants = λ j f d kind key status h.
        update-phase (is_request j) f d _ refl key h
          (λ fits. covers (f h.row).status (status h.row));
    closes = λ j r f d found pends key h. update-phase (is_request j) f d _ refl key h (λ fits.
        let e =
          same_row j id r h.row d.requests
            (ground (
              arith,
              fits,
              eq_iff h.row.id j,
              eq_iff h.row.id id,
              eq_iff j id,
              find_holds (is_request id) d.requests h.row h.found,
            ))
            found h.found in
        absurd (not_pending h.row.status h.holds (ap (λ x. x.status) (sym e) ∙ pends)));
    reverses = λ j r time later d kind found h.
        update-phase (is_request r.id) (request_reversed time) d _ refl
          (record { same_key = λ x. refl; same_days = λ x. refl }) h (λ fits. covers reversed refl);
    adds_event = λ r d carries granted h. still-IsInPhase d _ refl h;
    updates_events = λ p f d key h. still-IsInPhase d _ refl h;
  }

IsGranted-Writes : (id : String) → Writes (IsGranted id)
IsGranted-Writes id = IsInPhase-Writes is_granted granted_not_pending taken_up_is_granted id

still-IsGranted :
    (id : String) (d now : Db) → now.requests ≡ d.requests → IsGranted id d → IsGranted id now
still-IsGranted id d now same h =
    still-IsInPhase is_granted granted_not_pending taken_up_is_granted id d now same h

-- the events that name a request name one that was approved
pub record IsLinked (d : Db) : Type 0 where
  pub linked : All (Carries (λ id. IsGranted id d)) d.sync_events

-- what every approved request keeps, the links keep
relinked :
    (d now : Db)
    → now.sync_events ≡ d.sync_events
    → ((id : String) → IsGranted id d → IsGranted id now)
    → IsLinked d
    → IsLinked now
relinked d now same keeps h = record {
  linked = subst (All (Carries (λ id. IsGranted id now))) (sym same) (
      All-map (Carries (λ id. IsGranted id d)) (Carries (λ id. IsGranted id now))
        (λ r carries id names. keeps id (carries id names)) d.sync_events h.linked);
}

IsLinked-Writes : Writes IsLinked
unfolding IsInPhase-Writes IsGranted-Writes
IsLinked-Writes = record {
  Kind = λ j. Unit;
  kind_of_request = λ j r next d h found allowed. tt;
  kind_of_event = λ d h. All-Carries (λ j. Unit) (λ j. tt) d.sync_events;
  elsewhere = λ d now b r s h. relinked d now s (λ id. still-IsGranted id d now r) h;
  upserts = λ e l days time d fits h. relinked d _ refl (λ id. still-IsGranted id d _ refl) h;
  consumes = λ e l days version time d h. relinked d _ refl (λ id. still-IsGranted id d _ refl) h;
  creates =
      λ request d fits h. relinked d _ refl (λ id. (IsGranted-Writes id).creates request d fits) h;
  flags = λ p f d key status live h.
      relinked d _ refl (λ id. (IsGranted-Writes id).flags p f d key status live) h;
  grants = λ j f d kind key status h.
      relinked d _ refl (λ id. (IsGranted-Writes id).grants j f d tt key status) h;
  closes = λ j r f d found pends key h.
      relinked d _ refl (λ id. (IsGranted-Writes id).closes j r f d found pends key) h;
  reverses = λ j r time later d kind found h.
      relinked d _ refl (λ id. (IsGranted-Writes id).reverses j r time later d tt found) h;
  adds_event = λ r d carries granted h. record {
    linked =
        All-map (Carries (λ id. IsGranted id d)) (Carries (λ id. IsGranted id _))
          (λ r' c id names. still-IsGranted id d _ refl (c id names)) (d.sync_events ++ r ∷ [])
          (All-concat (Carries (λ id. IsGranted id d)) d.sync_events r h.linked granted);
  };
  updates_events = λ p f d key h. record {
    linked =
        All-map (Carries (λ id. IsGranted id d)) (Carries (λ id. IsGranted id _))
          (λ r' c id names. still-IsGranted id d _ refl (c id names))
          (update_where p f d.sync_events)
          (Carries-update (λ id. IsGranted id d) p f d.sync_events key h.linked);
  };
}

-- From a database in which every event that names a request names one that was approved, every
-- history of calls and of runs of the worker that overlap leads to such a database.
pub play-IsLinked :
    (turns : List Turn) (s : System)
    → IsLinked s.world.db
    → IsLinked (Overlap.play turns s).world.db
unfolding IsLinked-Writes
play-IsLinked turns s h =
    (play-Keeps IsLinked IsLinked-Writes turns s
      (All-Taken IsLinked IsLinked-Writes (λ id. tt) s.runs, h)).1

pub play-IsInPhase :
    (phase : RequestStatus → Bool)
    (not_pending : (s : RequestStatus) → phase s ≡ true → s ≢ pending)
    (covers : (s : RequestStatus) → is_taken_up s ≡ true → phase s ≡ true) (id : String)
    (turns : List Turn) (s : System)
    → IsInPhase phase id s.world.db
    → IsInPhase phase id (Overlap.play turns s).world.db
unfolding IsInPhase-Writes
play-IsInPhase phase not_pending covers id turns s h =
    let laws = IsInPhase-Writes phase not_pending covers id in
    (play-Keeps (IsInPhase phase id) laws turns s
      (All-Taken (IsInPhase phase id) laws (λ j. tt) s.runs, h)).1
