-- ===== src/Domain/Lifecycle.antt =====
-- The diagram of the request life cycle of docs/trd/02-domain-model-and-invariants.md as a relation,
-- and the guard `assertTransition` of shared/domain/request-status.policy.ts as a decision.
use timeoff_request.Base.{ℕ, ◌≡◌, ◌↔◌, refl, ◌<◌, arith, ◌≢◌}
use timeoff_request.Domain.Errors.{ok}
use timeoff_request.Domain.Status.{
  RequestStatus, pending, approved, synced, rejected, cancelled, failed_sync, reversed,
  assert_transition,
}

-- the arrows of the diagram of the document
pub data Edge : RequestStatus → RequestStatus → Type 0 where
  approve : Edge pending approved
  reject : Edge pending rejected
  cancel : Edge pending cancelled
  sync : Edge approved synced
  fail : Edge approved failed_sync
  give_up : Edge failed_sync reversed

-- what the code allows: an arrow of the diagram, or the one step that the diagram does not have
pub data Step : RequestStatus → RequestStatus → Type 0 where
  drawn : {s t : RequestStatus} → Edge s t → Step s t
  reverse_at_once : Step approved reversed

-- one or more steps
pub data Path1 : RequestStatus → RequestStatus → Type 0 where
  one : {s t : RequestStatus} → Step s t → Path1 s t
  more : {s t u : RequestStatus} → Step s t → Path1 t u → Path1 s u

abbrev rank : RequestStatus → ℕ
rank pending = 0
rank approved = 1
rank failed_sync = 2
rank _ = 3

drawn_is_allowed : (s t : RequestStatus) → Edge s t → assert_transition s t ≡ ok tt
unfolding assert_transition
drawn_is_allowed _ _ approve = refl
drawn_is_allowed _ _ reject = refl
drawn_is_allowed _ _ cancel = refl
drawn_is_allowed _ _ sync = refl
drawn_is_allowed _ _ fail = refl
drawn_is_allowed _ _ give_up = refl

allowed : (s t : RequestStatus) → Step s t → assert_transition s t ≡ ok tt
unfolding assert_transition
allowed s t (drawn e) = drawn_is_allowed s t e
allowed _ _ reverse_at_once = refl

step : (s t : RequestStatus) → assert_transition s t ≡ ok tt → Step s t
unfolding assert_transition
step pending approved h = drawn approve
step pending rejected h = drawn reject
step pending cancelled h = drawn cancel
step approved synced h = drawn sync
step approved failed_sync h = drawn fail
step approved reversed h = reverse_at_once
step failed_sync reversed h = drawn give_up
step _ _ h = absurd (cc)

Edge-rank : (s t : RequestStatus) → Edge s t → rank s < rank t
Edge-rank _ _ approve = omega arith
Edge-rank _ _ reject = omega arith
Edge-rank _ _ cancel = omega arith
Edge-rank _ _ sync = omega arith
Edge-rank _ _ fail = omega arith
Edge-rank _ _ give_up = omega arith

Step-rank : (s t : RequestStatus) → Step s t → rank s < rank t
Step-rank s t (drawn e) = Edge-rank s t e
Step-rank _ _ reverse_at_once = omega arith

path-rank : (s t : RequestStatus) → Path1 s t → rank s < rank t
path-rank s t (one e) = Step-rank s t e
path-rank s u (more {t = t} e p) = ground (arith, Step-rank s t e, path-rank t u p)

not_drawn : (s t : RequestStatus) → Edge s t → s ≡ approved → t ≢ reversed
not_drawn _ _ approve p q = absurd (cc)
not_drawn _ _ reject p q = absurd (cc)
not_drawn _ _ cancel p q = absurd (cc)
not_drawn _ _ sync p q = absurd (cc)
not_drawn _ _ fail p q = absurd (cc)
not_drawn _ _ give_up p q = absurd (cc)

-- `assertTransition` lets a change of status through exactly if it is an arrow of the diagram of
-- docs/trd/02-domain-model-and-invariants.md or goes from APPROVED to REVERSED at once, which is no
-- arrow of it; and no chain of such changes comes back to where it began.
pub assert_transition_decides :
    (s t : RequestStatus)
    → ((assert_transition s t ≡ ok tt) ↔ Step s t)
      × ¬ (Edge approved reversed)
      × (Path1 s t → s ≢ t)
assert_transition_decides s t = (
  (step s t, allowed s t),
  λ e. not_drawn approved reversed e refl refl,
  λ p e. ground (arith, path-rank s t p),
)
