-- ===== src/Domain/Status.antt =====
-- The request life cycle: shared/types/request.types.ts and shared/domain/request-status.policy.ts.
use timeoff_request.Base.{Bool, true, false, List, [], ◌∷◌, if◌then◌else◌, ◌||◌}
use timeoff_request.Domain.Errors.{Result, ok, err, domain, illegal_status_transition}

pub data RequestStatus : Type 0 where
  pending approved synced rejected cancelled failed_sync reversed : RequestStatus

abbrev pub status_eqb : RequestStatus → RequestStatus → Bool
status_eqb pending pending = true
status_eqb approved approved = true
status_eqb synced synced = true
status_eqb rejected rejected = true
status_eqb cancelled cancelled = true
status_eqb failed_sync failed_sync = true
status_eqb reversed reversed = true
status_eqb _ _ = false

-- `allowedTransitions`
unfoldable pub allowed_transitions : RequestStatus → List RequestStatus
allowed_transitions pending = approved ∷ rejected ∷ cancelled ∷ []
allowed_transitions approved = synced ∷ failed_sync ∷ reversed ∷ []
allowed_transitions failed_sync = reversed ∷ []
allowed_transitions _ = []

-- `Array.prototype.includes`
unfoldable pub includes : List RequestStatus → RequestStatus → Bool
includes [] s = false
includes (x ∷ xs) s = status_eqb x s || includes xs s

unfoldable pub assert_transition : RequestStatus → RequestStatus → Result Unit
unfolding allowed_transitions includes
assert_transition current next =
    if includes (allowed_transitions current) next
    then ok tt
    else err (domain illegal_status_transition)
