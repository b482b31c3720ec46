-- ===== src/Store/Run.antt =====
-- Runs of composed actions from the runs of their parts.
use timeoff_request.Base.{◌≡◌, ap}
use timeoff_request.Domain.Errors.{Error, Result, ok, err}
use timeoff_request.Store.World.{World, Action, ◌>>=◌}

module _ {A B : Type 0} (m : Action A) (f : A → Action B) (w w' : World) where
  unfoldable after : Result A × World → Result B × World
  after r = elim r.0 as (λ _. Result B × World) [ ok a ↦ f a r.1 | err e ↦ (err e, r.1) ]

  pub bind_ok : (a : A) → m w ≡ (ok a, w') → (m >>= f) w ≡ f a w'
  unfolding after
  bind_ok a h = ap after h

  pub bind_err : (e : Error) → m w ≡ (err e, w') → (m >>= f) w ≡ (err e, w')
  unfolding after
  bind_err e h = ap after h
