-- ===== src/Store/Keeps.antt =====
-- Invariants of the database under actions, whether they return or throw: one rule for each way to
-- build an action.
use timeoff_request.Base.{◌≡◌, refl, Bool, true, false, Option, none, some, if◌then◌else◌}
use timeoff_request.Domain.Errors.{Error, Result, ok, err}
use timeoff_request.Store.Rows.{Db}
use timeoff_request.Store.World.{
  World, Trace, Action, pure, raise, lift, gets, defined, with_transaction, try_catch,
  run_in_context, now, random_uuid, write, write_if, require, ◌>>=◌, ◌>>◌, roll_back,
}

pub record Keeps {A : Type 0} (P : Db → Type 0) (m : Action A) : Type 0 where
  pub at : (w : World) → P w.db → P (m w).1.db

module _ {A : Type 0} (P : Db → Type 0) where
  pub Keeps-pure : (a : A) → Keeps P (pure a)
  Keeps-pure a = record { at = λ w h. h }

  pub Keeps-raise : (e : Error) → Keeps {A = A} P (raise e)
  Keeps-raise e = record { at = λ w h. h }

  pub Keeps-lift : (r : Result A) → Keeps P (lift r)
  Keeps-lift r = record { at = λ w h. h }

  pub Keeps-gets : (f : World → A) → Keeps P (gets f)
  Keeps-gets f = record { at = λ w h. h }

  pub Keeps-defined : (o : Option A) → Keeps P (defined o)
  Keeps-defined none = record { at = λ w h. h }
  Keeps-defined (some a) = record { at = λ w h. h }

  pub Keeps-if :
      (test : Bool) (on_true on_false : Action A)
      → (test ≡ false → Keeps P on_false)
      → (test ≡ true → Keeps P on_true)
      → Keeps P (if test then on_true else on_false)
  Keeps-if false on_true on_false keeps_no keeps_yes = keeps_no refl
  Keeps-if true on_true on_false keeps_no keeps_yes = keeps_yes refl

  roll_back-keeps :
      (before : Db) (r : Result A × World) → P before → P r.1.db → P (roll_back before r).1.db
  roll_back-keeps before (ok a, w) h k = k
  roll_back-keeps before (err e, w) h k = h

  pub Keeps-with_transaction : (m : Action A) → Keeps P m → Keeps P (with_transaction m)
  Keeps-with_transaction m km = record { at = λ w h. roll_back-keeps w.db (m w) h (km.at w h) }

  handled :
      (r : Result A × World) (handler : Error → Action A)
      → P r.1.db
      → ((e : Error) → Keeps P (handler e))
      → P (elim r.0 as (λ _. Result A × World) [ ok a ↦ (ok a, r.1) | err e ↦ handler e r.1 ]).1.db
  handled (ok a, w) handler h k = h
  handled (err e, w) handler h k = (k e).at w h

  pub Keeps-try_catch :
      (m : Action A) (handler : Error → Action A)
      → Keeps P m
      → ((e : Error) → Keeps P (handler e))
      → Keeps P (try_catch m handler)
  Keeps-try_catch m handler km kh = record { at = λ w h. handled (m w) handler (km.at w h) kh }

  pub Keeps-run_in_context : (t : Trace) (m : Action A) → Keeps P m → Keeps P (run_in_context t m)
  Keeps-run_in_context t m km = record { at = λ w h. km.at (record w { trace = some t }) h }

module _ (P : Db → Type 0) where
  pub Keeps-now : Keeps P now
  Keeps-now = record { at = λ w h. h }

  pub Keeps-random_uuid : Keeps P random_uuid
  Keeps-random_uuid = record { at = λ w h. h }

  pub Keeps-write : (f : Db → Db) → ((db : Db) → P db → P (f db)) → Keeps P (write f)
  Keeps-write f kf = record { at = λ w h. kf w.db h }

  write_if-keeps :
      (b : Bool) (e : Error) (f : Db → Db) (w : World)
      → (b ≡ true → P (f w.db))
      → P w.db
      → P (write_if b e f w).1.db
  write_if-keeps true e f w kf h = kf refl
  write_if-keeps false e f w kf h = h

  pub Keeps-write_if :
      (b : Bool) (e : Error) (f : Db → Db)
      → ((db : Db) → b ≡ true → P db → P (f db))
      → Keeps P (write_if b e f)
  Keeps-write_if b e f kf = record { at = λ w h. write_if-keeps b e f w (λ t. kf w.db t h) h }

module _ {B : Type 0} (P : Db → Type 0) where
  -- what follows a constraint may use it
  pub Keeps-require :
      (b : Bool) (e : Error) (n : Action B) → (b ≡ true → Keeps P n) → Keeps P (require b e >> n)
  Keeps-require true e n kn = record { at = (kn refl).at }
  Keeps-require false e n kn = record { at = λ w h. h }

module _ {A B : Type 0} (P : Db → Type 0) where
  continued :
      (r : Result A × World) (f : A → Action B)
      → P r.1.db
      → ((a : A) → Keeps P (f a))
      → P (elim r.0 as (λ _. Result B × World) [ ok a ↦ f a r.1 | err e ↦ (err e, r.1) ]).1.db
  continued (ok a, w) f h k = (k a).at w h
  continued (err e, w) f h k = h

  pub Keeps-bind :
      (m : Action A) (f : A → Action B) → Keeps P m → ((a : A) → Keeps P (f a)) → Keeps P (m >>= f)
  Keeps-bind m f km kf = record { at = λ w h. continued (m w) f (km.at w h) kf }

  pub Keeps-then : (m : Action A) (n : Action B) → Keeps P m → Keeps P n → Keeps P (m >> n)
  Keeps-then m n km kn = Keeps-bind m (λ _. n) km (λ _. kn)

pub ruleset keeps_rules = (
  Keeps-pure, Keeps-raise, Keeps-lift, Keeps-gets, Keeps-defined, Keeps-if, Keeps-with_transaction,
  Keeps-try_catch, Keeps-run_in_context, Keeps-now, Keeps-random_uuid, Keeps-bind, Keeps-require,
  Keeps-then,
)
