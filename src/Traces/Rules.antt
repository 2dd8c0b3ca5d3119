-- ===== src/Traces/Rules.antt =====
-- Actions that leave a view of the trace alone, by the ways an action is built.
use mcp_control_plane.Prelude.{◌≡◌, refl, ◌∙◌, Bool, true, false, if◌then◌else◌}
use mcp_control_plane.World.{Exn, Result, ok, raise, Trace, M, pure, throw, lift, continue, ◌>>=◌}

-- The view is the same after the action, whether it returns or raises.
pub record Keeps {ℓ κ} {V : Type κ} {A : Type ℓ} (view : Trace → V) (m : M A) : Type (ℓ ⊔ κ) where
  pub at : (tr : Trace) → view (m tr).1 ≡ view tr

module _ {ℓ κ} {V : Type κ} {A : Type ℓ} {view : Trace → V} where
  pub Keeps-pure : (a : A) → Keeps view (pure a)
  Keeps-pure a = record { at = λ tr. refl }

  pub Keeps-throw : (e : Exn) → Keeps view (throw {A = A} e)
  Keeps-throw e = record { at = λ tr. refl }

  pub Keeps-lift : (r : Result A) → Keeps view (lift r)
  Keeps-lift r = record { at = λ tr. refl }

  pub Keeps-if :
      (b : Bool) (m n : M A) → Keeps view m → Keeps view n → Keeps view (if b then m else n)
  Keeps-if true m n km kn = km
  Keeps-if false m n km kn = kn

module _ {ℓ κ μ} {V : Type κ} {A : Type ℓ} {B : Type μ} {view : Trace → V} where
  continue-view :
      (r : Result A) (f : A → M B)
      → ((a : A) → Keeps view (f a))
      → (tr : Trace) → view (continue r f tr).1 ≡ view tr
  continue-view (ok a) f kf tr = (kf a).at tr
  continue-view (raise e) f kf tr = refl

  pub Keeps-bind :
      (m : M A) (f : A → M B) → Keeps view m → ((a : A) → Keeps view (f a)) → Keeps view (m >>= f)
  Keeps-bind m f km kf = record { at = λ tr. continue-view (m tr).0 f kf (m tr).1 ∙ km.at tr }

pub ruleset keeps_rules = (Keeps-pure, Keeps-throw, Keeps-lift, Keeps-if, Keeps-bind)
