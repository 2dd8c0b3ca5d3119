-- ===== src/Traces/Stable.antt =====
-- Properties of the trace that an action never breaks, by the ways an action is built.
use mcp_control_plane.Prelude.{Bool, true, false, if◌then◌else◌}
use mcp_control_plane.World.{Exn, Result, ok, raise, Trace, M, pure, throw, lift, continue, ◌>>=◌}
use mcp_control_plane.Traces.Rules.{Keeps}

pub record Stable {ℓ} {A : Type ℓ} (P : Trace → Type 0) (m : M A) : Type ℓ where
  pub at : (tr : Trace) → P tr → P (m tr).1

module _ {ℓ} {A : Type ℓ} {P : Trace → Type 0} where
  pub Stable-pure : (a : A) → Stable P (pure a)
  Stable-pure a = record { at = λ tr p. p }

  pub Stable-throw : (e : Exn) → Stable P (throw {A = A} e)
  Stable-throw e = record { at = λ tr p. p }

  pub Stable-lift : (r : Result A) → Stable P (lift r)
  Stable-lift r = record { at = λ tr p. p }

  pub Stable-if : (b : Bool) (m n : M A) → Stable P m → Stable P n → Stable P (if b then m else n)
  Stable-if true m n km kn = km
  Stable-if false m n km kn = kn

module _ {ℓ μ} {A : Type ℓ} {B : Type μ} {P : Trace → Type 0} where
  continue-Stable :
      (r : Result A) (f : A → M B)
      → ((a : A) → Stable P (f a))
      → (tr : Trace) → P tr
      → P (continue r f tr).1
  continue-Stable (ok a) f kf tr p = (kf a).at tr p
  continue-Stable (raise e) f kf tr p = p

  -- what the first action establishes at a trace
  pub bind_after :
      (m : M A) (f : A → M B) (tr : Trace)
      → P (m tr).1
      → ((a : A) → Stable P (f a))
      → P ((m >>= f) tr).1
  bind_after m f tr p kf = continue-Stable (m tr).0 f kf (m tr).1 p

  pub Stable-bind :
      (m : M A) (f : A → M B) → Stable P m → ((a : A) → Stable P (f a)) → Stable P (m >>= f)
  Stable-bind m f km kf = record {
    at = λ tr p. continue-Stable (m tr).0 f kf (m tr).1 (km.at tr p);
  }

pub ruleset stable_rules = (Stable-pure, Stable-throw, Stable-lift, Stable-if, Stable-bind)

-- An action that leaves a view alone keeps what is said of the view.
pub Keeps-Stable {ℓ κ} :
    {V : Type κ} {A : Type ℓ} {view : Trace → V} (Q : V → Type 0) (m : M A)
    → Keeps view m
    → Stable (λ tr. Q (view tr)) m
Keeps-Stable Q m k = record { at = λ tr q. rw (k.at tr) q }
