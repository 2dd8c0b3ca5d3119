-- ===== src/Traces/Raising.antt =====
-- Which exceptions an action may end in, by the ways an action is built.
use mcp_control_plane.Prelude.{◌≡◌, refl, Bool, true, false, if◌then◌else◌}
use mcp_control_plane.World.{
  Exn, executor_error, missing_param, Result, ok, raise, Trace, M, pure, throw, lift, continue,
  ◌>>=◌,
}

-- an exception of the language or of a library, not one that the code raises itself
abbrev pub is_plain : Exn → Bool
is_plain (executor_error t m) = false
is_plain (missing_param f m) = false
is_plain _ = true

-- A result is a value, or its exception passes a test.
abbrev pub passes {ℓ} : {A : Type ℓ} → (Exn → Bool) → Result A → Bool
passes p (ok a) = true
passes p (raise e) = p e

-- Every exception that the action may end in passes the test.
pub record Raising {ℓ} {A : Type ℓ} (p : Exn → Bool) (m : M A) : Type ℓ where
  pub at : (tr : Trace) → passes p (m tr).0 ≡ true

module _ {ℓ} {A : Type ℓ} {p : Exn → Bool} where
  pub Raising-pure : (a : A) → Raising p (pure a)
  Raising-pure a = record { at = λ tr. refl }

  pub Raising-throw : (e : Exn) → p e ≡ true → Raising p (throw {A = A} e)
  Raising-throw e h = record { at = λ tr. h }

  pub Raising-lift : (r : Result A) → passes p r ≡ true → Raising p (lift r)
  Raising-lift r h = record { at = λ tr. h }

  pub Raising-if :
      (b : Bool) (m n : M A) → Raising p m → Raising p n → Raising p (if b then m else n)
  Raising-if true m n km kn = km
  Raising-if false m n km kn = kn

module _ {ℓ μ} {A : Type ℓ} {B : Type μ} {p : Exn → Bool} where
  continue-Raising :
      (r : Result A) (f : A → M B) (tr : Trace)
      → passes p r ≡ true
      → ((a : A) → Raising p (f a))
      → passes p (continue r f tr).0 ≡ true
  continue-Raising (ok a) f tr h k = (k a).at tr
  continue-Raising (raise x) f tr h k = h

  pub Raising-bind :
      (m : M A) (f : A → M B) → Raising p m → ((a : A) → Raising p (f a)) → Raising p (m >>= f)
  Raising-bind m f km kf = record { at = λ tr. continue-Raising (m tr).0 f (m tr).1 (km.at tr) kf }

pub ruleset raising_rules = (Raising-pure, Raising-if, Raising-bind)
