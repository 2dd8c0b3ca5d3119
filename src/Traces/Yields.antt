-- ===== src/Traces/Yields.antt =====
-- What the value that an action returns satisfies, by the ways an action is built.
use mcp_control_plane.Prelude.{◌≡◌, refl, Bool, true, false, arith, if◌then◌else◌}
use mcp_control_plane.World.{Exn, Result, ok, raise, Trace, M, pure, throw, lift, continue, ◌>>=◌}

-- Whenever the action returns, what it returns satisfies the predicate.
pub record Yields {ℓ κ} {A : Type ℓ} (P : A → Type κ) (m : M A) : Type (ℓ ⊔ κ) where
  pub at : (tr : Trace) (a : A) → (m tr).0 ≡ ok a → P a

same {ℓ} : {A : Type ℓ} (a b : A) → ok a ≡ ok b → a ≡ b
same a b h = cc

module _ {ℓ κ} {A : Type ℓ} {P : A → Type κ} where
  pub Yields-pure : (a : A) → P a → Yields P (pure a)
  Yields-pure a p = record { at = λ tr b h. rw (← same a b h) p }

  pub Yields-throw : (e : Exn) → Yields P (throw e)
  Yields-throw e = record { at = λ tr b h. absurd (ground arith) }

  pub Yields-if : (b : Bool) (m n : M A) → Yields P m → Yields P n → Yields P (if b then m else n)
  Yields-if true m n ym yn = ym
  Yields-if false m n ym yn = yn

module _ {ℓ κ μ ν} {A : Type ℓ} {B : Type μ} {P : A → Type κ} {Q : B → Type ν} where
  continue-Yields :
      (r : Result A) (f : A → M B) (tr : Trace) (b : B)
      → ((a : A) → r ≡ ok a → P a)
      → ((a : A) → P a → Yields Q (f a))
      → (continue r f tr).0 ≡ ok b
      → Q b
  continue-Yields (ok a) f tr b p q h = (q a (p a refl)).at tr b h
  continue-Yields (raise e) f tr b p q h = absurd (ground arith)

  -- where what is bound matters
  pub Yields-bind_with :
      (m : M A) (f : A → M B) → Yields P m → ((a : A) → P a → Yields Q (f a)) → Yields Q (m >>= f)
  Yields-bind_with m f p q = record {
    at = λ tr b h. continue-Yields (m tr).0 f (m tr).1 b (p.at tr) q h;
  }

module _ {ℓ μ ν} {A : Type ℓ} {B : Type μ} {Q : B → Type ν} where
  pub Yields-bind : (m : M A) (f : A → M B) → ((a : A) → Yields Q (f a)) → Yields Q (m >>= f)
  Yields-bind m f q =
      Yields-bind_with {P = λ a. Unit {0}} m f (record { at = λ tr a h. tt }) (λ a u. q a)

  pub Yields-bind_ok : (a : A) (f : A → M B) → Yields Q (f a) → Yields Q (lift (ok a) >>= f)
  Yields-bind_ok a f q = record { at = λ tr b h. q.at tr b h }

pub ruleset yield_rules = (Yields-throw, Yields-if, Yields-bind_ok, Yields-bind)
