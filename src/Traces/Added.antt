-- ===== src/Traces/Added.antt =====
-- What an action adds to a trace: effects of one kind alone.
use mcp_control_plane.Prelude.{
  ◌≡◌, true, eq_iff, ◌==◌, String, if◌then◌else◌, Bool-cases, inl, inr, arith, ◌∷◌,
}
use mcp_control_plane.World.{Effect, Trace, M}
use mcp_control_plane.Traces.Stable.{Stable}

-- The second trace is the first one, with effects on top of it that all satisfy the predicate.
pub data Added (Q : Effect → Type 0) (before : Trace) : Trace → Type 0 where
  nothing : Added Q before before
  further : {e : Effect} {tr : Trace} → Q e → Added Q before tr → Added Q before (e ∷ tr)

same : (s t : String) → s == t ≡ true → s ≡ t
same s t e = ground (arith, e, eq_iff s t)

module _ {ℓ} {A : Type ℓ} where
  pub Stable-name :
      (P : String → Trace → Type 0) (s t : String) (m n : M A)
      → Stable (P t) m
      → Stable (P s) n
      → Stable (P s) (if s == t then m else n)
  Stable-name P s t m n km kn = elim (Bool-cases (s == t)) [
    | inl e ↦ rw (e, same s t e) (km)
    | inr e ↦ rw e kn
  ]
