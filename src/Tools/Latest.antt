-- ===== src/Tools/Latest.antt =====
-- app/tools/tools_spec.py: the last update of a deployment.
use mcp_control_plane.Prelude.{
  ℕ, ◌≤◌, ◌≡◌, refl, Option, none, some, List, [], ◌∷◌, arith, ◌⊎◌, inl, inr, All, ltb, Bool-cases,
}
use mcp_control_plane.Tools.Backend.{DeploymentCondition}
use mcp_control_plane.Tools.Deployments.{last_update, latest, later}

-- The condition has no time of an update, or one that is not past this one.
abbrev pub NotPast : Option ℕ → DeploymentCondition → Type 0
NotPast none c = c.last_update_time ≡ none
NotPast (some t) c =
    (c.last_update_time ≡ none) ⊎ ((u : ℕ) × (c.last_update_time ≡ some u) × (u ≤ t))

-- A condition of the list has this time.
abbrev pub Among : Option ℕ → List DeploymentCondition → Type 0
Among t [] = ⊥
Among t (c ∷ cs) = (c.last_update_time ≡ t) ⊎ Among t cs

raised :
    (o : Option ℕ) (u : ℕ) (c : DeploymentCondition)
    → later u o ≡ u
    → NotPast o c
    → NotPast (some u) c
raised none u c e h = inl h
raised (some t) u c e (inl h) = inl h
raised (some t) u c e (inr (v, h, k)) = inr (v, h, ground (arith, e, k))

All-raised :
    (o : Option ℕ) (u : ℕ) (cs : List DeploymentCondition)
    → later u o ≡ u
    → All (NotPast o) cs
    → All (NotPast (some u)) cs
All-raised o u [] e h = tt
All-raised o u (c ∷ cs) e (h, hs) = (raised o u c e h, All-raised o u cs e hs)

-- No condition of the list is past the time, which is that of one of them.
abbrev pub IsLatest : Option ℕ → List DeploymentCondition → Type 0
IsLatest o cs = All (NotPast o) cs × ((o ≡ none) ⊎ Among o cs)

moved : (o w : Option ℕ) (cs : List DeploymentCondition) → o ≡ w → IsLatest w cs → IsLatest o cs
moved o w cs e h = rw e h

next-IsLatest :
    (c : DeploymentCondition) (cs : List DeploymentCondition) (s o : Option ℕ)
    → c.last_update_time ≡ s
    → IsLatest o cs
    → IsLatest (latest s o) (c ∷ cs)
next-IsLatest c cs none none e (h, m) = ((e, h), inl refl)
next-IsLatest c cs none (some u) e (h, inl m) = absurd (ground (arith, m))
next-IsLatest c cs none (some u) e (h, inr m) = ((inl e, h), inr (inr m))
next-IsLatest c cs (some t) none e (h, m) =
    ((inr (t, e, omega arith), All-raised none t cs refl h), inr (inl e))
next-IsLatest c cs (some t) (some u) e (h, inl m) = absurd (ground (arith, m))
next-IsLatest c cs (some t) (some u) e (h, inr m) = elim (Bool-cases (ltb t u)) [
  | inl k ↦
      moved (latest (some t) (some u)) (some u) (c ∷ cs) (ground (arith, k))
        ((inr (t, e, ground (arith, k)), h), inr (inr m))
  | inr k ↦
      moved (latest (some t) (some u)) (some t) (c ∷ cs) (ground (arith, k))
        ((inr (t, e, omega arith), All-raised (some u) t cs (ground (arith, k)) h), inr (inl e))
]

-- The last update of a deployment's conditions is missing only if no condition has one, and is else the time
-- of one of them that no other is past.
pub last_update-IsLatest : (cs : List DeploymentCondition) → IsLatest (last_update cs) cs
unfolding last_update
last_update-IsLatest [] = (tt, inl refl)
last_update-IsLatest (c ∷ cs) =
    next-IsLatest c cs c.last_update_time (last_update cs) refl (last_update-IsLatest cs)
