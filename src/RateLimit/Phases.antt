-- ===== src/RateLimit/Phases.antt =====
-- Lists of checks in flight: what they have read, and what they will add.
use mcp_control_plane.Prelude.{
  ℕ, suc, ◌+◌, ◌≤◌, ◌≡◌, List, [], ◌∷◌, ◌++◌, arith, leb, length, All, if◌then◌else◌,
}
use mcp_control_plane.RateLimit.{window}
use mcp_control_plane.RateLimit.Concurrent.{Phase, at_trim, at_count, at_end, finished}

-- the checks that have counted fewer members than the limit, and will add theirs
abbrev pub room : ℕ → List Phase → ℕ
room limit [] = 0
room limit (at_end now count ∷ ps) =
    let rest = room limit ps in if leb limit count then rest else suc rest
room limit (_ ∷ ps) = room limit ps

pub room-append :
    (limit : ℕ) (ps qs : List Phase) → room limit (ps ++ qs) ≡ room limit ps + room limit qs
room-append limit [] qs = omega arith
room-append limit (at_end now count ∷ ps) qs = ground (arith, room-append limit ps qs)
room-append limit (at_trim now ∷ ps) qs = room-append limit ps qs
room-append limit (at_count now ∷ ps) qs = room-append limit ps qs
room-append limit (finished r ∷ ps) qs = room-append limit ps qs

pub room-le : (limit : ℕ) (ps : List Phase) → room limit ps ≤ length ps
room-le limit [] = omega arith
room-le limit (at_end now count ∷ ps) = ground (arith, room-le limit ps)
room-le limit (at_trim now ∷ ps) = omega (arith, room-le limit ps)
room-le limit (at_count now ∷ ps) = omega (arith, room-le limit ps)
room-le limit (finished r ∷ ps) = omega (arith, room-le limit ps)

-- A check has read a time that has passed, at least a window past the epoch.
abbrev pub Timed : ℕ → Phase → Type 0
Timed time (at_trim now) = (window ≤ now) × (now ≤ time)
Timed time (at_count now) = (window ≤ now) × (now ≤ time)
Timed time (at_end now count) = (window ≤ now) × (now ≤ time)
Timed time (finished r) = Unit

Timed-later : (s t : ℕ) (p : Phase) → s ≤ t → Timed s p → Timed t p
Timed-later s t (at_trim now) le (h, k) = (h, omega (arith, le, k))
Timed-later s t (at_count now) le (h, k) = (h, omega (arith, le, k))
Timed-later s t (at_end now count) le (h, k) = (h, omega (arith, le, k))
Timed-later s t (finished r) le h = tt

pub All-Timed-later : (s t : ℕ) (ps : List Phase) → s ≤ t → All (Timed s) ps → All (Timed t) ps
All-Timed-later s t [] le h = tt
All-Timed-later s t (p ∷ ps) le (h, hs) = (Timed-later s t p le h, All-Timed-later s t ps le hs)

pub All-split : (P : Phase → Type 0) (ps qs : List Phase) → All P (ps ++ qs) → All P ps × All P qs
All-split P [] qs h = (tt, h)
All-split P (p ∷ ps) qs (h, hs) = let (a, b) = All-split P ps qs hs in ((h, a), b)

pub All-append : (P : Phase → Type 0) (ps qs : List Phase) → All P ps → All P qs → All P (ps ++ qs)
All-append P [] qs h k = k
All-append P (p ∷ ps) qs (h, hs) k = (h, All-append P ps qs hs k)
