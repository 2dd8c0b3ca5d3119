-- ===== src/RateLimit/Window.antt =====
-- The sorted set of a key in Redis, as the commands in the trace leave it, against the admissions.
use mcp_control_plane.Prelude.{
  ℕ, suc, ◌+◌, ◌*◌, ◌≤◌, String, ◌≡◌, refl, List, [], ◌∷◌, arith, ltb, length, ◌&&◌, ◌==◌, eq_iff,
  if◌then◌else◌,
}
use mcp_control_plane.World.{Env, Effect, Trace, trimmed, added_member, answered}
use mcp_control_plane.Clock.{second}
use mcp_control_plane.RateLimit.{window, rate_limit_window_seconds}

-- the scores above a bound
abbrev pub above : ℕ → List ℕ → List ℕ
above hi [] = []
above hi (s ∷ l) = let rest = above hi l in if ltb hi s then s ∷ rest else rest

-- The members of a sorted set, and the time at which its key expires.
abbrev pub alive : ℕ → List ℕ × ℕ → List ℕ
alive now (l, deadline) = if ltb now deadline then l else []

unfoldable pub zstate : Env → Trace → String → List ℕ × ℕ
zstate env [] key = ([], 0)
zstate env (trimmed k hi ∷ tr) key =
    let z = zstate env tr key in if k == key then (above hi z.0, z.1) else z
zstate env (added_member k s ttl ∷ tr) key =
    let z = zstate env tr key in
    if k == key then (s ∷ alive (env.now tr) z, env.now tr + ttl * second) else z
zstate env (_ ∷ tr) key = zstate env tr key

-- how many admissions under a key have a score above `lo`
unfoldable pub recent : ℕ → String → Trace → ℕ
recent lo key [] = 0
recent lo key (added_member k s ttl ∷ tr) =
    let rest = recent lo key tr in if k == key && ltb lo s then suc rest else rest
recent lo key (_ ∷ tr) = recent lo key tr

-- The limiter's commands in the trace: it trims what is a window old, and adds what is not in the future,
-- to expire in a window.
abbrev pub WellTimed : Env → String → Trace → Type 0
WellTimed env key [] = Unit
WellTimed env key (trimmed k hi ∷ tr) = (k ≡ key → hi + window ≤ env.now tr) × WellTimed env key tr
WellTimed env key (added_member k s ttl ∷ tr) =
    (k ≡ key → (s ≤ env.now tr) × (ttl ≡ rate_limit_window_seconds)) × WellTimed env key tr
WellTimed env key (_ ∷ tr) = WellTimed env key tr

-- The clock does not run backwards, and ZCARD counts the members that are there.
pub record ZFaithful (env : Env) : Type 0 where
  pub monotone : (e : Effect) (tr : Trace) → env.now tr ≤ env.now (e ∷ tr)
  pub card :
      (tr : Trace) (key : String) (n : ℕ)
      → env.z_card tr key ≡ answered n
      → n ≡ length (alive (env.now tr) (zstate env tr key))

pub length-above-le : (lo : ℕ) (l : List ℕ) → length (above lo l) ≤ length l
length-above-le lo [] = omega arith
length-above-le lo (s ∷ l) = ground (arith, length-above-le lo l)

above-above : (lo hi : ℕ) (l : List ℕ) → hi ≤ lo → above lo (above hi l) ≡ above lo l
above-above lo hi [] h = refl
above-above lo hi (s ∷ l) h = ground (arith, above-above lo hi l h)

module _ (env : Env) (faithful : ZFaithful env) (key : String) where
  recent_old : (lo : ℕ) (tr : Trace) → WellTimed env key tr → env.now tr ≤ lo → recent lo key tr ≡ 0
  unfolding recent
  recent_old lo [] w h = refl
  recent_old lo (added_member k s ttl ∷ tr) w h =
      ground (
        arith,
        eq_iff k key,
        w.0,
        faithful.monotone (added_member k s ttl) tr,
        recent_old lo tr w.1,
      )
  recent_old lo (trimmed k hi ∷ tr) w h =
      ground (arith, faithful.monotone (trimmed k hi) tr, recent_old lo tr w.1)
  recent_old lo (e ∷ tr) w h = ground (arith, faithful.monotone e tr, recent_old lo tr w)

  -- Nothing admitted in the last window is missing from the sorted set.
  pub recent-le-alive :
      (lo t : ℕ) (tr : Trace)
      → WellTimed env key tr
      → env.now tr ≤ t
      → t ≤ lo + window
      → recent lo key tr ≤ length (above lo (alive t (zstate env tr key)))
  unfolding recent zstate
  recent-le-alive lo t [] w h k = omega arith
  recent-le-alive lo t (added_member j s ttl ∷ tr) w h k = ground (
    arith,
    eq_iff j key,
    w.0,
    faithful.monotone (added_member j s ttl) tr,
    recent_old lo tr w.1,
    recent-le-alive lo t tr w.1,
    recent-le-alive lo (env.now tr) tr w.1,
  )
  recent-le-alive lo t (trimmed j hi ∷ tr) w h k = ground (
    arith,
    eq_iff j key,
    w.0,
    faithful.monotone (trimmed j hi) tr,
    recent-le-alive lo t tr w.1,
    above-above lo hi (zstate env tr key).0,
  )
  recent-le-alive lo t (e ∷ tr) w h k =
      ground (arith, faithful.monotone e tr, recent-le-alive lo t tr w)
