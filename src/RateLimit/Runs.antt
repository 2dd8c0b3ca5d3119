-- ===== src/RateLimit/Runs.antt =====
-- The limiter over a run: checks of one agent, with anything else in between.
use mcp_control_plane.Prelude.{
  ℕ, ◌≤◌, String, ◌≡◌, ◌≢◌, refl, List, [], ◌∷◌, ◌++◌, arith, All, eq_iff,
}
use mcp_control_plane.World.{Env, Effect, Trace, trimmed, added_member}
use mcp_control_plane.RateLimit.{window, limit_key, check}
use mcp_control_plane.RateLimit.Window.{recent, WellTimed, ZFaithful}
use mcp_control_plane.RateLimit.Sliding.{Within, check-Within, check-WellTimed, check_later}

-- Effects that leave the sorted set of a key alone.
abbrev pub Elsewhere : String → List Effect → Type 0
Elsewhere key [] = Unit
Elsewhere key (trimmed k hi ∷ es) = (k ≢ key) × Elsewhere key es
Elsewhere key (added_member k s ttl ∷ es) = (k ≢ key) × Elsewhere key es
Elsewhere key (_ ∷ es) = Elsewhere key es

-- One check after the other, each behind the effects of others.
unfoldable pub checks : Env → String → ℕ → List (List Effect) → Trace → Trace
checks env agent_id limit [] tr = tr
checks env agent_id limit (es ∷ ess) tr =
    checks env agent_id limit ess (check env agent_id limit (es ++ tr)).1

module _ (env : Env) (f : ZFaithful env) where
  pub WellTimed-Elsewhere :
      (key : String) (es : List Effect) (tr : Trace)
      → Elsewhere key es
      → WellTimed env key tr
      → WellTimed env key (es ++ tr)
  WellTimed-Elsewhere key [] tr u w = w
  WellTimed-Elsewhere key (trimmed k hi ∷ es) tr u w =
      (λ e. absurd (u.0 e), WellTimed-Elsewhere key es tr u.1 w)
  WellTimed-Elsewhere key (added_member k s ttl ∷ es) tr u w =
      (λ e. absurd (u.0 e), WellTimed-Elsewhere key es tr u.1 w)
  WellTimed-Elsewhere key (_ ∷ es) tr u w = WellTimed-Elsewhere key es tr u w

  pub recent-Elsewhere :
      (lo : ℕ) (key : String) (es : List Effect) (tr : Trace)
      → Elsewhere key es
      → recent lo key (es ++ tr) ≡ recent lo key tr
  unfolding recent
  recent-Elsewhere lo key [] tr u = refl
  recent-Elsewhere lo key (added_member k s ttl ∷ es) tr u =
      ground (arith, eq_iff k key, recent-Elsewhere lo key es tr u.1)
  recent-Elsewhere lo key (trimmed k hi ∷ es) tr u = recent-Elsewhere lo key es tr u.1
  recent-Elsewhere lo key (_ ∷ es) tr u = recent-Elsewhere lo key es tr u

  pub append_later : (es : List Effect) (tr : Trace) → env.now tr ≤ env.now (es ++ tr)
  append_later [] tr = omega arith
  append_later (e ∷ es) tr = omega (arith, append_later es tr, f.monotone e (es ++ tr))

  -- From a well-timed trace in which the agent's window holds at most `limit` admissions, it still does after any
  -- number of checks, one after the other, with whatever happens in between that does not touch the
  -- agent's sorted set; Redis may fail at any call. The clock does not run backwards and stands at least
  -- a window past the epoch, and ZCARD counts what the commands before it have left.
  pub checks-Within :
      (agent_id : String) (limit : ℕ) (ess : List (List Effect)) (tr : Trace)
      → window ≤ env.now tr
      → WellTimed env (limit_key agent_id) tr
      → All (Elsewhere (limit_key agent_id)) ess
      → Within env agent_id limit tr
      → Within env agent_id limit (checks env agent_id limit ess tr)
  unfolding checks
  checks-Within agent_id limit [] tr h w u b = b
  checks-Within agent_id limit (es ∷ ess) tr h w u b =
      let k = limit_key agent_id in
      let t = es ++ tr in
      let t' = (check env agent_id limit t).1 in
      let w' = WellTimed-Elsewhere k es tr u.0 w in
      let l = append_later es tr in
      let l' = check_later env agent_id limit t f in
      checks-Within agent_id limit ess t' (omega (arith, l, l'))
        (check-WellTimed env agent_id limit t k f (omega (arith, l)) w') u.1
        (check-Within env agent_id limit t f (omega (arith, l)) w'
          (λ lo b'. omega (arith, recent-Elsewhere lo k es tr u.0, b lo (omega (arith, l, b')))) l')
