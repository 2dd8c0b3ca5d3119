-- ===== src/RateLimit/Concurrent.antt =====
-- app/middleware/rate_limit.py: checks of one agent that are in flight at once. `check` awaits Redis three
-- times, and what others do may come in between.
use mcp_control_plane.Prelude.{
  ℕ, ◌-◌, ◌≤◌, String, ◌≡◌, List, [], ◌∷◌, ◌++◌, arith, leb, length, if◌then◌else◌,
}
use mcp_control_plane.World.{
  Env, Effect, Trace, Result, ok, raise, read_clock, zremrangebyscore, zcard,
}
use mcp_control_plane.RateLimit.{
  window, RateLimitResult, limit_key, admit, refuse, fail_open, check,
}
use mcp_control_plane.RateLimit.Runs.{Elsewhere}

-- Where a check stands: before its ZREMRANGEBYSCORE, before its ZCARD, behind it with what it has counted,
-- or at its end. The time is the one that it has read.
pub data Phase : Type 0 where
  at_trim : ℕ → Phase
  at_count : ℕ → Phase
  at_end : ℕ → ℕ → Phase
  finished : Result RateLimitResult → Phase

module _ (env : Env) (agent_id : String) (limit : ℕ) where
  -- A failed command ends the check, in its `except`.
  abbrev reached {ℓ} : {A : Type ℓ} → ℕ → (A → Phase) → Result A × Trace → Phase × Trace
  reached now phase (ok a, tr) = (phase a, tr)
  reached now phase (raise e, tr) = (finished (fail_open env agent_id limit now (raise e) tr).0, tr)

  -- up to the next await
  unfoldable pub advance : Phase × Trace → Phase × Trace
  unfolding zremrangebyscore zcard admit refuse fail_open
  advance (at_trim now, tr) =
      reached now (λ u. at_count now) (zremrangebyscore env (limit_key agent_id) (now - window) tr)
  advance (at_count now, tr) = reached now (at_end now) (zcard env (limit_key agent_id) tr)
  advance (at_end now count, tr) =
      reached now (λ r. finished (ok r))
        ((if leb limit count
            then refuse env agent_id limit now
            else admit env agent_id limit now count)
          tr)
  advance (finished r, tr) = (finished r, tr)

  -- A check that nothing comes in between is `check`.
  pub check-advance :
      (tr : Trace)
      → advance (advance (advance (at_trim (env.now tr), read_clock ∷ tr)))
        ≡ (finished (check env agent_id limit tr).0, (check env agent_id limit tr).1)
  unfolding advance check
  check-advance tr = ground arith

  -- what is still in flight of a check
  abbrev pub in_flight : Phase → List Phase
  in_flight (finished r) = []
  in_flight p = p ∷ []

  -- One step of the checks in flight, or of others: a check is called and reads its time, where at most `k`
  -- others are in flight; a check goes on to its next await; something else happens, which leaves the agent's
  -- sorted set alone.
  pub data Step (k : ℕ) : List Phase × Trace → List Phase × Trace → Type 0 where
    called :
        (ps : List Phase) (tr : Trace)
        → length ps ≤ k
        → Step k (ps, tr) (at_trim (env.now tr) ∷ ps, read_clock ∷ tr)
    resumed :
        (ps qs : List Phase) (p : Phase) (tr : Trace)
        → Step k
            (ps ++ (p ∷ qs), tr)
            (let (p', tr') = advance (p, tr) in (ps ++ (in_flight p' ++ qs), tr'))
    elsewhere :
        (ps : List Phase) (es : List Effect) (tr : Trace)
        → Elsewhere (limit_key agent_id) es
        → Step k (ps, tr) (ps, es ++ tr)

  pub data Reach (k : ℕ) (s : List Phase × Trace) : List Phase × Trace → Type 0 where
    here : Reach k s s
    next : {t u : List Phase × Trace} → Reach k s t → Step k t u → Reach k s u
