-- ===== src/RateLimit/Advances.antt =====
-- What a check does to its agent's window when it goes on to its next await.
use mcp_control_plane.Prelude.{
  ℕ, ◌+◌, ◌-◌, ◌≤◌, ◌<◌, String, refl, Bool-cases, [], ◌∷◌, arith, leb, ◌⊎◌, inl, inr,
}
use mcp_control_plane.World.{Env, Trace, Reply-cases, fault, trimmed, counted, added_member}
use mcp_control_plane.RateLimit.{window, limit_key, rate_limit_window_seconds}
use mcp_control_plane.RateLimit.Window.{
  alive, zstate, recent, WellTimed, ZFaithful, recent-le-alive, length-above-le,
}
use mcp_control_plane.RateLimit.Concurrent.{
  Phase, at_trim, at_count, at_end, finished, advance, in_flight,
}
use mcp_control_plane.RateLimit.Phases.{room, Timed}

module _ (env : Env) (f : ZFaithful env) (agent_id : String) (limit : ℕ) where
  -- What a check that goes on has done: its window and its room have not grown together, unless it has just
  -- counted.
  pub record Advanced (p p' : Phase) (tr tr' : Trace) : Type 0 where
    pub later : env.now tr ≤ env.now tr'
    pub timed : Timed (env.now tr') p'
    pub well : WellTimed env (limit_key agent_id) tr'
    pub grown :
        (lo : ℕ)
        → env.now tr' ≤ lo + window
        → (recent lo (limit_key agent_id) tr' + room limit (in_flight env agent_id limit p')
            ≤ recent lo (limit_key agent_id) tr + room limit (p ∷ []))
          ⊎ (recent lo (limit_key agent_id) tr' < limit)

  abbrev pub Advancing : Phase → Trace → Type 0
  Advancing p tr =
      Advanced p (advance env agent_id limit (p, tr)).0 tr (advance env agent_id limit (p, tr)).1

  module _ (now : ℕ) (tr : Trace) (h : window ≤ now) (past : now ≤ env.now tr) where
    trim-Advancing : WellTimed env (limit_key agent_id) tr → Advancing (at_trim now) tr
    unfolding advance recent
    trim-Advancing w =
        let k = limit_key agent_id in
        elim (Bool-cases (env.z_trim tr k (now - window))) [
          | inl e ↦ rw e (record {
            later = f.monotone (trimmed k (now - window)) tr;
            timed = (h, omega (arith, past, f.monotone (trimmed k (now - window)) tr));
            well = ((λ _. omega (arith, h, past)), w);
            grown = λ lo b. inl (omega arith);
          })
          | inr e ↦ rw e (record {
            later = f.monotone fault tr;
            timed = tt;
            well = w;
            grown = λ lo b. inl (omega arith);
          })
        ]

    count-Advancing : WellTimed env (limit_key agent_id) tr → Advancing (at_count now) tr
    unfolding advance recent
    count-Advancing w =
        let k = limit_key agent_id in
        elim (Reply-cases (env.z_card tr k)) [
          | inl (n, e) ↦ rw e (record {
            later = f.monotone (counted k) tr;
            timed = (h, omega (arith, past, f.monotone (counted k) tr));
            well = w;
            grown = λ lo b.
                let n_recent : recent lo k tr ≤ n = omega (
                  arith,
                  f.card tr k n e,
                  recent-le-alive env f k lo (env.now tr) tr w (omega arith)
                      (omega (arith, b, f.monotone (counted k) tr)),
                  length-above-le lo (alive (env.now tr) (zstate env tr k)),
                ) in
                elim (Bool-cases (leb limit n)) [
                  | inl full ↦ inl (rw full (omega arith))
                  | inr less ↦ inr (ground (arith, n_recent, less))
                ];
          })
          | inr e ↦ rw e (record {
            later = f.monotone (counted k) tr;
            timed = tt;
            well = w;
            grown = λ lo b. inl (omega arith);
          })
        ]

    end-Advancing :
        (count : ℕ) → WellTimed env (limit_key agent_id) tr → Advancing (at_end now count) tr
    unfolding advance recent
    end-Advancing count w =
        let k = limit_key agent_id in
        elim (Bool-cases (leb limit count)) [
          | inl full ↦ rw full (record {
            later = ground (arith, f.monotone (counted k) tr);
            timed = ground arith;
            well = ground (arith, w);
            grown = λ lo b. inl (ground arith);
          })
          | inr less ↦ rw less (elim (Bool-cases (env.z_add tr k now rate_limit_window_seconds)) [
            | inl e ↦ rw e (record {
              later = f.monotone (added_member k now rate_limit_window_seconds) tr;
              timed = tt;
              well = ((λ _. (past, refl)), w);
              grown = λ lo b. inl (ground (arith, less));
            })
            | inr e ↦ rw e (record {
              later = f.monotone fault tr;
              timed = tt;
              well = w;
              grown = λ lo b. inl (ground (arith, less));
            })
          ])
        ]

  pub phase-Advancing :
      (p : Phase) (tr : Trace)
      → Timed (env.now tr) p
      → WellTimed env (limit_key agent_id) tr
      → Advancing p tr
  unfolding advance
  phase-Advancing (at_trim now) tr (h, past) w = trim-Advancing now tr h past w
  phase-Advancing (at_count now) tr (h, past) w = count-Advancing now tr h past w
  phase-Advancing (at_end now count) tr (h, past) w = end-Advancing now tr h past count w
  phase-Advancing (finished r) tr t w = record {
    later = omega arith;
    timed = tt;
    well = w;
    grown = λ lo b. inl (omega arith);
  }
