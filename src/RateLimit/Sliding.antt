-- ===== src/RateLimit/Sliding.antt =====
-- The limiter's promise: never more admissions in a window than the limit.
use mcp_control_plane.Prelude.{
  ◌≢◌, ◌⊎◌, Bool-cases, ℕ, suc, ◌+◌, ◌-◌, ◌≤◌, ◌<◌, String, ◌≡◌, true, false, ◌∷◌, arith, ltb, leb,
  inl, inr,
}
use mcp_control_plane.World.{
  Result-cases, fault, counted, Env, Trace, trimmed, added_member, read_clock, answered, failed, ok,
  Reply-cases,
}
use mcp_control_plane.RateLimit.{
  window, RateLimitResult, limit_key, check, rate_limit_window_seconds,
}
use mcp_control_plane.RateLimit.Window.{
  alive, zstate, recent, WellTimed, ZFaithful, recent-le-alive, length-above-le,
}

-- A window that ends at the trace's time holds at most `limit` admissions of the agent.
abbrev pub Within : Env → String → ℕ → Trace → Type 0
Within env agent_id limit t =
    (lo : ℕ) → env.now t ≤ lo + window → recent lo (limit_key agent_id) t ≤ limit

module _ (env : Env) (agent_id : String) (limit : ℕ) (tr : Trace) where
  -- the trace at the moment of the count
  abbrev pub counting : Trace
  counting = trimmed (limit_key agent_id) (env.now tr - window) ∷ read_clock ∷ tr

  -- A key's trace stays well timed over a check of any agent.
  pub check-WellTimed :
      (key : String)
      → ZFaithful env
      → window ≤ env.now tr
      → WellTimed env key tr
      → WellTimed env key (check env agent_id limit tr).1
  unfolding check
  check-WellTimed key f h w =
      let trim : limit_key agent_id ≡ key
          → env.now tr - window + window ≤ env.now (read_clock ∷ tr) =
        λ _. omega (arith, f.monotone read_clock tr) in
      let score : limit_key agent_id ≡ key
          → (env.now tr ≤ env.now (counted (limit_key agent_id) ∷ counting))
            × (60 ≡ rate_limit_window_seconds) =
        λ _. omega (
          arith,
          f.monotone read_clock tr,
          f.monotone (trimmed (limit_key agent_id) (env.now tr - window)) (read_clock ∷ tr),
          f.monotone (counted (limit_key agent_id)) counting,
        ) in
      elim (Bool-cases (env.z_trim (read_clock ∷ tr) (limit_key agent_id) (env.now tr - window))) [
        | inr failed_trim ↦ rw failed_trim w
        | inl trimmed_ok ↦
            rw trimmed_ok (elim (Reply-cases (env.z_card counting (limit_key agent_id))) [
              | inr e ↦ rw e (trim, w)
              | inl (n, e) ↦ rw e (elim (Bool-cases (leb limit n)) [
                | inl full ↦
                    rw full
                      (elim (Reply-cases (
                        env.z_first (counted (limit_key agent_id) ∷ counting)
                          (limit_key agent_id))) [
                            | inr e' ↦ rw e' (trim, w)
                            | inl (o, e') ↦ rw e' (trim, w)
                          ])
                | inr room ↦
                    rw room
                      (elim (Bool-cases (
                        env.z_add (counted (limit_key agent_id) ∷ counting) (limit_key agent_id)
                          (env.now tr) 60)) [
                            | inr e' ↦ rw e' (trim, w)
                            | inl e' ↦ rw e' (score, (trim, w))
                          ])
              ])
            ])
      ]

  counted-recent :
      (lo n : ℕ)
      → ZFaithful env
      → window ≤ env.now tr
      → WellTimed env (limit_key agent_id) tr
      → env.now counting ≤ lo + window
      → env.z_card counting (limit_key agent_id) ≡ answered n
      → recent lo (limit_key agent_id) counting ≤ n
  counted-recent lo n f h w k e = omega (
    arith,
    f.card counting (limit_key agent_id) n e,
    recent-le-alive env f (limit_key agent_id) lo (env.now counting) counting
        (λ _. omega (arith, f.monotone read_clock tr), w) (omega arith) k,
    length-above-le lo (alive (env.now counting) (zstate env counting (limit_key agent_id))),
  )

  check-recent :
      (lo : ℕ)
      → ZFaithful env
      → (recent lo (limit_key agent_id) (check env agent_id limit tr).1
          ≡ recent lo (limit_key agent_id) tr)
        ⊎ ((n : ℕ) × (env.z_card counting (limit_key agent_id) ≡ answered n)
            × (n < limit)
            × (env.now counting ≤ env.now (check env agent_id limit tr).1)
            × (recent lo (limit_key agent_id) (check env agent_id limit tr).1
                ≤ suc (recent lo (limit_key agent_id) counting)))
  unfolding check recent
  check-recent lo f = elim (Reply-cases (env.z_card counting (limit_key agent_id))) [
    | inr e ↦ inl (ground arith)
    | inl (n, e) ↦ elim (Bool-cases (leb limit n)) [
      | inl full ↦ inl (ground arith)
      | inr room ↦
          elim (Bool-cases
            (env.z_trim (read_clock ∷ tr) (limit_key agent_id) (env.now tr - window))) [
              | inr e' ↦ inl (ground arith)
              | inl e' ↦
                  let t = counted (limit_key agent_id) ∷ counting in
                  inr (
                    n,
                    e,
                    ground arith,
                    ground (
                      arith,
                      f.monotone (counted (limit_key agent_id)) counting,
                      f.monotone (added_member (limit_key agent_id) (env.now tr) 60) t,
                      f.monotone fault t,
                    ),
                    ground arith,
                  )
            ]
    ]
  ]

  pub check-Within :
      ZFaithful env
      → window ≤ env.now tr
      → WellTimed env (limit_key agent_id) tr
      → Within env agent_id limit tr
      → env.now tr ≤ env.now (check env agent_id limit tr).1
      → Within env agent_id limit (check env agent_id limit tr).1
  check-Within f h w before later lo k = elim (check-recent lo f) [
    | inl same ↦ omega (arith, same, before lo (omega arith))
    | inr (n, e, room, counts, grown) ↦ omega (arith, counted-recent lo n f h w (omega arith) e)
  ]

  pub check_later : ZFaithful env → env.now tr ≤ env.now (check env agent_id limit tr).1
  unfolding check
  check_later f =
      let k = limit_key agent_id in
      let t = counted k ∷ counting in
      ground (
        arith,
        f.monotone read_clock tr,
        f.monotone fault (read_clock ∷ tr),
        f.monotone (trimmed k (env.now tr - window)) (read_clock ∷ tr),
        f.monotone (counted k) counting,
        f.monotone (counted k) t,
        f.monotone fault t,
        f.monotone (added_member k (env.now tr) 60) t,
      )

  -- A check answers whatever Redis does: no failure of Redis becomes an exception.
  pub check_total : (r : RateLimitResult) × ((check env agent_id limit tr).0 ≡ ok r)
  unfolding check
  check_total = elim (Result-cases (check env agent_id limit tr).0) [
    | inl (r, e) ↦ (r, e)
    | inr (x, e) ↦ absurd (ground arith)
  ]

  -- Where Redis answers each command of the check, and counts `n` members, the answer admits the call
  -- exactly if `n` is below the limit, reports the limit, and either refuses or reports a number of calls
  -- left that, with the `n` counted and this one, is within the limit.
  pub check_answer :
      (n : ℕ) (r : RateLimitResult)
      → env.z_trim (read_clock ∷ tr) (limit_key agent_id) (env.now tr - window) ≡ true
      → env.z_card counting (limit_key agent_id) ≡ answered n
      → env.z_first (counted (limit_key agent_id) ∷ counting) (limit_key agent_id) ≢ failed
      → env.z_add (counted (limit_key agent_id) ∷ counting) (limit_key agent_id) (env.now tr) 60
        ≡ true
      → (check env agent_id limit tr).0 ≡ ok r
      → (r.allowed ≡ ltb n limit)
        × (r.limit ≡ limit)
        × (r.remaining + n + 1 ≤ limit ⊎ (r.allowed ≡ false))
  unfolding check
  check_answer n r t c z a h = ground arith
