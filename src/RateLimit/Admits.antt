-- ===== src/RateLimit/Admits.antt =====
-- The limiter refuses no call that the limit leaves room for.
use mcp_control_plane.Prelude.{
  ℕ, ◌-◌, ◌≤◌, ◌<◌, String, ◌≡◌, true, List, [], ◌∷◌, arith, length, eq_iff, inl, inr,
}
use mcp_control_plane.World.{Env, Trace, trimmed, added_member, answered, ok, Reply-cases}
use mcp_control_plane.RateLimit.{window, RateLimitResult, limit_key, check}
use mcp_control_plane.RateLimit.Window.{above, alive, zstate, recent, ZFaithful}
use mcp_control_plane.RateLimit.Sliding.{counting, check_total}

above-again : (lo hi : ℕ) (l : List ℕ) → length (above lo (above hi l)) ≤ length (above lo l)
above-again lo hi [] = omega arith
above-again lo hi (s ∷ l) = ground (arith, above-again lo hi l)

-- Every member that is left in the sorted set is an admission.
above-le-recent :
    (env : Env) (key : String) (lo : ℕ) (tr : Trace)
    → length (above lo (zstate env tr key).0) ≤ recent lo key tr
unfolding recent zstate
above-le-recent env key lo [] = omega arith
above-le-recent env key lo (trimmed k hi ∷ tr) =
    ground (arith, above-le-recent env key lo tr, above-again lo hi (zstate env tr key).0)
above-le-recent env key lo (added_member k s ttl ∷ tr) =
    ground (arith, above-le-recent env key lo tr)
above-le-recent env key lo (e ∷ tr) = above-le-recent env key lo tr

alive-le : (now : ℕ) (z : List ℕ × ℕ) → length (alive now z) ≤ length z.0
alive-le now (l, deadline) = ground arith

module _ (env : Env) (agent_id : String) (limit : ℕ) (tr : Trace) where
  counted-room :
      (n : ℕ)
      → ZFaithful env
      → env.z_card (counting env agent_id limit tr) (limit_key agent_id) ≡ answered n
      → n ≤ recent (env.now tr - window) (limit_key agent_id) tr
  unfolding zstate
  counted-room n f e =
      let key = limit_key agent_id in
      let low = env.now tr - window in
      let here = counting env agent_id limit tr in
      let l = (zstate env tr key).0 in
      ground (
        arith,
        f.card here key n e,
        eq_iff key key,
        above-le-recent env key low tr,
        alive-le (env.now here) (zstate env here key),
      )

  admitted_room :
      (r : RateLimitResult)
      → ZFaithful env
      → recent (env.now tr - window) (limit_key agent_id) tr < limit
      → (check env agent_id limit tr).0 ≡ ok r
      → r.allowed ≡ true
  unfolding check
  admitted_room r f h e =
      elim (Reply-cases (env.z_card (counting env agent_id limit tr) (limit_key agent_id))) [
        | inr c ↦ ground (arith, c, e)
        | inl (n, c) ↦ ground (arith, c, e, h, counted-room n f c)
      ]

  -- A check answers with an admission, whether or not Redis answers its commands, where fewer admissions
  -- than the limit fall into the window that ends at the time of the check; the clock does not run backwards,
  -- and where ZCARD answers it counts what the commands before it have left.
  pub check_room :
      ZFaithful env
      → recent (env.now tr - window) (limit_key agent_id) tr < limit
      → (r : RateLimitResult) × ((check env agent_id limit tr).0 ≡ ok r) × (r.allowed ≡ true)
  check_room f h = let (r, e) = check_total env agent_id limit tr in (r, e, admitted_room r f h e)
