-- ===== src/Tests/Limits.antt =====
-- The limiter's theorems for an agent with a limit of 2 and three requests.
use mcp_control_plane.Prelude.{
  ℕ, List, ◌+◌, ◌≤◌, ◌≡◌, refl, sym, true, false, ltb, none, [], ◌∷◌, arith, String, ◌⊎◌,
}
use mcp_control_plane.World.{Trace, ok, read_clock, returned, trimmed, added_member}
use mcp_control_plane.RateLimit.{check, limit_key, RateLimitResult}
use mcp_control_plane.RateLimit.Window.{ZFaithful, zstate, recent}
use mcp_control_plane.RateLimit.Sliding.{Within, check_total, check_answer}
use mcp_control_plane.RateLimit.Admits.{check_room}
use mcp_control_plane.RateLimit.Concurrent.{
  Phase, at_trim, at_count, at_end, advance, called, resumed, Reach, here, next,
}
use mcp_control_plane.RateLimit.Overlap.{Reach-le}
use mcp_control_plane.RateLimit.Runs.{checks, checks-Within}
use mcp_control_plane.Tests.Fixtures.{allowed_env, base_env, policy_reply, pods}

zstate_same :
    (tr : Trace) (key : String)
    → zstate allowed_env tr key ≡ zstate (base_env (policy_reply true false) (returned pods)) tr key
unfolding zstate
zstate_same [] key = refl
zstate_same (trimmed k hi ∷ tr) key = rw (zstate_same tr key) refl
zstate_same (added_member k s ttl ∷ tr) key = rw (zstate_same tr key) refl
zstate_same (e ∷ tr) key = zstate_same tr key

allowed_env-ZFaithful : ZFaithful allowed_env
allowed_env-ZFaithful = record {
  monotone = λ e tr. omega arith;
  card = λ tr key n h. rw (zstate_same tr key) (sym cc);
}

checks-Within_example :
    Within allowed_env "agent01" 2
      (checks allowed_env "agent01" 2 ([] ∷ (read_clock ∷ []) ∷ [] ∷ []) [])
unfolding recent
checks-Within_example =
    checks-Within allowed_env allowed_env-ZFaithful "agent01" 2 ([] ∷ (read_clock ∷ []) ∷ [] ∷ [])
      [] (omega arith) tt (tt, (tt, (tt, tt))) (λ lo h. omega arith)

check_total_example : (r : RateLimitResult) × ((check allowed_env "agent01" 2 []).0 ≡ ok r)
check_total_example = check_total allowed_env "agent01" 2 []

abbrev admitted : RateLimitResult
admitted = record {
  allowed = true;
  limit = 2;
  remaining = 1;
  reset = 1700000060;
  retry_after = none;
}

check_answer_example :
    (admitted.allowed ≡ ltb 0 2)
    × (admitted.limit ≡ 2)
    × (admitted.remaining + 0 + 1 ≤ 2 ⊎ (admitted.allowed ≡ false))
unfolding check limit_key zstate
check_answer_example =
    check_answer allowed_env "agent01" 2 [] 0 admitted refl refl (λ h. cc) refl refl

check_room_example :
    (r : RateLimitResult) × ((check allowed_env "agent01" 2 []).0 ≡ ok r) × (r.allowed ≡ true)
unfolding recent
check_room_example = check_room allowed_env "agent01" 2 [] allowed_env-ZFaithful (omega arith)

-- Two checks with a limit of 1: both are called, then both trim, both count, and both add.
abbrev forward : Phase × Trace → Phase × Trace
forward = advance allowed_env "agent01" 1

abbrev clocks : Trace
clocks = read_clock ∷ read_clock ∷ []

abbrev first : Phase
first = at_trim (allowed_env.now [])

abbrev second : Phase
second = at_trim (allowed_env.now (read_clock ∷ []))

abbrev trims : Trace
trims = (forward (second, (forward (first, clocks)).1)).1

abbrev counts : Trace
counts =
    (forward (
      at_count (allowed_env.now (read_clock ∷ [])),
      (forward (at_count (allowed_env.now []), trims)).1,
    )).1

abbrev adds : Trace
adds =
    (forward (
      at_end (allowed_env.now (read_clock ∷ [])) 0,
      (forward (at_end (allowed_env.now []) 0, counts)).1,
    )).1

-- both are admitted
overlap_exceeds : recent 0 (limit_key "agent01") adds ≡ 2
unfolding recent advance limit_key zstate
overlap_exceeds = refl

abbrev now_first : ℕ
now_first = allowed_env.now []

abbrev now_second : ℕ
now_second = allowed_env.now (read_clock ∷ [])

abbrev both_called : List Phase × Trace
both_called = (second ∷ first ∷ [], clocks)

called-Reach : Reach allowed_env "agent01" 1 1 ([], []) both_called
called-Reach =
    next (next here (called [] [] (omega arith)))
      (called (first ∷ []) (read_clock ∷ []) (omega arith))

trims-Reach :
    Reach allowed_env "agent01" 1 1 ([], []) (at_count now_second ∷ at_count now_first ∷ [], trims)
unfolding advance
trims-Reach =
    next (next called-Reach (resumed (second ∷ []) [] first clocks))
      (resumed [] (at_count now_first ∷ []) second (forward (first, clocks)).1)

counts-Reach :
    Reach allowed_env "agent01" 1 1 ([], []) (at_end now_second 0 ∷ at_end now_first 0 ∷ [], counts)
unfolding advance limit_key zstate
counts-Reach =
    next (next trims-Reach (resumed (at_count now_second ∷ []) [] (at_count now_first) trims)) (
      resumed [] (at_end now_first 0 ∷ []) (at_count now_second)
        (forward (at_count now_first, trims)).1)

adds-Reach : Reach allowed_env "agent01" 1 1 ([], []) ([], adds)
unfolding advance limit_key zstate
adds-Reach =
    next (next counts-Reach (resumed (at_end now_second 0 ∷ []) [] (at_end now_first 0) counts))
      (resumed [] [] (at_end now_second 0) (forward (at_end now_first 0, counts)).1)

Reach-le_example : recent (allowed_env.now []) (limit_key "agent01") adds ≤ 1 + 1
unfolding advance limit_key zstate recent
Reach-le_example =
    Reach-le allowed_env "agent01" 1 1 (allowed_env.now []) [] adds [] allowed_env-ZFaithful
      (omega arith) tt (λ lo h. omega arith) adds-Reach (omega arith)
