-- ===== src/RateLimit/Overlap.antt =====
-- app/middleware/rate_limit.py: how far checks of one agent that overlap may exceed the limit.
use mcp_control_plane.Prelude.{
  ℕ, suc, ◌+◌, ◌≤◌, String, List, [], ◌∷◌, ◌++◌, arith, length, length-append, All, inl, inr,
}
use mcp_control_plane.World.{Env, Trace, read_clock}
use mcp_control_plane.RateLimit.{window, limit_key}
use mcp_control_plane.RateLimit.Window.{recent, WellTimed, ZFaithful}
use mcp_control_plane.RateLimit.Runs.{WellTimed-Elsewhere, recent-Elsewhere, append_later}
use mcp_control_plane.RateLimit.Sliding.{Within}
use mcp_control_plane.RateLimit.Concurrent.{
  Phase, at_trim, at_count, at_end, finished, in_flight, Step, called, resumed, elsewhere, Reach,
  here, next,
}
use mcp_control_plane.RateLimit.Phases.{
  room, room-append, room-le, Timed, All-Timed-later, All-split, All-append,
}
use mcp_control_plane.RateLimit.Advances.{Advanced, phase-Advancing}

module _ (env : Env) (f : ZFaithful env) (agent_id : String) (limit : ℕ) where
  -- With at most `k` others in flight: the admissions in the last window, and those that are still to be
  -- added, are at most `k` above the limit.
  record IsBounded (k : ℕ) (s : List Phase × Trace) : Type 0 where
    few : length s.0 ≤ suc k
    timed : All (Timed (env.now s.1)) s.0
    well : WellTimed env (limit_key agent_id) s.1
    epoch : window ≤ env.now s.1
    bound :
        (lo : ℕ)
        → env.now s.1 ≤ lo + window
        → recent lo (limit_key agent_id) s.1 + room limit s.0 ≤ limit + k

  in_flight-length : (p : Phase) → length (in_flight env agent_id limit p) ≤ 1
  in_flight-length (at_trim now) = omega arith
  in_flight-length (at_count now) = omega arith
  in_flight-length (at_end now count) = omega arith
  in_flight-length (finished r) = omega arith

  in_flight-Timed : (t : ℕ) (p : Phase) → Timed t p → All (Timed t) (in_flight env agent_id limit p)
  in_flight-Timed t (at_trim now) h = (h, tt)
  in_flight-Timed t (at_count now) h = (h, tt)
  in_flight-Timed t (at_end now count) h = (h, tt)
  in_flight-Timed t (finished r) h = tt

  resumed-IsBounded :
      (k : ℕ) (ps qs : List Phase) (p p' : Phase) (tr tr' : Trace)
      → Advanced env f agent_id limit p p' tr tr'
      → IsBounded k (ps ++ (p ∷ qs), tr)
      → IsBounded k (ps ++ (in_flight env agent_id limit p' ++ qs), tr')
  resumed-IsBounded k ps qs p p' tr tr' a b =
      let key = limit_key agent_id in
      let now = in_flight env agent_id limit p' in
      let (before, (here_t, after)) = All-split (Timed (env.now tr)) ps (p ∷ qs) b.timed in
      let fewer : length (ps ++ (now ++ qs)) ≤ suc k = omega (
        arith,
        length-append ps (p ∷ qs),
        length-append ps (now ++ qs),
        length-append now qs,
        in_flight-length p',
        b.few,
      ) in
      record {
        few = fewer;
        timed =
            All-append (Timed (env.now tr')) ps (now ++ qs)
              (All-Timed-later (env.now tr) (env.now tr') ps a.later before)
              (All-append (Timed (env.now tr')) now qs (in_flight-Timed (env.now tr') p' a.timed)
                (All-Timed-later (env.now tr) (env.now tr') qs a.later after));
        well = a.well;
        epoch = omega (arith, b.epoch, a.later);
        bound = λ lo le. elim (a.grown lo le) [
          | inl g ↦ omega (
            arith,
            g,
            a.later,
            b.bound lo (omega (arith, le, a.later)),
            room-append limit ps (p ∷ qs),
            room-append limit (p ∷ []) qs,
            room-append limit ps (now ++ qs),
            room-append limit now qs,
          )
          | inr less ↦ omega (arith, less, fewer, room-le limit (ps ++ (now ++ qs)))
        ];
      }

  Step-IsBounded :
      {s t : List Phase × Trace} (k : ℕ)
      → Step env agent_id limit k s t
      → IsBounded k s
      → IsBounded k t
  unfolding recent
  Step-IsBounded k (called ps tr h) b =
      let later = f.monotone read_clock tr in
      record {
        few = omega (arith, h);
        timed = (
          (b.epoch, later),
          All-Timed-later (env.now tr) (env.now (read_clock ∷ tr)) ps later b.timed,
        );
        well = b.well;
        epoch = omega (arith, b.epoch, later);
        bound = λ lo le. b.bound lo (omega (arith, le, later));
      }
  Step-IsBounded k (resumed ps qs p tr) b =
      let (before, (here_t, after)) = All-split (Timed (env.now tr)) ps (p ∷ qs) b.timed in
      resumed-IsBounded k ps qs p _ tr _ (phase-Advancing env f agent_id limit p tr here_t b.well) b
  Step-IsBounded k (elsewhere ps es tr u) b =
      let key = limit_key agent_id in
      let later = append_later env f es tr in
      record {
        few = b.few;
        timed = All-Timed-later (env.now tr) (env.now (es ++ tr)) ps later b.timed;
        well = WellTimed-Elsewhere env f key es tr u b.well;
        epoch = omega (arith, b.epoch, later);
        bound = λ lo le.
            omega
              (arith, recent-Elsewhere env f lo key es tr u, b.bound lo (omega (arith, le, later)));
      }

  Reach-IsBounded :
      (k : ℕ) (s t : List Phase × Trace)
      → IsBounded k s
      → Reach env agent_id limit k s t
      → IsBounded k t
  Reach-IsBounded k s t b here = b
  Reach-IsBounded k s t b (next r st) = Step-IsBounded k st (Reach-IsBounded k s _ b r)

-- From a well-timed trace in which the agent's window holds at most `limit` admissions, and in which no check of
-- the agent is in flight: at every moment of every interleaving of checks of the agent, with at most `k` others
-- in flight when one is called, and with whatever happens in between that does not touch the agent's
-- sorted set, the window holds at most `limit + k` admissions; Redis may fail at any command. The clock does
-- not run backwards and stands at least a window past the epoch, and ZCARD counts what the commands before
-- it have left.
pub Reach-le :
    (env : Env) (agent_id : String) (limit k lo : ℕ) (tr tr' : Trace) (ps : List Phase)
    → ZFaithful env
    → window ≤ env.now tr
    → WellTimed env (limit_key agent_id) tr
    → Within env agent_id limit tr
    → Reach env agent_id limit k ([], tr) (ps, tr')
    → env.now tr' ≤ lo + window
    → recent lo (limit_key agent_id) tr' ≤ limit + k
Reach-le env agent_id limit k lo tr tr' ps f h w b r le =
    let bounded =
      Reach-IsBounded env f agent_id limit k ([], tr) (ps, tr')
        (record {
          few = omega arith;
          timed = tt;
          well = w;
          epoch = h;
          bound = λ l le'. omega (arith, b l le');
        })
        r in
    omega (arith, bounded.bound lo le)
