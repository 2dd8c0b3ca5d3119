-- ===== src/RateLimit.antt =====
-- app/middleware/rate_limit.py: the sliding-window limiter and its middleware. A time is in microseconds,
-- a score is a time; the clock is taken to be at least a window past the epoch.
pub mod Window
pub mod Sliding
pub mod Runs
pub mod Admits
pub mod Concurrent
mod Phases
mod Advances
pub mod Overlap
use mcp_control_plane.Prelude.{
  ℕ, ◌+◌, ◌-◌, ◌*◌, ◌/◌, String, Bool, true, false, Option, none, some, List, [], ◌∷◌, concat, leb,
  not, contains, if◌then◌else◌,
}
use Prim.Native.Nat.{max}
use mcp_control_plane.Value.{Value, null, int, str, pos, minus, dict, record_of}
use mcp_control_plane.World.{
  redis_error, Exn, Result, ok, raise, Env, M, Trace, pure, throw, ◌>>=◌, ◌>>◌, continue, time_now,
  zremrangebyscore, zcard, zrange_first, zadd_expire,
}
use mcp_control_plane.Clock.{second}
use mcp_control_plane.Telemetry.{add, rate_limit_hits_total, one}
use mcp_control_plane.Json.{decimal}
use mcp_control_plane.Interceptor.{Agent, format}
use mcp_control_plane.Http.{Response, no_stream, rpc_error}

abbrev pub rate_limit_window_seconds : ℕ
rate_limit_window_seconds = 60

-- `window_seconds`, in microseconds
abbrev pub window : ℕ
window = rate_limit_window_seconds * second

abbrev pub rate_limited_paths : List String
rate_limited_paths = "/mcp" ∷ []

pub record RateLimitResult : Type 0 where
  pub allowed : Bool
  pub limit : ℕ
  pub remaining : ℕ
  pub reset : ℕ
  pub retry_after : Option ℕ

unfoldable pub limit_key : String → String
limit_key agent_id = concat ("ratelimit:" ∷ agent_id ∷ [])

-- `oldest[0][1] + window` if there is an oldest member, else `now + window`
abbrev pub reset_time : ℕ → Option ℕ → ℕ
reset_time now none = now + window
reset_time now (some score) = score + window

unfoldable pub refusal : ℕ → ℕ → Option ℕ → RateLimitResult
refusal limit now oldest = record {
  allowed = false;
  limit = limit;
  remaining = 0;
  reset = reset_time now oldest / second;
  retry_after = some (max 1 ((reset_time now oldest - now) / second));
}

unfoldable pub admission : ℕ → ℕ → ℕ → RateLimitResult
admission limit now remaining = record {
  allowed = true;
  limit = limit;
  remaining = remaining;
  reset = (now + window) / second;
  retry_after = none;
}

module _ (env : Env) (agent_id : String) (limit : ℕ) where
  -- the branch below the limit; `limit - count - 1` is positive or 0 there
  unfoldable pub admit : ℕ → ℕ → M RateLimitResult
  unfolding zadd_expire admission
  admit now count = do
    zadd_expire env (limit_key agent_id) now rate_limit_window_seconds
    pure (admission limit now (limit - count - 1))

  unfoldable pub refuse : ℕ → M RateLimitResult
  unfolding zrange_first refusal
  refuse now = do oldest ← zrange_first env (limit_key agent_id); pure (refusal limit now oldest)

  -- the body of the `try`
  unfoldable pub check_window : ℕ → M RateLimitResult
  unfolding zremrangebyscore zcard admit refuse
  check_window now = do
    zremrangebyscore env (limit_key agent_id) (now - window)
    count ← zcard env (limit_key agent_id)
    if leb limit count then refuse now else admit now count

  -- `except redis.RedisError`: fail open
  unfoldable pub fail_open : ℕ → Result RateLimitResult → M RateLimitResult
  unfolding admission
  fail_open now (ok r) = pure r
  fail_open now (raise redis_error) = pure (admission limit now limit)
  fail_open now (raise e) = throw e

  -- `SlidingWindowRateLimiter.check`
  unfoldable pub check : M RateLimitResult
  unfolding time_now check_window fail_open
  check = do now ← time_now env; λ tr. let (r, tr') = check_window now tr in fail_open now r tr'

abbrev retry_value : Option ℕ → Value
retry_value none = null
retry_value (some n) = int (pos n)

abbrev retry_text : Option ℕ → String
retry_text none = "None"
retry_text (some n) = decimal n

unfoldable pub too_many : RateLimitResult → Response
too_many r = record {
  status = 429;
  body = rpc_error null (minus 32029) "Rate limit exceeded" (
      some (
        record_of
          (("limit", int (pos r.limit)) ∷ ("retry_after", retry_value r.retry_after) ∷ [])));
  headers =
      ("X-RateLimit-Limit", decimal r.limit)
      ∷ ("X-RateLimit-Remaining", "0")
      ∷ ("X-RateLimit-Reset", decimal r.reset)
      ∷ ("Retry-After", retry_text r.retry_after)
      ∷ [];
  stream = no_stream;
}

-- The handlers set none of these headers themselves.
unfoldable pub with_headers : RateLimitResult → Response → Response
with_headers r response = record response {
  headers =
      ("X-RateLimit-Limit", decimal r.limit)
      ∷ ("X-RateLimit-Remaining", decimal r.remaining)
      ∷ ("X-RateLimit-Reset", decimal r.reset)
      ∷ response.headers;
}

unfoldable pub limited : String → RateLimitResult → M Response → M Response
unfolding too_many with_headers add
limited agent_id r call_next =
    if not r.allowed
    then add rate_limit_hits_total one (dict (("agent_id", str agent_id) ∷ [])) >> pure (too_many r)
    else do response ← call_next; pure (with_headers r response)

-- the middleware, for the agent that `authenticate` has left on the request
unfoldable pub rate_limit : Env → String → Agent → M Response → M Response
unfolding check limited
rate_limit env path agent call_next =
    if not (contains rate_limited_paths path) then call_next else do
      r ← check env (format env agent.id) agent.rate_limit_rpm
      limited (format env agent.id) r call_next
