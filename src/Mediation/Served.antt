-- ===== src/Mediation/Served.antt =====
-- POST /mcp through the whole stack: no tool runs for a caller without a key.
use mcp_control_plane.Prelude.{
  ℕ, String, ◌≡◌, refl, Option, none, some, List, arith, inl, inr, ◌⊎◌, Option-cases, if◌then◌else◌,
}
use mcp_control_plane.Value.{Fields}
use mcp_control_plane.Telemetry.{add, rate_limit_hits_total, one}
use mcp_control_plane.World.{
  Env, Trace, Result, ok, raise, M, pure, throw, value_error, continue, ◌>>=◌,
}
use mcp_control_plane.Interceptor.{Agent, format}
use mcp_control_plane.Http.{Body, Response}
use mcp_control_plane.Gateway.{mcp}
use mcp_control_plane.RateLimit.{RateLimitResult, check, limited, rate_limit}
use mcp_control_plane.Auth.{agent_of, unauthorised}
use mcp_control_plane.App.{Site, post_mcp, is_rendered, rendered, handler, serve}
use mcp_control_plane.Traces.{Keeps}
use mcp_control_plane.Traces.Views.{runs}
use mcp_control_plane.Mediation.Complete.{Gated, IsGated, IsGated-if, IsGated-pure, mcp-Gated}

check-runs : (env : Env) (agent_id : String) (limit : ℕ) → Keeps runs (check env agent_id limit)
unfolding check
check-runs env agent_id limit = record { at = λ tr. ground arith }

hit-runs : (labels : Fields) → Keeps runs (add rate_limit_hits_total one labels)
unfolding add
hit-runs labels = record { at = λ tr. refl }

continue-pure :
    (r : Result Response) (f : Response → Response) (tr : Trace)
    → (continue r (λ a. pure (f a)) tr).1 ≡ tr
continue-pure (ok a) f tr = refl
continue-pure (raise e) f tr = refl

continue_rendered :
    (env : Env) (r : Result Response) (tr : Trace)
    → (continue r (λ resp. if is_rendered env resp then pure resp else throw value_error) tr).1 ≡ tr
continue_rendered env (ok resp) tr = ground arith
continue_rendered env (raise e) tr = refl

module _ {env : Env} {agent : Agent} where
  continue-Gated :
      {A : Type 0} (r : Result A) (f : A → M Response) (before tr : Trace)
      → runs tr ≡ runs before
      → ((a : A) → IsGated env agent (f a))
      → Gated env agent before (continue r f tr).1
  continue-Gated (ok a) f before tr same g = rw (← same) ((g a).at tr)
  continue-Gated (raise e) f before tr same g = inl same

  IsGated-bind :
      {A : Type 0} (m : M A) (f : A → M Response)
      → Keeps runs m
      → ((a : A) → IsGated env agent (f a))
      → IsGated env agent (m >>= f)
  IsGated-bind m f k g = record { at = λ tr. continue-Gated (m tr).0 f tr (m tr).1 (k.at tr) g }

  IsGated-map :
      (m : M Response) (f : Response → Response)
      → IsGated env agent m
      → IsGated env agent (m >>= λ r. pure (f r))
  IsGated-map m f g = record { at = λ tr. rw (continue-pure (m tr).0 f (m tr).1) (g.at tr) }

  rendered-IsGated : (m : M Response) → IsGated env agent m → IsGated env agent (rendered env m)
  unfolding rendered
  rendered-IsGated m g = record {
    at = λ tr. rw (rendered, continue_rendered env (m tr).0 (m tr).1) (g.at tr);
  }

  limited-IsGated :
      (agent_id : String) (r : RateLimitResult) (next : M Response)
      → IsGated env agent next
      → IsGated env agent (limited agent_id r next)
  unfolding limited
  limited-IsGated agent_id r next g =
      search (IsGated-if, IsGated-pure, IsGated-map, IsGated-bind, hit-runs)

mcp-IsGated : (env : Env) (agent : Agent) (body : Body) → IsGated env agent (mcp env agent body)
mcp-IsGated env agent body = record { at = mcp-Gated env agent body }

rate_limit-IsGated :
    (env : Env) (agent : Agent) (body : Body)
    → IsGated env agent (rate_limit env "/mcp" agent (rendered env (mcp env agent body)))
unfolding rate_limit
rate_limit-IsGated env agent body =
    IsGated-bind (check env (format env agent.id) agent.rate_limit_rpm) _
      (check-runs env (format env agent.id) agent.rate_limit_rpm)
      (λ r.
        limited-IsGated (format env agent.id) r _ (rendered-IsGated _ (mcp-IsGated env agent body)))

-- POST /mcp through authentication and rate limiting: without a registered key the answer is the 401 and
-- nothing at all happens; with one, no tool runs or exactly one does, authorised for the key's agent.
pub serve-Gated :
    (env : Env) (site : Site) (keys : List (String × Agent)) (body : Body) (api_key : Option String)
    (tr : Trace)
    → let served = serve env site keys (record { api_key = api_key; route = post_mcp body }) tr in
      ((agent_of keys api_key ≡ none) × (served ≡ (ok unauthorised, tr)))
      ⊎ ((agent : Agent) × (agent_of keys api_key ≡ some agent) × Gated env agent tr served.1)
unfolding serve handler
serve-Gated env site keys body api_key tr = elim (Option-cases (agent_of keys api_key)) [
  | inl e ↦ inl (e, rw e refl)
  | inr (agent, e) ↦ inr (agent, e, rw e ((rate_limit-IsGated env agent body).at tr))
]
