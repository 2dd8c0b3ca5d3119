-- ===== src/Mediation/Policy.antt =====
-- The decision of app/authz/opa.py against the reply of the policy engine.
use mcp_control_plane.Prelude.{String, ◌≡◌, Bool, false, not, ◌&&◌, Option, some, arith, [], ◌∷◌}
use mcp_control_plane.Value.{Value, obj, get, record_of}
use mcp_control_plane.World.{Exn, raise, ok, HttpReply, json, Trace, Env}
use mcp_control_plane.Interceptor.{ToolCallContext, infer_environment, opa_document}
use mcp_control_plane.Policy.{PolicyDecision, flag, evaluate_policy}
use mcp_control_plane.Traces.{Keeps}
use mcp_control_plane.Traces.Views.{runs, rows}

abbrev result_flags : Option Value → (Bool → Bool → Bool) → Bool
result_flags (some (obj result)) f = f (flag result "allow") (flag result "require_approval")
result_flags _ f = false

-- The reply is a dict whose `result` is a dict with a true `allow` and no true `require_approval`.
abbrev pub grants : HttpReply → Bool
grants (json (obj body)) = result_flags (get body "result") (λ allow held. allow && not held)
grants _ = false

-- The reply is a dict whose `result` is a dict with a true `require_approval`.
abbrev pub holds : HttpReply → Bool
holds (json (obj body)) = result_flags (get body "result") (λ allow held. held)
holds _ = false

abbrev pub policy_input : ToolCallContext → String → Value
policy_input c environment = record_of (("input", opa_document c environment) ∷ [])

module _ (env : Env) (c : ToolCallContext) where
  pub evaluate_policy-runs : Keeps runs (evaluate_policy env c)
  unfolding evaluate_policy
  evaluate_policy-runs = record { at = λ tr. ground arith }

  pub evaluate_policy-rows : Keeps rows (evaluate_policy env c)
  unfolding evaluate_policy
  evaluate_policy-rows = record { at = λ tr. ground arith }

  -- Where a decision comes of a reply, for arguments whose environment can be inferred, it lets the call
  -- through exactly if the reply has a true `allow` and no true `require_approval`, and holds it exactly
  -- if the reply has a true `require_approval`.
  pub evaluate_policy-grants :
      (environment : String) (tr : Trace) (d : PolicyDecision)
      → infer_environment c.arguments ≡ ok environment
      → (evaluate_policy env c tr).0 ≡ ok d
      → (d.allow && not d.require_approval ≡ grants (env.opa tr (policy_input c environment)))
        × (d.require_approval ≡ holds (env.opa tr (policy_input c environment)))
  unfolding evaluate_policy
  evaluate_policy-grants environment tr d e h = ground arith

  -- No decision comes of a reply that grants the call, except one that lets it through.
  pub evaluate_policy-raise :
      (environment : String) (tr : Trace) (e : Exn)
      → infer_environment c.arguments ≡ ok environment
      → (evaluate_policy env c tr).0 ≡ raise e
      → grants (env.opa tr (policy_input c environment)) ≡ false
  unfolding evaluate_policy
  evaluate_policy-raise environment tr e i h = ground arith
