-- ===== src/Mediation/Gate.antt =====
-- The executor behind the gate: it runs exactly if the name is registered, in the agent's scope, and
-- granted by the policy engine.
use mcp_control_plane.Prelude.{
  String, ◌≡◌, refl, Bool, false, not, ◌&&◌, some, arith, List, ◌∷◌, contains, if◌then◌else◌,
  Bool-cases, inl, inr,
}
use mcp_control_plane.Value.{Value, Fields}
use mcp_control_plane.World.{Exn, Result, ok, raise, Trace, Env, continue}
use mcp_control_plane.Interceptor.{Agent, ToolCallContext, infer_environment}
use mcp_control_plane.Policy.{PolicyDecision}
use mcp_control_plane.Gateway.{enforce, after_lookup}
use mcp_control_plane.Traces.Views.{runs}
use mcp_control_plane.Mediation.Policy.{
  grants, policy_input, evaluate_policy-runs, evaluate_policy-grants, evaluate_policy-raise,
}
use mcp_control_plane.Mediation.Enforce.{enforce-runs}

abbrev pub run_if : Bool → String → Fields → Trace → List (String × Fields)
run_if b name arguments tr = if b then (name, arguments) ∷ runs tr else runs tr

module _ (env : Env) (rpc_id : Value) (agent : Agent) (c : ToolCallContext) (name : String) where
  decided_runs :
      (r : Result PolicyDecision) (granted : Bool) (tr tr' : Trace)
      → ((d : PolicyDecision) → r ≡ ok d → d.allow && not d.require_approval ≡ granted)
      → ((e : Exn) → r ≡ raise e → granted ≡ false)
      → runs tr' ≡ runs tr
      → runs (continue r (enforce env rpc_id c name) tr').1 ≡ run_if granted name c.arguments tr
  decided_runs (ok d) granted tr tr' hd he same =
      ground (arith, enforce-runs env rpc_id c name d tr', hd d refl)
  decided_runs (raise e) granted tr tr' hd he same = ground (arith, he e refl)

  -- Of a registered name, for arguments whose environment can be inferred: the tool runs, once and with
  -- the call's arguments, exactly if the name is in the agent's allowed_tools and the policy engine's
  -- reply to the call grants it; else no tool runs.
  pub after_lookup-runs :
      (environment : String) (tr : Trace)
      → infer_environment c.arguments ≡ ok environment
      → runs (after_lookup env rpc_id agent c (some name) tr).1
        ≡ run_if
            (contains agent.allowed_tools name && grants (env.opa tr (policy_input c environment)))
            name
            c.arguments
            tr
  unfolding after_lookup
  after_lookup-runs environment tr h = elim (Bool-cases (contains agent.allowed_tools name)) [
    | inl scoped ↦ rw scoped (
        decided_runs _ (grants (env.opa tr (policy_input c environment))) tr _
          (λ d e. (evaluate_policy-grants env c environment tr d h e).0)
          (λ x e. evaluate_policy-raise env c environment tr x h e)
          ((evaluate_policy-runs env c).at tr))
    | inr out ↦ rw out refl
  ]
