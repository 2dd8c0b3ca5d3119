-- ===== src/Mediation/Enforce.antt =====
-- What each decision leads to: which tool runs, and which row is written.
use mcp_control_plane.Prelude.{String, ◌≡◌, not, ◌&&◌, arith, ◌∷◌, if◌then◌else◌}
use mcp_control_plane.Value.{Value}
use mcp_control_plane.World.{Trace, Env}
use mcp_control_plane.Interceptor.{ToolCallContext}
use mcp_control_plane.Policy.{PolicyDecision}
use mcp_control_plane.Execution.{ExecutionOutcome, success, executor_error, unhandled_error}
use mcp_control_plane.Gateway.{enforce, hold_for_approval, deny, answer}
use mcp_control_plane.Traces.{Keeps}
use mcp_control_plane.Traces.Views.{runs}

module _ (env : Env) (rpc_id : Value) (c : ToolCallContext) (name : String)
    (d : PolicyDecision) where
  hold_for_approval-runs : Keeps runs (hold_for_approval env rpc_id c name d)
  unfolding hold_for_approval
  hold_for_approval-runs = record { at = λ tr. ground arith }

  deny-runs : Keeps runs (deny env rpc_id c name d)
  unfolding deny
  deny-runs = record { at = λ tr. ground arith }

  answer-runs : (o : ExecutionOutcome) → Keeps runs (answer env rpc_id c name d o)
  unfolding answer
  answer-runs (success v) = record { at = λ tr. ground arith }
  answer-runs (executor_error t m) = record { at = λ tr. ground arith }
  answer-runs (unhandled_error m) = record { at = λ tr. ground arith }

  pub enforce-runs :
      (tr : Trace)
      → runs (enforce env rpc_id c name d tr).1
        ≡ (if d.allow && not d.require_approval then (name, c.arguments) ∷ runs tr else runs tr)
  unfolding enforce
  enforce-runs tr = ground (arith, hold_for_approval-runs.at tr, deny-runs.at tr)
