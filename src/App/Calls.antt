-- ===== src/App/Calls.antt =====
-- The calls and checks that neither write a row of audit_log nor count one.
use mcp_control_plane.Prelude.{ℕ, String, refl, Option, arith, List}
use mcp_control_plane.Value.{Value, Fields}
use mcp_control_plane.World.{Env, publish}
use mcp_control_plane.Interceptor.{ToolCallContext}
use mcp_control_plane.Policy.{evaluate_policy}
use mcp_control_plane.Approvals.{Approval, create_pending_approval, get_approval, decide_approval}
use mcp_control_plane.Slack.{send_approval_request, verify_signature}
use mcp_control_plane.Execution.{execute_tool}
use mcp_control_plane.RateLimit.{check}
use mcp_control_plane.Traces.{Keeps}
use mcp_control_plane.Traces.Views.{logged}
use mcp_control_plane.Query.{count_failure}
use mcp_control_plane.Integrity.{Verdict, pass, fail}
use mcp_control_plane.Telemetry.{add, rate_limit_hits_total, one}

module _ (env : Env) where
  pub create-Keeps :
      (agent_id role tool_name : String) (arguments : Fields) (reason : String)
      → Keeps logged (create_pending_approval env agent_id role tool_name arguments reason)
  unfolding create_pending_approval
  create-Keeps agent_id role tool_name arguments reason = record { at = λ tr. ground arith }

  pub send-Keeps : (a : Approval) → Keeps logged (send_approval_request env a)
  unfolding send_approval_request
  send-Keeps a = record { at = λ tr. ground arith }

  pub execute-Keeps :
      (name : String) (arguments : Fields) → Keeps logged (execute_tool env name arguments)
  unfolding execute_tool
  execute-Keeps name arguments = record { at = λ tr. ground arith }

  pub evaluate_policy-Keeps : (c : ToolCallContext) → Keeps logged (evaluate_policy env c)
  unfolding evaluate_policy
  evaluate_policy-Keeps c = record { at = λ tr. ground arith }

  pub publish-Keeps : (agent_id : String) (v : Value) → Keeps logged (publish agent_id v)
  unfolding publish
  publish-Keeps agent_id v = record { at = λ tr. refl }

  pub get_approval-Keeps : (id : String) → Keeps logged (get_approval env id)
  unfolding get_approval
  get_approval-Keeps id = record { at = λ tr. ground arith }

  pub decide_approval-Keeps :
      (id decision decided_by : String) → Keeps logged (decide_approval env id decision decided_by)
  unfolding decide_approval
  decide_approval-Keeps id decision decided_by = record { at = λ tr. ground arith }

  pub verify_signature-Keeps :
      (timestamp : Option String) (body : List ℕ) (signature : Option String)
      → Keeps logged (verify_signature env timestamp body signature)
  unfolding verify_signature
  verify_signature-Keeps timestamp body signature = record { at = λ tr. ground arith }

  pub check-Keeps : (agent_id : String) (limit : ℕ) → Keeps logged (check env agent_id limit)
  unfolding check
  check-Keeps agent_id limit = record { at = λ tr. ground arith }

  pub hit-Keeps : (labels : Fields) → Keeps logged (add rate_limit_hits_total one labels)
  unfolding add
  hit-Keeps labels = record { at = λ tr. refl }

  pub count_failure-Keeps : (v : Verdict) → Keeps logged (count_failure v)
  unfolding count_failure
  count_failure-Keeps pass = record { at = λ tr. refl }
  count_failure-Keeps (fail seq) = record { at = λ tr. refl }

  pub ruleset call_rules = (
    create-Keeps, send-Keeps, execute-Keeps, evaluate_policy-Keeps, publish-Keeps,
    get_approval-Keeps, decide_approval-Keeps, verify_signature-Keeps, check-Keeps, hit-Keeps,
    count_failure-Keeps,
  )
