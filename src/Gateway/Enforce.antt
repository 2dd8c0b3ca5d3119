-- ===== src/Gateway/Enforce.antt =====
-- app/main.py: what the handler of POST /mcp does with a policy decision.
use mcp_control_plane.Prelude.{String, Option, none, some, [], ◌∷◌, concat, not, if◌then◌else◌}
use mcp_control_plane.Value.{Value, null}
use mcp_control_plane.World.{Env, M, pure, lift, ◌>>=◌, ◌>>◌}
use mcp_control_plane.Interceptor.{ToolCallContext}
use mcp_control_plane.Policy.{PolicyDecision}
use mcp_control_plane.Approvals.{create_pending_approval}
use mcp_control_plane.Slack.{send_approval_request}
use mcp_control_plane.Http.{Response, json_response, rpc_result}
use mcp_control_plane.Execution.{
  ExecutionOutcome, success, executor_error, unhandled_error, error_type_status, execute_tool,
  error_label, AuditCall, audit,
}
use mcp_control_plane.Gateway.Responses.{approval_pending, denied_by_policy, executor_failed}

module _ (env : Env) (rpc_id : Value) where
  module _ (c : ToolCallContext) (name : String) (decision : PolicyDecision) where
    abbrev pub call_row : String → String → Value → Option String → AuditCall
    call_row label reason result approval_id = record {
      agent_id = c.agent_id;
      role = c.role;
      tool_name = name;
      arguments = c.arguments;
      decision = label;
      reason = reason;
      result = result;
      approval_id = approval_id;
    }

    -- the branch `if decision.require_approval`
    unfoldable pub hold_for_approval : M Response
    unfolding create_pending_approval send_approval_request audit approval_pending
    hold_for_approval = do
      approval ← create_pending_approval env c.agent_id c.role name c.arguments decision.reason
      send_approval_request env approval
      audit env (call_row "pending_approval" decision.reason null (some approval.id))
      pure (approval_pending env rpc_id approval)

    -- the branch `if not decision.allow`
    unfoldable pub deny : M Response
    unfolding audit denied_by_policy
    deny = do
      audit env (call_row "denied" decision.reason null none)
      pure (denied_by_policy env rpc_id decision.reason)

    -- the three ends of an executor
    unfoldable pub answer : ExecutionOutcome → M Response
    unfolding audit error_type_status error_label executor_failed
    answer (executor_error error_type message) = do
      status_code ← lift (error_type_status error_type)
      audit env (call_row (error_label error_type) message null none)
      pure (
          executor_failed env rpc_id status_code (concat ("Executor error: " ∷ message ∷ []))
            message error_type)
    answer (unhandled_error message) = do
      audit env (call_row "error" message null none)
      pure (executor_failed env rpc_id 500 "Executor error" message "upstream_error")
    answer (success result) = do
      audit env (call_row "allowed" decision.reason result none)
      pure (json_response 200 (rpc_result rpc_id result))

    unfoldable pub run : M Response
    unfolding execute_tool answer
    run = do outcome ← execute_tool env name c.arguments; answer outcome

    unfoldable pub enforce : M Response
    unfolding hold_for_approval deny run
    enforce =
        if decision.require_approval
        then hold_for_approval
        else if not decision.allow
        then deny
        else run
