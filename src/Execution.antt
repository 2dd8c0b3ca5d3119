-- ===== src/Execution.antt =====
-- app/main.py: the registry of tools, `_execute_tool`, and the audit rows that both handlers write.
use mcp_control_plane.Prelude.{ℕ, String, Option, some, List, [], ◌∷◌, ◌==◌, if◌then◌else◌}
use mcp_control_plane.Value.{Value, Fields}
use mcp_control_plane.World.{
  key_error, Result, ok, raise, ToolReply, returned, refused, crashed, Env, M, pure, ◌>>=◌,
  time_now, call_tool,
}
use mcp_control_plane.Audit.{AuditEvent, record_tool_call}

-- The names of `TOOLS`, in its order.
abbrev pub registry : List String
registry =
    "list_pods" ∷ "get_pod_logs" ∷ "get_deployment_status" ∷ "restart_deployment"
    ∷ "scale_deployment" ∷ "exec_into_pod" ∷ "apply_k8s_manifest" ∷ "query_terraform_plan"
    ∷ "trigger_jenkins_job" ∷ "get_jenkins_job_status" ∷ "read_prometheus_metrics" ∷ "open_ticket"
    ∷ "read_ticket" ∷ []

-- `_ERROR_TYPE_STATUS[error_type]`
unfoldable pub error_type_status : String → Result ℕ
error_type_status t =
    if t == "validation_error"
    then ok 400
    else if t == "not_found"
    then ok 404
    else if t == "permission_denied"
    then ok 403
    else if t == "executor_timeout"
    then ok 504
    else if t == "upstream_error"
    then ok 502
    else raise key_error

-- `ExecutionOutcome`, by its `kind`
pub data ExecutionOutcome : Type 0 where
  success : Value → ExecutionOutcome
  executor_error : String → String → ExecutionOutcome
  unhandled_error : String → ExecutionOutcome

unfoldable pub outcome_of : ToolReply → ExecutionOutcome
outcome_of (returned v) = success v
outcome_of (refused error_type message) = executor_error error_type message
outcome_of (crashed message) = unhandled_error message

unfoldable pub execute_tool : Env → String → Fields → M ExecutionOutcome
unfolding call_tool outcome_of
execute_tool env tool_name arguments = do
  reply ← call_tool env tool_name arguments
  pure (outcome_of reply)

-- `"executor_timeout" if error_type == "executor_timeout" else "error"`
unfoldable pub error_label : String → String
error_label error_type = if error_type == "executor_timeout" then "executor_timeout" else "error"

-- `_duration_ms()`
abbrev elapsed : Env → M ℕ
elapsed env tr = pure (env.elapsed_ms tr) tr

-- What the calls `record_tool_call(pool, AuditEvent(…))` of the two handlers pass.
pub record AuditCall : Type 0 where
  pub agent_id : String
  pub role : String
  pub tool_name : String
  pub arguments : Fields
  pub decision : String
  pub reason : String
  pub result : Value
  pub approval_id : Option String

unfoldable pub audit_event : AuditCall → ℕ → ℕ → AuditEvent
audit_event c duration now = record {
  agent_id = c.agent_id;
  role = c.role;
  tool_name = c.tool_name;
  arguments = c.arguments;
  decision = c.decision;
  reason = some c.reason;
  result = c.result;
  approval_id = c.approval_id;
  duration_ms = some duration;
  timestamp = now;
}

-- The event's timestamp is read when the event is built.
unfoldable pub audit : Env → AuditCall → M (Unit {0})
unfolding time_now record_tool_call audit_event
audit env c = do
  duration ← elapsed env
  now ← time_now env
  record_tool_call env (audit_event c duration now)
