-- ===== src/Decisions.antt =====
-- app/main.py: the handlers of POST /admin/approvals/{id}/decide and GET /admin/approvals/{id}/status.
use mcp_control_plane.Prelude.{
  ℕ, String, Option, none, some, List, [], ◌∷◌, concat, not, ◌||◌, ◌==◌, if◌then◌else◌,
}
use mcp_control_plane.Value.{Value, null, str, record_of}
use mcp_control_plane.World.{
  DecisionRequest, DecisionBody, invalid, valid, attribute_error, Env, M, pure, throw, ◌>>=◌, ◌>>◌,
  publish,
}
use mcp_control_plane.Approvals.{
  Approval, asdict, get_approval, DecideOutcome, decided, not_found, already_decided,
  decide_approval,
}
use mcp_control_plane.Slack.{verify_signature}
use mcp_control_plane.Http.{Response, json_response}
use mcp_control_plane.Execution.{
  ExecutionOutcome, success, executor_error, unhandled_error, execute_tool, error_label, AuditCall,
  audit,
}

-- The parts of a request that the decide endpoint reads.
pub record DecideHttp : Type 0 where
  pub timestamp : Option String
  pub body : List ℕ
  pub signature : Option String

abbrev pub error_body : String → Value
error_body message = record_of (("error", str message) ∷ [])

abbrev pub status_body : Approval → String → Value
status_body a status = record_of (("approval_id", str a.id) ∷ ("status", str status) ∷ [])

abbrev pub approval_row : Approval → String → String → Value → AuditCall
approval_row a label reason result = record {
  agent_id = a.agent_id;
  role = a.role;
  tool_name = a.tool_name;
  arguments = a.arguments;
  decision = label;
  reason = reason;
  result = result;
  approval_id = some a.id;
}

-- what is pushed to the agent's open connection
abbrev pub event_of : Approval → String → String → Value → Value
event_of a status key v = record_of (
    ("approval_id", str a.id)
    ∷ ("tool_name", str a.tool_name)
    ∷ ("status", str status)
    ∷ (key, v)
    ∷ [])

abbrev pub denial_reason : DecisionRequest → String
denial_reason p = elim p.note [
  | none ↦ concat ("denied by " ∷ p.decided_by ∷ [])
  | some note ↦
      if note == ""
      then concat ("denied by " ∷ p.decided_by ∷ [])
      else concat ("denied by " ∷ p.decided_by ∷ ": " ∷ note ∷ [])
]

module _ (env : Env) (p : DecisionRequest) (a : Approval) where
  -- the branch `if approval.status == "denied"`
  unfoldable pub log_denial : M Response
  unfolding audit publish
  log_denial = do
    audit env (approval_row a "approval_denied" (denial_reason p) null)
    publish a.agent_id (event_of a "denied" "reason" (str (denial_reason p)))
    pure (json_response 200 (status_body a "denied"))

  -- the two branches on the outcome of the resumed call
  unfoldable pub report : ExecutionOutcome → M (Unit {0})
  unfolding audit publish error_label
  report (success result) = do
    audit env (approval_row a "allowed" (concat ("approved by " ∷ p.decided_by ∷ [])) result)
    publish a.agent_id (event_of a "approved" "result" result)
  report (executor_error error_type message) = do
    audit env (approval_row a (error_label error_type) message null)
    publish a.agent_id (event_of a "error" "error" (str message))
  report (unhandled_error message) = do
    audit env (approval_row a "error" message null)
    publish a.agent_id (event_of a "error" "error" (str message))

  unfoldable pub resume : M Response
  unfolding execute_tool report
  resume = do
    outcome ← execute_tool env a.tool_name a.arguments
    report outcome
    pure (json_response 200 (status_body a "approved"))

-- What follows `approvals.decide_approval`; it gives no approval only with `not_found`.
unfoldable pub after_decision : Env → DecisionRequest → Option Approval × DecideOutcome → M Response
unfolding log_denial resume
after_decision env p (o, not_found) =
    pure (json_response 410 (error_body "approval not found or expired"))
after_decision env p (none, already_decided) = throw attribute_error
after_decision env p (some a, already_decided) = pure (
    json_response 409
      (record_of (("error", str "approval already decided") ∷ ("status", str a.status) ∷ [])))
after_decision env p (none, decided) = throw attribute_error
after_decision env p (some a, decided) =
    if a.status == "denied" then log_denial env p a else resume env p a

unfoldable pub decide_payload : Env → String → DecisionBody → M Response
unfolding decide_approval after_decision
decide_payload env approval_id (invalid message) =
    pure (json_response 400 (error_body (concat ("invalid request body: " ∷ message ∷ []))))
decide_payload env approval_id (valid p) =
    if not (p.decision == "approve" || p.decision == "deny")
    then pure (json_response 400 (error_body "decision must be 'approve' or 'deny'"))
    else do
      result ← decide_approval env approval_id p.decision p.decided_by
      after_decision env p result

unfoldable pub decide : Env → String → DecideHttp → M Response
unfolding verify_signature decide_payload
decide env approval_id request = do
  genuine ← verify_signature env request.timestamp request.body request.signature
  if not genuine
      then pure (json_response 401 (error_body "invalid or missing Slack signature"))
      else decide_payload env approval_id (env.parse_decision request.body)

abbrev status_response : Option Approval → Response
status_response none = json_response 410 (error_body "approval not found or expired")
status_response (some a) = json_response 200 (asdict a)

unfoldable pub approval_status : Env → String → M Response
unfolding get_approval
approval_status env approval_id = do
  approval ← get_approval env approval_id
  pure (status_response approval)
