-- ===== src/Mediation/Audited.antt =====
-- What is answered to a call is what is written to the audit log of it.
use mcp_control_plane.Prelude.{String, ◌≡◌, not, arith, List, [], ◌∷◌, if◌then◌else◌, ◌==◌}
use mcp_control_plane.Value.{Value, obj}
use mcp_control_plane.World.{inserted_row, Trace, Env, ToolReply, returned, refused, crashed, ok}
use mcp_control_plane.Interceptor.{ToolCallContext}
use mcp_control_plane.Policy.{PolicyDecision}
use mcp_control_plane.Gateway.{enforce, hold_for_approval, deny, run}
use mcp_control_plane.Http.{Response}

-- Who called which tool with what, and how it ended.
pub record Entry : Type 0 where
  pub agent_id : String
  pub role : String
  pub tool_name : String
  pub args : Value
  pub result_status : String

abbrev pub entries : Trace → List Entry
entries [] = []
entries (inserted_row row ∷ tr) =
    record {
      agent_id = row.agent_id;
      role = row.role;
      tool_name = row.tool_name;
      args = row.args;
      result_status = row.result_status;
    }
    ∷ entries tr
entries (_ ∷ tr) = entries tr

abbrev pub entry_of : ToolCallContext → String → String → Entry
entry_of c name label = record {
  agent_id = c.agent_id;
  role = c.role;
  tool_name = name;
  args = obj c.arguments;
  result_status = label;
}

-- How the log calls the end of an executor.
abbrev pub reply_label : ToolReply → String
reply_label (returned v) = "allowed"
reply_label (refused t m) = if t == "executor_timeout" then "executor_timeout" else "error"
reply_label (crashed m) = "error"

-- How the log calls what follows a decision.
abbrev pub decision_label : PolicyDecision → ToolReply → String
decision_label d reply =
    if d.require_approval
    then "pending_approval"
    else if not d.allow
    then "denied"
    else reply_label reply

module _ (env : Env) (rpc_id : Value) (c : ToolCallContext) (name : String)
    (d : PolicyDecision) where
  hold_for_approval-entries :
      (tr : Trace) (resp : Response)
      → (hold_for_approval env rpc_id c name d tr).0 ≡ ok resp
      → (entries (hold_for_approval env rpc_id c name d tr).1
          ≡ entry_of c name "pending_approval" ∷ entries tr)
        × (resp.status ≡ 202)
  unfolding hold_for_approval
  hold_for_approval-entries tr resp h = ground arith

  deny-entries :
      (tr : Trace) (resp : Response)
      → (deny env rpc_id c name d tr).0 ≡ ok resp
      → (entries (deny env rpc_id c name d tr).1 ≡ entry_of c name "denied" ∷ entries tr)
        × (resp.status ≡ 403)
  unfolding deny
  deny-entries tr resp h = ground arith

  run-entries :
      (tr : Trace) (resp : Response)
      → (run env rpc_id c name d tr).0 ≡ ok resp
      → (entries (run env rpc_id c name d tr).1
          ≡ entry_of c name (reply_label (env.tool tr name c.arguments)) ∷ entries tr)
  unfolding run
  run-entries tr resp h = ground arith

  -- Where the handler answers behind a decision, exactly one audit row was written: of the same caller,
  -- role, tool and arguments, and with the label of the decision and, of a call that ran, of its end.
  pub enforce-entries :
      (tr : Trace) (resp : Response)
      → (enforce env rpc_id c name d tr).0 ≡ ok resp
      → entries (enforce env rpc_id c name d tr).1
        ≡ entry_of c name (decision_label d (env.tool tr name c.arguments)) ∷ entries tr
  unfolding enforce
  enforce-entries tr resp h =
      ground (arith, hold_for_approval-entries tr resp, deny-entries tr resp, run-entries tr resp)
