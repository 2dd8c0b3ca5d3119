-- ===== src/Tests/Fixtures.antt =====
-- A concrete environment, agents and requests, for tests and witnesses.
use mcp_control_plane.Prelude.{
  ◌+◌, ◌*◌, String, Bool, true, false, Option, none, some, [], ◌∷◌, length, concat,
}
use mcp_control_plane.Value.{null, Value, bool, str, obj, Fields, record_of, dict}
use mcp_control_plane.World.{
  AuditRow, valid, Trace, inserted_row, answered, HttpReply, json, ToolReply, returned, Env,
  delivered,
}
use mcp_control_plane.Interceptor.{Agent, ToolCallContext}
use mcp_control_plane.Json.{decimal}
use mcp_control_plane.Approvals.Store.{last_set}
use mcp_control_plane.App.{Site}
use mcp_control_plane.RateLimit.Window.{alive, zstate}

abbrev pub newest_hash : Trace → Option String
newest_hash [] = none
newest_hash (inserted_row row ∷ tr) = some row.row_hash
newest_hash (_ ∷ tr) = newest_hash tr

-- An environment whose policy engine and tools answer as given; its clock steps a millisecond with each
-- effect, its Redis and its Postgres answer by the writes in the trace, its hash is the identity.
abbrev pub base_env : HttpReply → ToolReply → Env
base_env policy reply = record {
  now = λ tr. 1700000000000000 + length tr * 1000;
  elapsed_ms = λ tr. length tr;
  new_uuid = λ tr. concat ("uuid-" ∷ decimal (length tr) ∷ []);
  trace_id = λ tr. none;
  sha256 = λ s. s;
  hmac_sha256 = λ key body. "00";
  format = λ v. "?";
  opa = λ tr input. policy;
  kv_get = λ tr key. answered (last_set tr key);
  kv_set = λ tr key v e. true;
  z_trim = λ tr key hi. true;
  z_card = λ tr key. answered 0;
  z_first = λ tr key. answered none;
  z_add = λ tr key score ttl. true;
  parse_decision = λ body. valid (record { decision = "approve"; decided_by = "ann"; note = none });
  slack_webhook_url = "https://hooks.example/x";
  slack_signing_secret = "secret";
  slack = λ tr message. delivered;
  renders = λ v. true;
  tool = λ tr name arguments. reply;
  last_hash = λ tr. answered (newest_hash tr);
  insert = λ tr row. true;
}

abbrev pub env_of : HttpReply → ToolReply → Env
env_of policy reply = record (base_env policy reply) {
  z_card = λ tr key.
      let base = base_env policy reply in
      answered (length (alive (base.now tr) (zstate base tr key)));
}

abbrev pub policy_reply : Bool → Bool → HttpReply
policy_reply allow approval = json (
    record_of (
      ("result", record_of (("allow", bool allow) ∷ ("require_approval", bool approval) ∷ []))
      ∷ []))

abbrev pub pods : Value
pods = record_of (("pods", str "none") ∷ [])

abbrev pub agent01 : Agent
agent01 = record {
  id = str "agent01";
  role = "sre1";
  allowed_tools = "list_pods" ∷ "exec_into_pod" ∷ [];
  rate_limit_rpm = 60;
}

abbrev pub in_prod : Fields
in_prod = dict (("namespace", str "prod-payments") ∷ [])

abbrev pub call_of : String → Fields → Value
call_of name arguments = record_of (
    ("jsonrpc", str "2.0")
    ∷ ("id", str "1")
    ∷ ("method", str "tools/call")
    ∷ ("params", record_of (("name", str name) ∷ ("arguments", obj arguments) ∷ []))
    ∷ [])

abbrev pub call_body : Fields
call_body = dict (
    ("jsonrpc", str "2.0")
    ∷ ("id", str "1")
    ∷ ("method", str "tools/call")
    ∷ ("params", record_of (("name", str "list_pods") ∷ ("arguments", obj in_prod) ∷ []))
    ∷ [])

abbrev pub allowed_env : Env
allowed_env = env_of (policy_reply true false) (returned pods)

abbrev pub held_env : Env
held_env = env_of (policy_reply false true) (returned pods)

abbrev pub context : ToolCallContext
context = record {
  tool_name = str "list_pods";
  arguments = in_prod;
  agent_id = "agent01";
  role = "sre1";
  requested_at = 0;
}

abbrev pub denied_row : AuditRow
denied_row = record {
  id = "uuid-1";
  agent_id = "agent01";
  role = "sre1";
  tool_name = "list_pods";
  args = null;
  policy_decision = null;
  approval_id = none;
  result_status = "denied";
  result_summary = null;
  duration_ms = none;
  otel_trace_id = none;
  row_hash = "";
  created_at = 15;
}

-- A table without rows, and dumps that gives one text for every row.
abbrev pub empty_site : Site
empty_site = record {
  db = record {
    count = λ sql ps. answered 0;
    fetch = λ sql ps. answered [];
    hash_at = λ seq. answered none;
    fromisoformat = λ text. none;
  };
  dumps = λ row. "{}";
}
