-- ===== src/Audit.antt =====
-- app/audit.py: the hash of a row, and the writing of one.
use mcp_control_plane.Prelude.{ℕ, ◌*◌, String, Option, none, some, [], ◌∷◌, concat}
use mcp_control_plane.Value.{pos, str, dict, Value, obj, Fields, record_of, opt_str}
use mcp_control_plane.World.{AuditRow, Env, M, pure, ◌>>=◌, ◌>>◌, fetch_last_hash, insert_row}
use mcp_control_plane.Telemetry.{add, tool_calls_total, tool_call_duration_ms, by_tool, one}
use mcp_control_plane.Json.{dumps}
use mcp_control_plane.Clock.{isoformat}
use mcp_control_plane.Approvals.{fresh_id}

-- `"0" * 64`
abbrev pub genesis_hash : String
genesis_hash = "0000000000000000000000000000000000000000000000000000000000000000"

-- `result` is null for None; the timestamp is in microseconds.
pub record AuditEvent : Type 0 where
  pub agent_id : String
  pub role : String
  pub tool_name : String
  pub arguments : Fields
  pub decision : String
  pub reason : Option String
  pub result : Value
  pub approval_id : Option String
  pub duration_ms : Option ℕ
  pub timestamp : ℕ

-- what `_row_hash` feeds to SHA-256
unfoldable pub hash_payload :
    (prev_hash row_id agent_id tool_name : String) → Value → Value → String → String
hash_payload prev_hash row_id agent_id tool_name args result created_at_iso =
    concat
      (prev_hash ∷ row_id ∷ agent_id ∷ tool_name ∷ dumps args ∷ dumps result ∷ created_at_iso ∷ [])

unfoldable pub row_hash_of :
    Env → (prev_hash row_id agent_id tool_name : String) → Value → Value → String → String
row_hash_of env prev_hash row_id agent_id tool_name args result created_at_iso =
    env.sha256 (hash_payload prev_hash row_id agent_id tool_name args result created_at_iso)

abbrev pub prev_or_genesis : Option String → String
prev_or_genesis none = genesis_hash
prev_or_genesis (some h) = h

-- the row that is inserted for an event
unfoldable pub row_of : Env → AuditEvent → (row_id prev_hash : String) → Option String → AuditRow
row_of env event row_id prev_hash otel_trace_id = record {
  id = row_id;
  agent_id = event.agent_id;
  role = event.role;
  tool_name = event.tool_name;
  args = obj event.arguments;
  policy_decision = record_of (("reason", opt_str event.reason) ∷ []);
  approval_id = event.approval_id;
  result_status = event.decision;
  result_summary = event.result;
  duration_ms = event.duration_ms;
  otel_trace_id = otel_trace_id;
  row_hash =
      row_hash_of env prev_hash row_id event.agent_id event.tool_name (obj event.arguments)
        event.result (isoformat event.timestamp);
  created_at = event.timestamp;
}

abbrev current_trace_id : Env → M (Option String)
current_trace_id env tr = pure (env.trace_id tr) tr

abbrev record_duration : String → Option ℕ → M (Unit {0})
record_duration tool_name none = pure tt
record_duration tool_name (some ms) =
    add tool_call_duration_ms (pos (ms * 1000)) (by_tool tool_name)

-- the two metrics of a row that has been written
unfoldable pub count_tool_call : AuditEvent → M (Unit {0})
unfolding add
count_tool_call event = do
  add tool_calls_total one (
      dict (
        ("tool_name", str event.tool_name)
        ∷ ("result_status", str event.decision)
        ∷ ("role", str event.role)
        ∷ []))
  record_duration event.tool_name event.duration_ms

-- The advisory lock makes the read of the last hash and the insert one step.
unfoldable pub record_tool_call : Env → AuditEvent → M (Unit {0})
unfolding fetch_last_hash insert_row row_of count_tool_call
record_tool_call env event = do
  row_id ← fresh_id env
  otel_trace_id ← current_trace_id env
  prev_hash ← fetch_last_hash env
  insert_row env (row_of env event row_id (prev_or_genesis prev_hash) otel_trace_id)
  count_tool_call event
