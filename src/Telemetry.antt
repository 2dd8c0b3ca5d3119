-- ===== src/Telemetry.antt =====
-- app/otel.py: the instruments, and what is added to them and recorded. Their readings are never read by
-- the code. Times are in microseconds, where the code has floats of milliseconds.
pub mod Counts
use mcp_control_plane.Prelude.{ℕ, ◌-◌, ◌*◌, String, Option, none, some, [], ◌∷◌, ltb, if◌then◌else◌}
use mcp_control_plane.Value.{ℤ, pos, minus, Value, str, Fields, dict}
use mcp_control_plane.World.{M, pure, ◌>>=◌, ◌>>◌, measure}

pub data Kind : Type 0 where
  counter histogram up_down_counter : Kind

pub record Instrument : Type 0 where
  pub kind : Kind
  pub name : String
  pub description : String
  pub unit : Option String

abbrev pub tool_calls_total : Instrument
tool_calls_total = record {
  kind = counter;
  name = "tool_calls_total";
  description = "Every completed tool call, labeled by tool_name, result_status, and role";
  unit = none;
}

abbrev pub policy_denials_total : Instrument
policy_denials_total = record {
  kind = counter;
  name = "policy_denials_total";
  description =
      "Tool calls denied by OPA policy (including fail-closed/unreachable), by tool_name and role";
  unit = none;
}

abbrev pub approval_requests_total : Instrument
approval_requests_total = record {
  kind = counter;
  name = "approval_requests_total";
  description = "Tool calls that required human approval, by tool_name";
  unit = none;
}

abbrev pub rate_limit_hits_total : Instrument
rate_limit_hits_total = record {
  kind = counter;
  name = "rate_limit_hits_total";
  description = "Requests rejected for exceeding the per-agent rate limit, by agent_id";
  unit = none;
}

abbrev pub tool_call_duration_ms : Instrument
tool_call_duration_ms = record {
  kind = histogram;
  name = "tool_call_duration_ms";
  description = "End-to-end tool call duration (request receipt to audit write), by tool_name";
  unit = some "ms";
}

abbrev pub approvals_pending : Instrument
approvals_pending = record {
  kind = up_down_counter;
  name = "approvals_pending";
  description =
      "Approvals currently awaiting a Slack decision (best-effort - see ponytail note in source)";
  unit = none;
}

abbrev pub approval_decision_duration_ms : Instrument
approval_decision_duration_ms = record {
  kind = histogram;
  name = "approval_decision_duration_ms";
  description = "Time from an approval request being opened to it being approved/denied";
  unit = some "ms";
}

abbrev pub audit_chain_integrity_failures_total : Instrument
audit_chain_integrity_failures_total = record {
  kind = counter;
  name = "audit_chain_integrity_failures_total";
  description =
      "Incremented whenever GET /admin/audit's hash-chain verification finds a broken row";
  unit = none;
}

-- `instrument.add(amount, labels)` of a counter, `instrument.record(amount, labels)` of a histogram
unfoldable pub add : Instrument → ℤ → Fields → M (Unit {0})
unfolding measure
add i amount labels = measure i.name amount labels

abbrev pub one : ℤ
one = pos 1

abbrev pub by_tool : String → Fields
by_tool tool_name = dict (("tool_name", str tool_name) ∷ [])

-- a time less another
abbrev pub elapsed_between : ℕ → ℕ → ℤ
elapsed_between now since = if ltb now since then minus (since - now) else pos (now - since)
