-- ===== src/Telemetry/Counts.antt =====
-- app/otel.py, app/audit.py: the counter of tool calls against the audit log.
use mcp_control_plane.Prelude.{String, ◌≡◌, List, [], ◌∷◌, arith}
use mcp_control_plane.Value.{ℤ, str, Fields, dict}
use mcp_control_plane.World.{AuditRow, Env, Trace}
use mcp_control_plane.Interceptor.{Agent}
use mcp_control_plane.App.{Site, Request, serve}
use mcp_control_plane.App.Kept.{Preserved, serve-Stable}
use mcp_control_plane.Telemetry.{one}
use mcp_control_plane.Traces.Views.{Logged, rows, tool_calls}
use mcp_control_plane.Traces.Stable.{Stable, Keeps-Stable}
use mcp_control_plane.Audit.{record_tool_call, row_of, count_tool_call}
use mcp_control_plane.Execution.{AuditCall, audit}

-- one call, with the labels of each row
abbrev pub counts_of : List AuditRow → List (ℤ × Fields)
counts_of [] = []
counts_of (r ∷ rs) =
    (
      one,
      dict (
          ("tool_name", str r.tool_name)
          ∷ ("result_status", str r.result_status)
          ∷ ("role", str r.role)
          ∷ []),
    )
    ∷ counts_of rs

-- The counter has been added to for each row, in the order of the rows, and for nothing else.
abbrev pub Counted : Trace → Type 0
Counted tr = tool_calls tr ≡ counts_of (rows tr)

audit-Counted : (env : Env) (c : AuditCall) → Stable Counted (audit env c)
unfolding audit record_tool_call row_of count_tool_call
audit-Counted env c = record { at = λ tr p. ground (arith, p) }

Counted-Preserved : (env : Env) → Preserved env Counted
Counted-Preserved env = record {
  keeps = λ A m k. Keeps-Stable (λ (v : Logged). v.1 ≡ counts_of v.0) m k;
  audits = audit-Counted env;
}

-- If so far the counter of tool calls has been added to by one for each row of the audit log, in their order, with
-- the tool, the result status and the role of the row, and for nothing else, then it has been after any
-- request, on any route, whoever sent it, whatever the services answer, and whether or not an exception ends it.
pub serve-Counted :
    (env : Env) (site : Site) (keys : List (String × Agent)) (r : Request) (tr : Trace)
    → Counted tr
    → Counted (serve env site keys r tr).1
serve-Counted env site keys r tr c =
    (serve-Stable env Counted (Counted-Preserved env) site keys r).at tr c
