-- ===== src/Traces/Views.antt =====
-- The tools that were run and the audit rows that were written, and the steps that add to neither.
use mcp_control_plane.Prelude.{String, List, [], ◌∷◌, arith, ◌==◌, if◌then◌else◌}
use mcp_control_plane.Value.{ℤ, Fields}
use mcp_control_plane.World.{AuditRow, ran_tool, inserted_row, measured, Trace, Env}
use mcp_control_plane.Execution.{AuditCall, audit}
use mcp_control_plane.Traces.Rules.{Keeps}

abbrev pub runs : Trace → List (String × Fields)
runs [] = []
runs (ran_tool name arguments ∷ tr) = (name, arguments) ∷ runs tr
runs (_ ∷ tr) = runs tr

abbrev pub rows : Trace → List AuditRow
rows [] = []
rows (inserted_row row ∷ tr) = row ∷ rows tr
rows (_ ∷ tr) = rows tr

-- What was added to the counter of tool calls, and its labels.
abbrev pub tool_calls : Trace → List (ℤ × Fields)
tool_calls [] = []
tool_calls (measured name amount labels ∷ tr) =
    let rest = tool_calls tr in if name == "tool_calls_total" then (amount, labels) ∷ rest else rest
tool_calls (_ ∷ tr) = tool_calls tr

-- The rows, and what was counted of them.
abbrev pub Logged : Type 0
Logged = List AuditRow × List (ℤ × Fields)

abbrev pub logged : Trace → Logged
logged tr = (rows tr, tool_calls tr)

pub audit-runs : (env : Env) (c : AuditCall) → Keeps runs (audit env c)
unfolding audit
audit-runs env c = record { at = λ tr. ground arith }
