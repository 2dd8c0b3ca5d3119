-- ===== src/AuditApi.antt =====
-- app/main.py and app/audit.py: GET /admin/audit and the rows of GET /admin/audit/export.
use mcp_control_plane.Prelude.{ℕ, String, Option, none, some, List, [], ◌∷◌, ◌==◌, if◌then◌else◌}
use mcp_control_plane.Value.{
  ℤ, pos, Value, null, int, str, dict, obj, Fields, field, record_of, list_of, opt_str,
}
use mcp_control_plane.World.{
  db_error, value_error, Result, ok, raise, Reply, answered, failed, Env, M, pure, lift, ◌>>=◌,
}
use mcp_control_plane.Clock.{isoformat}
use mcp_control_plane.Http.{Response, json_response}
use mcp_control_plane.Integrity.{StoredRow, Verdict, pass, fail}
use mcp_control_plane.Query.{Db, time, AuditPage, query_audit_log}

abbrev approval_value : Option String → Value
approval_value none = null
approval_value (some a) = if a == "" then null else str a

abbrev duration_value : Option ℕ → Value
duration_value none = null
duration_value (some n) = int (pos n)

-- The columns of type jsonb are values already: `_decode_jsonb` undoes what asyncpg leaves as text.
unfoldable pub row_to_json : StoredRow → Value
row_to_json r = record_of (
    ("id", str r.row.id)
    ∷ ("seq", int (pos r.seq))
    ∷ ("agent_id", str r.row.agent_id)
    ∷ ("role", str r.row.role)
    ∷ ("tool_name", str r.row.tool_name)
    ∷ ("args", r.row.args)
    ∷ ("policy_decision", r.row.policy_decision)
    ∷ ("approval_id", approval_value r.row.approval_id)
    ∷ ("result_status", str r.row.result_status)
    ∷ ("result_summary", r.row.result_summary)
    ∷ ("duration_ms", duration_value r.row.duration_ms)
    ∷ ("otel_trace_id", opt_str r.row.otel_trace_id)
    ∷ ("row_hash", str r.row.row_hash)
    ∷ ("created_at", str (isoformat r.row.created_at))
    ∷ [])

unfoldable pub rows_to_json : List StoredRow → List Value
unfolding row_to_json
rows_to_json [] = []
rows_to_json (r ∷ rs) = row_to_json r ∷ rows_to_json rs

-- the parameters of GET /admin/audit
pub record AuditParams : Type 0 where
  pub agent_id : Option String
  pub tool : Option String
  pub since : Option String
  pub until : Option String
  pub result_status : Option String
  pub limit : ℤ
  pub offset : ℤ

-- `datetime.fromisoformat(s)`
abbrev pub parsed : Option ℤ → Result ℤ
parsed none = raise value_error
parsed (some t) = ok t

-- `datetime.fromisoformat(s) if s else None`
unfoldable pub date_of : Db → Option String → Result (Option ℤ)
date_of db none = ok none
date_of db (some s) =
    if s == ""
    then ok none
    else elim (parsed (db.fromisoformat s)) [ ok t ↦ ok (some t) | raise e ↦ raise e ]

unfoldable pub verdict_fields : Verdict → Fields
verdict_fields pass = dict (("integrity_check", str "pass") ∷ [])
verdict_fields (fail seq) =
    dict (("integrity_check", str "fail") ∷ ("first_broken_seq", int (pos seq)) ∷ [])

unfoldable pub page_body : AuditPage → Value
unfolding rows_to_json verdict_fields
page_body page = obj (
    field "total" (int (pos page.total))
      (field "rows" (list_of (rows_to_json page.rows)) (verdict_fields page.verdict)))

unfoldable pub get_audit_log : Env → Db → AuditParams → M Response
unfolding date_of query_audit_log page_body
get_audit_log env db q = do
  since ← lift (date_of db q.since)
  until ← lift (date_of db q.until)
  page ←
      query_audit_log env db
        (record {
          agent_id = q.agent_id;
          tool = q.tool;
          since = since;
          until = until;
          result_status = q.result_status;
        })
        q.limit q.offset
  pure (json_response 200 (page_body page))

abbrev selected : Reply (List StoredRow) → Result (List StoredRow)
selected (answered rows) = ok rows
selected failed = raise db_error

-- the SELECT of the export
abbrev pub export_query : String
export_query =
    "SELECT * FROM audit_log WHERE created_at >= $1 AND created_at <= $2 ORDER BY seq ASC"

-- The objects that the lines of the export hold, one for each row that the cursor gives.
unfoldable pub export_audit_log : Db → ℤ → ℤ → M (List Value)
unfolding rows_to_json
export_audit_log db since until = do
  rows ← lift (selected (db.fetch export_query (time since ∷ time until ∷ [])))
  pure (rows_to_json rows)
