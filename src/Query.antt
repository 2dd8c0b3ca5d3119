-- ===== src/Query.antt =====
-- app/audit.py and app/main.py: GET /admin/audit. The three SELECTs are answered by a `Db`.
pub mod Filters
pub mod Pages
use mcp_control_plane.Prelude.{
  ℕ, ◌+◌, String, Bool, Option, none, some, List, [], ◌∷◌, ◌++◌, length, concat, ◌==◌, ltb,
  if◌then◌else◌,
}
use mcp_control_plane.Value.{
  ℤ, pos, negsuc, Value, null, int, str, record_of, list_of, opt_str, end,
}
use mcp_control_plane.World.{
  db_error, value_error, Result, ok, raise, Reply, answered, failed, Env, M, pure, throw, lift,
  ◌>>=◌, ◌>>◌,
}
use mcp_control_plane.Telemetry.{add, audit_chain_integrity_failures_total, one}
use mcp_control_plane.Json.{decimal}
use mcp_control_plane.Clock.{isoformat}
use mcp_control_plane.Http.{Response, json_response}
use mcp_control_plane.Integrity.{StoredRow, Verdict, pass, fail, verify_rows}

abbrev pub max_query_limit : ℕ
max_query_limit = 500

-- A time is in microseconds from the epoch, before it or after.
-- A value that is bound to a placeholder.
pub data Param : Type 0 where
  text : String → Param
  time : ℤ → Param
  number : ℕ → Param

-- A condition of the WHERE clause: a column, an operator, and the number of its placeholder.
pub record Condition : Type 0 where
  pub column : String
  pub operator : String
  pub index : ℕ

pub record Clause : Type 0 where
  pub conditions : List Condition
  pub params : List Param

pub record AuditFilters : Type 0 where
  pub agent_id : Option String
  pub tool : Option String
  pub since : Option ℤ
  pub until : Option ℤ
  pub result_status : Option String

-- `params.append(value)`, then `conditions.append(f"{column} … ${len(params)}")`
unfoldable pub add_condition : String → String → Param → Clause → Clause
add_condition column operator v c = record {
  conditions =
      c.conditions
      ++ (record { column = column; operator = operator; index = length c.params + 1 } ∷ []);
  params = c.params ++ (v ∷ []);
}

-- An empty text filters nothing.
unfoldable pub add_text : String → Option String → Clause → Clause
unfolding add_condition
add_text column none c = c
add_text column (some s) c = if s == "" then c else add_condition column "=" (text s) c

unfoldable pub add_time : String → Option ℤ → Clause → Clause
unfolding add_condition
add_time operator none c = c
add_time operator (some t) c = add_condition "created_at" operator (time t) c

unfoldable pub collect_filters : AuditFilters → Clause
unfolding add_text add_time
collect_filters f = add_time "<=" f.until (
    add_time ">=" f.since (
      add_text "result_status" f.result_status (
        add_text "tool_name" f.tool
          (add_text "agent_id" f.agent_id (record { conditions = []; params = [] })))))

abbrev condition_text : Condition → String
condition_text c = concat (c.column ∷ " " ∷ c.operator ∷ " $" ∷ decimal c.index ∷ [])

-- `' AND '.join(conditions)` behind its first condition
abbrev and_conditions : List Condition → String
and_conditions [] = ""
and_conditions (c ∷ cs) = concat (" AND " ∷ condition_text c ∷ and_conditions cs ∷ [])

unfoldable pub where_clause : List Condition → String
where_clause [] = ""
where_clause (c ∷ cs) = concat ("WHERE " ∷ condition_text c ∷ and_conditions cs ∷ [])

-- `max(1, min(limit, MAX_QUERY_LIMIT))`
unfoldable pub clamped_limit : ℤ → ℕ
clamped_limit (pos n) = if ltb n 1 then 1 else if ltb max_query_limit n then max_query_limit else n
clamped_limit (negsuc n) = 1

-- `max(0, offset)`
unfoldable pub clamped_offset : ℤ → ℕ
clamped_offset (pos n) = n
clamped_offset (negsuc n) = 0

-- The answers of Postgres to the SELECTs, and `datetime.fromisoformat`.
pub record Db : Type 0 where
  pub count : String → List Param → Reply ℕ
  pub fetch : String → List Param → Reply (List StoredRow)
  pub hash_at : ℕ → Reply (Option String)
  pub fromisoformat : String → Option ℤ

abbrev answer_of {ℓ} : {A : Type ℓ} → Reply A → Result A
answer_of (answered a) = ok a
answer_of failed = raise db_error

unfoldable pub count_query : Clause → String
unfolding where_clause
count_query c = concat ("SELECT COUNT(*) FROM audit_log " ∷ where_clause c.conditions ∷ [])

unfoldable pub page_query : Clause → String
unfolding where_clause
page_query c = concat (
    "SELECT * FROM audit_log "
    ∷ where_clause c.conditions
    ∷ " ORDER BY seq DESC LIMIT $"
    ∷ decimal (length c.params + 1)
    ∷ " OFFSET $"
    ∷ decimal (length c.params + 2)
    ∷ [])

pub record AuditPage : Type 0 where
  pub total : ℕ
  pub rows : List StoredRow
  pub verdict : Verdict

unfoldable pub count_failure : Verdict → M (Unit {0})
unfolding add
count_failure pass = pure tt
count_failure (fail seq) = add audit_chain_integrity_failures_total one end

unfoldable pub query_audit_log : Env → Db → AuditFilters → (limit offset : ℤ) → M AuditPage
unfolding collect_filters clamped_limit clamped_offset count_query page_query verify_rows
    count_failure
query_audit_log env db filters limit offset = do
  let clause = collect_filters filters
  total ← lift (answer_of (db.count (count_query clause) clause.params))
  rows ← lift (
      answer_of (
        db.fetch (page_query clause)
          (clause.params ++ (number (clamped_limit limit) ∷ number (clamped_offset offset) ∷ []))))
  verdict ← lift (verify_rows env db.hash_at rows)
  count_failure verdict
  pure (record { total = total; rows = rows; verdict = verdict })
