-- ===== src/Tests/Query.antt =====
-- The theorems on the audit query at concrete filters.
use mcp_control_plane.Prelude.{
  ℕ, ◌+◌, ◌-◌, Option, length-append, ◌≤◌, ◌≡◌, refl, some, none, [], ◌∷◌, ◌++◌, List, arith,
  length, if◌then◌else◌, ltb,
}
use mcp_control_plane.Value.{pos}
use mcp_control_plane.World.{ok, answered}
use mcp_control_plane.Integrity.{StoredRow, expected_hash, fail, verify_rows}
use mcp_control_plane.Query.{
  AuditFilters, Db, Param, number, collect_filters, count_query, page_query, clamped_limit,
  clamped_offset, AuditPage, query_audit_log, where_clause,
}
use mcp_control_plane.Query.Filters.{all_hold, matches, param_at, collect_filters-matches}
use mcp_control_plane.Query.Pages.{LimitHonoured, queries-SameShape, query_audit_log-page}
use mcp_control_plane.Json.{decimal, dumps}
use mcp_control_plane.Clock.{isoformat}
use mcp_control_plane.Audit.{row_hash_of, hash_payload}
use mcp_control_plane.Tests.Fixtures.{allowed_env, denied_row}

abbrev filters : AuditFilters
filters = record {
  agent_id = some "agent01";
  tool = some "";
  since = some (pos 10);
  until = none;
  result_status = some "denied";
}

abbrev other_filters : AuditFilters
other_filters = record {
  agent_id = some "' OR 1=1 --";
  tool = none;
  since = some (pos 20);
  until = none;
  result_status = some "allowed";
}

where_built :
    where_clause (collect_filters filters).conditions
    ≡ "WHERE agent_id = $1 AND result_status = $2 AND created_at >= $3"
unfolding where_clause collect_filters decimal
where_built = refl

collect_filters-matches_example :
    all_hold denied_row (collect_filters filters).params (collect_filters filters).conditions
    ≡ matches filters denied_row
collect_filters-matches_example = collect_filters-matches filters denied_row

queries-SameShape_example :
    (count_query (collect_filters filters) ≡ count_query (collect_filters other_filters))
    × (page_query (collect_filters filters) ≡ page_query (collect_filters other_filters))
queries-SameShape_example = queries-SameShape filters other_filters (refl, refl, refl, refl, refl)

abbrev one_row : List StoredRow
one_row = record { seq = 1; row = denied_row } ∷ []

-- A table of one row, of which a query gets what its limit allows.
abbrev within : Option Param → List StoredRow
within (some (number n)) = if ltb 0 n then one_row else []
within _ = []

abbrev db : Db
db = record {
  count = λ sql ps. answered 1;
  fetch = λ sql ps. answered (within (param_at ps (length ps - 1)));
  hash_at = λ n. answered none;
  fromisoformat = λ s. none;
}

limit_at : (ps : List Param) (l o : Param) → param_at (ps ++ (l ∷ o ∷ [])) (length ps + 1) ≡ some l
limit_at [] l o = refl
limit_at (p ∷ ps) l o = ground (arith, limit_at ps l o)

limit_index : (ps : List Param) (l o : Param) → length (ps ++ (l ∷ o ∷ [])) - 1 ≡ length ps + 1
limit_index ps l o = omega (arith, length-append ps (l ∷ o ∷ []))

length-within : (n : ℕ) → length (within (some (number n))) ≤ n
length-within n = ground arith

within_answered :
    (a b : List StoredRow) (n : ℕ) → answered a ≡ answered b → length a ≤ n → length b ≤ n
within_answered a b n e h = ground (arith, e, h)

db-LimitHonoured : LimitHonoured db
db-LimitHonoured conditions ps limit offset rows e =
    let l = number limit in
    let o = number offset in
    within_answered (within (param_at (ps ++ (l ∷ o ∷ [])) (length (ps ++ (l ∷ o ∷ [])) - 1))) rows
      limit e (rw (limit_index ps l o, limit_at ps l o) (length-within limit))

abbrev page : AuditPage
page = record { total = 1; rows = one_row; verdict = fail 1 }

query_audit_log-page_example :
    (length page.rows ≤ 500)
    × (db.count (count_query (collect_filters filters)) (collect_filters filters).params
        ≡ answered page.total)
    × (db.fetch (page_query (collect_filters filters)) (
          (collect_filters filters).params
          ++ (number (clamped_limit (pos 1000)) ∷ number (clamped_offset (pos 0)) ∷ []))
        ≡ answered page.rows)
    × (verify_rows allowed_env db.hash_at page.rows ≡ ok page.verdict)
unfolding query_audit_log expected_hash row_hash_of hash_payload dumps isoformat
query_audit_log-page_example =
    query_audit_log-page allowed_env db filters (pos 1000) (pos 0) [] page db-LimitHonoured refl
