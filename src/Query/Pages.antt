-- ===== src/Query/Pages.antt =====
-- What a caller's values can change of the queries, and how long a page is.
use mcp_control_plane.Prelude.{
  ℕ, ◌≤◌, String, ◌≡◌, refl, Bool, true, false, Option, none, some, arith, List, [], ◌∷◌, ◌++◌,
  length, length-append, ◌==◌, not, concat, ◌+◌, inl, inr,
}
use mcp_control_plane.Value.{ℤ, pos, negsuc}
use mcp_control_plane.World.{Env, Trace, ok, answered, Reply-cases, Result-cases}
use mcp_control_plane.Json.{decimal}
use mcp_control_plane.Integrity.{StoredRow, verify_rows}
use mcp_control_plane.Query.{
  Param, text, time, number, Clause, AuditFilters, add_condition, add_text, add_time,
  collect_filters, Db, query_audit_log, clamped_limit, clamped_offset, count_query, page_query,
  where_clause, AuditPage,
}

abbrev pub is_given : Option String → Bool
is_given none = false
is_given (some s) = not (s == "")

abbrev pub is_some : Option ℤ → Bool
is_some none = false
is_some (some t) = true

-- The same filters are given.
abbrev pub SameShape : AuditFilters → AuditFilters → Type 0
SameShape f g =
    (is_given f.agent_id ≡ is_given g.agent_id)
    × (is_given f.tool ≡ is_given g.tool)
    × (is_given f.result_status ≡ is_given g.result_status)
    × (is_some f.since ≡ is_some g.since)
    × (is_some f.until ≡ is_some g.until)

-- The same conditions, and as many parameters.
abbrev Alike : Clause → Clause → Type 0
Alike c d = (c.conditions ≡ d.conditions) × (length c.params ≡ length d.params)

add_condition-Alike :
    (column operator : String) (v w : Param) (c d : Clause)
    → Alike c d
    → Alike (add_condition column operator v c) (add_condition column operator w d)
unfolding add_condition
add_condition-Alike column operator v w c d (e, l) = (
  rw (e, l) refl,
  omega (arith, l, length-append c.params (v ∷ []), length-append d.params (w ∷ [])),
)

add_text-Alike :
    (column : String) (o p : Option String) (c d : Clause)
    → is_given o ≡ is_given p
    → Alike c d
    → Alike (add_text column o c) (add_text column p d)
unfolding add_text
add_text-Alike column none none c d s a = a
add_text-Alike column none (some t) c d s a = ground (arith, a)
add_text-Alike column (some s) none c d h a = ground (arith, a)
add_text-Alike column (some s) (some t) c d h a =
    ground (arith, a, add_condition-Alike column "=" (text s) (text t) c d a)

add_time-Alike :
    (operator : String) (o p : Option ℤ) (c d : Clause)
    → is_some o ≡ is_some p
    → Alike c d
    → Alike (add_time operator o c) (add_time operator p d)
unfolding add_time
add_time-Alike operator none none c d s a = a
add_time-Alike operator none (some t) c d s a = absurd (ground arith)
add_time-Alike operator (some s) none c d h a = absurd (ground arith)
add_time-Alike operator (some s) (some t) c d h a =
    add_condition-Alike "created_at" operator (time s) (time t) c d a

collect_filters-Alike :
    (f g : AuditFilters) → SameShape f g → Alike (collect_filters f) (collect_filters g)
unfolding collect_filters
collect_filters-Alike f g (a, t, s, i, u) = add_time-Alike "<=" f.until g.until _ _ u (
    add_time-Alike ">=" f.since g.since _ _ i (
      add_text-Alike "result_status" f.result_status g.result_status _ _ s (
        add_text-Alike "tool_name" f.tool g.tool _ _ t
          (add_text-Alike "agent_id" f.agent_id g.agent_id _ _ a (refl, refl)))))

-- The texts of both queries depend on which filters are given and on nothing else: the values that a
-- caller sends are in no text that Postgres parses.
pub queries-SameShape :
    (f g : AuditFilters)
    → SameShape f g
    → (count_query (collect_filters f) ≡ count_query (collect_filters g))
      × (page_query (collect_filters f) ≡ page_query (collect_filters g))
unfolding count_query page_query
queries-SameShape f g s = let (e, l) = collect_filters-Alike f g s in (rw e refl, rw (e, l) refl)

-- A SELECT whose LIMIT and OFFSET are the placeholders of the last two parameters.
abbrev pub limited_select : String → List Param → String
limited_select conditions ps = concat (
    "SELECT * FROM audit_log "
    ∷ conditions
    ∷ " ORDER BY seq DESC LIMIT $"
    ∷ decimal (length ps + 1)
    ∷ " OFFSET $"
    ∷ decimal (length ps + 2)
    ∷ [])

-- To such a SELECT Postgres sends no more rows than the parameter of the LIMIT.
abbrev pub LimitHonoured : Db → Type 0
LimitHonoured db =
    (conditions : String) (ps : List Param) (limit offset : ℕ) (rows : List StoredRow)
    → db.fetch (limited_select conditions ps) (ps ++ (number limit ∷ number offset ∷ []))
      ≡ answered rows
    → length rows ≤ limit

clamped_limit-bounds : (l : ℤ) → (1 ≤ clamped_limit l) × (clamped_limit l ≤ 500)
unfolding clamped_limit
clamped_limit-bounds (pos n) = (ground arith, ground arith)
clamped_limit-bounds (negsuc n) = (omega arith, omega arith)

module _ (env : Env) (db : Db) (f : AuditFilters) (limit offset : ℤ) where
  fetched_le :
      (rows : List StoredRow)
      → LimitHonoured db
      → db.fetch (page_query (collect_filters f)) (
          (collect_filters f).params
          ++ (number (clamped_limit limit) ∷ number (clamped_offset offset) ∷ []))
        ≡ answered rows
      → length rows ≤ 500
  unfolding page_query
  fetched_le rows h e =
      let le =
        h (where_clause (collect_filters f).conditions) (collect_filters f).params
          (clamped_limit limit) (clamped_offset offset) rows e in
      omega (arith, le, (clamped_limit-bounds limit).1)

  -- Whenever the audit query answers: its page is at most 500 rows, whatever limit was asked for, where Postgres
  -- honours the LIMIT of a SELECT that has one; and all three SELECTs were answered, with the total, the
  -- page, and the hashes that the verdict rests on. A SELECT that fails ends it with an exception.
  pub query_audit_log-page :
      (tr : Trace) (page : AuditPage)
      → LimitHonoured db
      → (query_audit_log env db f limit offset tr).0 ≡ ok page
      → (length page.rows ≤ 500)
        × (db.count (count_query (collect_filters f)) (collect_filters f).params
            ≡ answered page.total)
        × (db.fetch (page_query (collect_filters f)) (
              (collect_filters f).params
              ++ (number (clamped_limit limit) ∷ number (clamped_offset offset) ∷ []))
            ≡ answered page.rows)
        × (verify_rows env db.hash_at page.rows ≡ ok page.verdict)
  unfolding query_audit_log
  query_audit_log-page tr page h a =
      let clause = collect_filters f in
      let ps =
        clause.params ++ (number (clamped_limit limit) ∷ number (clamped_offset offset) ∷ []) in
      elim (Reply-cases (db.count (count_query clause) clause.params)) [
        | inr c ↦ absurd (ground (arith, c, a))
        | inl (total, c) ↦ elim (Reply-cases (db.fetch (page_query clause) ps)) [
          | inr e ↦ absurd (ground (arith, c, e, a))
          | inl (rows, e) ↦ elim (Result-cases (verify_rows env db.hash_at rows)) [
            | inr (x, v) ↦ absurd (ground (arith, c, e, v, a))
            | inl (verdict, v) ↦
                let le = fetched_le rows h e in
                (
                  ground (arith, c, e, v, a, le),
                  ground (arith, c, e, v, a),
                  ground (arith, c, e, v, a),
                  ground (arith, c, e, v, a),
                )
          ]
        ]
      ]
