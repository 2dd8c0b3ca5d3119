-- ===== src/Integrity/Chain.antt =====
-- The chain of audit_log: what the newest-first rows of a trace satisfy, and that every request keeps it.
use mcp_control_plane.Prelude.{
  String, ◌≡◌, refl, Option, none, some, arith, List, [], inl, inr, ◌∷◌,
}
use mcp_control_plane.World.{
  AuditRow, Env, Trace, answered, Reply-cases, fetch_last_hash, insert_row, read_clock, ◌>>=◌, ◌>>◌,
}
use mcp_control_plane.Audit.{AuditEvent, prev_or_genesis, row_of, record_tool_call, count_tool_call}
use mcp_control_plane.Execution.{AuditCall, audit, audit_event}
use mcp_control_plane.Traces.Views.{rows}
use mcp_control_plane.Traces.Stable.{Stable, bind_after}
use mcp_control_plane.Integrity.{expected_hash}

abbrev pub newest : List AuditRow → Option String
newest [] = none
newest (r ∷ rs) = some r.row_hash

-- Each row, newest first, has the hash that its fields and the row before it give.
abbrev pub IsChained : Env → List AuditRow → Type 0
IsChained env [] = Unit
IsChained env (r ∷ rs) =
    (r.row_hash ≡ expected_hash env (prev_or_genesis (newest rs)) r) × IsChained env rs

-- Postgres answers with the hash of the newest row that was inserted.
abbrev pub LastHashFaithful : Env → Type 0
LastHashFaithful env =
    (tr : Trace) (o : Option String) → env.last_hash tr ≡ answered o → o ≡ newest (rows tr)

abbrev pub Chained : Env → Trace → Type 0
Chained env tr = IsChained env (rows tr)

insert-Chained :
    (env : Env) (row : AuditRow) (tr : Trace)
    → row.row_hash ≡ expected_hash env (prev_or_genesis (newest (rows tr))) row
    → Chained env tr
    → Chained env (insert_row env row tr).1
unfolding insert_row
insert-Chained env row tr h p = ground arith

module _ (env : Env) (lf : LastHashFaithful env) where
  count-Chained : (e : AuditEvent) → Stable (Chained env) (count_tool_call e)
  unfolding count_tool_call
  count-Chained e = record { at = λ tr p. ground (arith, p) }

  fetched :
      (row : Option String → AuditRow) (event : AuditEvent)
      → ((o : Option String) → (row o).row_hash ≡ expected_hash env (prev_or_genesis o) (row o))
      → Stable
          (Chained env)
          (fetch_last_hash env >>= λ o. insert_row env (row o) >> count_tool_call event)
  unfolding fetch_last_hash
  fetched row event h = record {
    at = λ tr p. elim (Reply-cases (env.last_hash tr)) [
      | inl (o, e) ↦
          rw (fetch_last_hash, e)
            (bind_after (insert_row env (row o)) (λ u. count_tool_call event) tr
              (insert-Chained env (row o) tr (rw (← lf tr o e) (h o)) p) (λ u. count-Chained event))
      | inr e ↦ rw (fetch_last_hash, e) p
    ];
  }

  pub audit-Chained : (c : AuditCall) → Stable (Chained env) (audit env c)
  unfolding audit record_tool_call row_of expected_hash
  audit-Chained c = record {
    at = λ tr p.
        (fetched
            (λ o.
              row_of env (audit_event c (env.elapsed_ms tr) (env.now tr))
                (env.new_uuid (read_clock ∷ tr)) (prev_or_genesis o)
                (env.trace_id (read_clock ∷ tr)))
            (audit_event c (env.elapsed_ms tr) (env.now tr)) (λ o. refl)).at
          (read_clock ∷ tr) p;
  }
