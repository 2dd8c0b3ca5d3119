-- ===== src/Approvals/Lifecycle.antt =====
-- When `decide_approval` decides: once, in time, and for a pending approval alone.
use mcp_control_plane.Prelude.{
  Option, none, inl, inr, ℕ, String, ◌≡◌, ◌≤◌, some, arith, ◌∷◌, eq_iff,
}
use mcp_control_plane.Value.{Value, minus}
use mcp_control_plane.Telemetry.{by_tool, elapsed_between}
use mcp_control_plane.World.{
  measured, Result-cases, Reply-cases, Env, Trace, answered, read_key, read_clock, set_key, keepttl,
  ok,
}
use mcp_control_plane.Approvals.{
  Approval, of_dict, asdict, approval_key, decided_status, decide_approval, decided,
}

-- The record that a decision turns a pending approval into.
abbrev pub resolved : Approval → String → String → ℕ → Approval
resolved a decision decided_by now = record a {
  status = decided_status decision;
  decided_by = some decided_by;
  decided_at = some now;
}

-- the trace behind the metrics of a decision
abbrev pub counted_decision : Approval → ℕ → Trace → Trace
counted_decision a now tr =
    measured "approval_decision_duration_ms" (elapsed_between now a.requested_at)
      (by_tool a.tool_name)
    ∷ measured "approvals_pending" (minus 1) (by_tool a.tool_name)
    ∷ tr

module _ (env : Env) (approval_id decision decided_by : String) (tr : Trace) where
  abbrev pub key : String
  key = approval_key approval_id

  -- What Redis held, and when it was read, at a decision that took effect.
  pub record Resolves (a : Approval) : Type 0 where
    pub raw : Value
    pub before : Approval
    pub stored : env.kv_get tr key ≡ answered (some raw)
    pub read : of_dict raw ≡ ok before
    pub pending : before.status ≡ "pending"
    pub in_time : env.now (read_key key ∷ tr) ≤ before.expires_at
    pub result : a ≡ resolved before decision decided_by (env.now (read_clock ∷ read_key key ∷ tr))
    pub written :
        (decide_approval env approval_id decision decided_by tr).1
        ≡ counted_decision before
            (env.now (read_clock ∷ read_key key ∷ tr))
            (set_key key (asdict a) keepttl ∷ read_clock ∷ read_clock ∷ read_key key ∷ tr)

  decide_stored :
      (raw : Value) (before a : Approval)
      → env.kv_get tr key ≡ answered (some raw)
      → of_dict raw ≡ ok before
      → (decide_approval env approval_id decision decided_by tr).0 ≡ ok (some a, decided)
      → Resolves a
  unfolding decide_approval
  decide_stored raw before a s r h = record {
    raw = raw;
    before = before;
    stored = s;
    read = r;
    pending = ground (arith, eq_iff before.status "pending");
    in_time = ground (arith, eq_iff before.status "pending");
    result = ground (arith, eq_iff before.status "pending");
    written = ground (arith, eq_iff before.status "pending");
  }

  decide_read :
      (o : Option Value) (a : Approval)
      → env.kv_get tr key ≡ answered o
      → (decide_approval env approval_id decision decided_by tr).0 ≡ ok (some a, decided)
      → Resolves a
  unfolding decide_approval
  decide_read none a s h = absurd (ground arith)
  decide_read (some raw) a s h = elim (Result-cases (of_dict raw)) [
    | inl (before, r) ↦ decide_stored raw before a s r h
    | inr (e, r) ↦ absurd (ground arith)
  ]

  -- A call of `decide_approval` that decides has read a pending approval, not later than its expiry, and
  -- answers with that approval, resolved by the decision; it writes it back under the same key, with the
  -- time to live kept, and then counts one approval less and records how long the decision took.
  pub decide_approval-Resolves :
      (a : Approval)
      → (decide_approval env approval_id decision decided_by tr).0 ≡ ok (some a, decided)
      → Resolves a
  unfolding decide_approval
  decide_approval-Resolves a h = elim (Reply-cases (env.kv_get tr key)) [
    | inl (o, s) ↦ decide_read o a s h
    | inr s ↦ absurd (ground arith)
  ]
