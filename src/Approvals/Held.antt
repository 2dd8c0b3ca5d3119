-- ===== src/Approvals/Held.antt =====
-- From the call that is held to the call that a decision resumes.
use mcp_control_plane.Prelude.{String, ◌≡◌, ◌∙◌, ◌+◌, ◌*◌, ◌≤◌, some, arith, ◌∷◌, eq_iff}
use mcp_control_plane.Value.{Fields}
use mcp_control_plane.World.{Env, Trace, ok, read_key}
use mcp_control_plane.Clock.{second}
use mcp_control_plane.Approvals.{
  Approval, asdict, approval_key, create_pending_approval, decide_approval, decided,
  pending_approval,
}
use mcp_control_plane.Approvals.Lifecycle.{decide_approval-Resolves}
use mcp_control_plane.Approvals.Store.{last_set, KvFaithful, Resolves-before}

module _ (env : Env) (agent_id role tool_name : String) (arguments : Fields) (reason : String)
    (tr : Trace) where
  created :
      (a : Approval)
      → (create_pending_approval env agent_id role tool_name arguments reason tr).0 ≡ ok a
      → (a ≡ pending_approval env agent_id role tool_name arguments reason (env.now tr) a.id)
        × (last_set
              (create_pending_approval env agent_id role tool_name arguments reason tr).1
              (approval_key a.id)
            ≡ some (asdict a))
  unfolding create_pending_approval
  created a h = ground (arith, eq_iff (approval_key a.id) (approval_key a.id))

  -- Where a call was held, nothing else wrote the approval's key since, a GET that finds a value finds that
  -- of the newest SET, and a decision then takes the approval up: it is the call that was held, of the same
  -- agent, role, tool, arguments and reason, and the decision is made within 15 minutes of the hold.
  pub decide-create :
      (held a : Approval) (decision decided_by : String) (later : Trace)
      → KvFaithful env
      → (create_pending_approval env agent_id role tool_name arguments reason tr).0 ≡ ok held
      → last_set later (approval_key held.id)
        ≡ last_set
            (create_pending_approval env agent_id role tool_name arguments reason tr).1
            (approval_key held.id)
      → (decide_approval env held.id decision decided_by later).0 ≡ ok (some a, decided)
      → (a.id ≡ held.id)
        × (a.agent_id ≡ agent_id)
        × (a.role ≡ role)
        × (a.tool_name ≡ tool_name)
        × (a.arguments ≡ arguments)
        × (a.reason ≡ reason)
        × (a.requested_at ≡ env.now tr)
        × (env.now (read_key (approval_key held.id) ∷ later) ≤ env.now tr + 900 * second)
  unfolding pending_approval
  decide-create held a decision decided_by later f c untouched h =
      let (is_new, set) = created held c in
      let r = decide_approval-Resolves env held.id decision decided_by later a h in
      let same =
        Resolves-before env held.id decision decided_by later held a f (untouched ∙ set) r in
      ground (arith, is_new, same, r.result, r.in_time)
