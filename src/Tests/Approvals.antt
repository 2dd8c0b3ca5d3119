-- ===== src/Tests/Approvals.antt =====
-- The theorems on approvals at concrete inputs: a call is held, and then decided by two callbacks.
use mcp_control_plane.Prelude.{◌+◌, ◌*◌, ◌≤◌, ◌≡◌, refl, [], ◌∷◌, List}
use mcp_control_plane.World.{Trace, read_key, read_clock}
use mcp_control_plane.Clock.{second}
use mcp_control_plane.Approvals.{
  Approval, asdict, of_dict, approval_key, pending_approval, create_pending_approval,
  decide_approval,
}
use mcp_control_plane.Json.{decimal}
use mcp_control_plane.Approvals.Lifecycle.{Resolves, decide_approval-Resolves, resolved}
use mcp_control_plane.Approvals.Store.{KvFaithful}
use mcp_control_plane.Approvals.Once.{Attempt, decisions, decisions-le-one}
use mcp_control_plane.Approvals.Held.{decide-create}
use mcp_control_plane.Tests.Fixtures.{held_env, in_prod}

held_env-KvFaithful : KvFaithful held_env
held_env-KvFaithful = record { newest = λ tr key v e. cc }

abbrev held : Approval
held =
    pending_approval held_env "agent01" "sre1" "scale_deployment" in_prod "wait" 1700000000000000
      "uuid-1"

abbrev after_hold : Trace
after_hold =
    (create_pending_approval held_env "agent01" "sre1" "scale_deployment" in_prod "wait" []).1

abbrev approved : Approval
approved =
    resolved held "approve" "ann"
      (held_env.now (read_clock ∷ read_key (approval_key "uuid-1") ∷ after_hold))

decide_approval-Resolves_example : Resolves held_env "uuid-1" "approve" "ann" after_hold approved
unfolding decide_approval create_pending_approval approval_key decimal of_dict asdict
decide_approval-Resolves_example =
    decide_approval-Resolves held_env "uuid-1" "approve" "ann" after_hold approved refl

attempts : List Attempt
attempts =
    record { others = []; decision = "approve"; decided_by = "ann" }
    ∷ record { others = read_clock ∷ []; decision = "deny"; decided_by = "bob" }
    ∷ []

decisions-le-one_example : decisions held_env "uuid-1" attempts after_hold ≤ 1
unfolding attempts
decisions-le-one_example =
    decisions-le-one held_env "uuid-1" held_env-KvFaithful attempts after_hold (tt, (tt, tt))

-- one of the two does decide
decisions_made : decisions held_env "uuid-1" attempts after_hold ≡ 1
unfolding attempts decisions decide_approval create_pending_approval approval_key decimal of_dict
    asdict
decisions_made = refl

decide-create_example :
    (approved.id ≡ held.id)
    × (approved.agent_id ≡ "agent01")
    × (approved.role ≡ "sre1")
    × (approved.tool_name ≡ "scale_deployment")
    × (approved.arguments ≡ in_prod)
    × (approved.reason ≡ "wait")
    × (approved.requested_at ≡ held_env.now [])
    × (held_env.now (read_key (approval_key held.id) ∷ after_hold) ≤ held_env.now [] + 900 * second)
unfolding decide_approval create_pending_approval approval_key decimal of_dict asdict
decide-create_example =
    decide-create held_env "agent01" "sre1" "scale_deployment" in_prod "wait" [] held approved
      "approve" "ann" after_hold held_env-KvFaithful refl refl refl
