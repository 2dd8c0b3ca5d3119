-- ===== src/Tests/Gateway.antt =====
-- The handler of POST /mcp on concrete requests.
use mcp_control_plane.Prelude.{◌≡◌, refl, String, List, [], ◌∷◌, ℕ}
use mcp_control_plane.World.{Trace, ran_tool, inserted_row, Result, ok, raise}
use mcp_control_plane.Http.{json, Response}
use mcp_control_plane.Gateway.{mcp}
use mcp_control_plane.Tests.Fixtures.{allowed_env, held_env, agent01, in_prod, call_of}

-- The labels of the audit rows and the tools run, newest first.
events : Trace → List String
events [] = []
events (ran_tool name arguments ∷ tr) = name ∷ events tr
events (inserted_row row ∷ tr) = row.result_status ∷ events tr
events (_ ∷ tr) = events tr

status_of : Result Response → ℕ
status_of (ok r) = r.status
status_of (raise e) = 500

mcp_allowed :
    events (mcp allowed_env agent01 (json (call_of "list_pods" in_prod)) []).1
    ≡ "allowed" ∷ "list_pods" ∷ []
unfolding mcp events
mcp_allowed = refl

mcp_held :
    events (mcp held_env agent01 (json (call_of "exec_into_pod" in_prod)) []).1
    ≡ "pending_approval" ∷ []
unfolding mcp events
mcp_held = refl
