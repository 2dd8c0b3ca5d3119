-- ===== src/Tests/Hub.antt =====
-- A run of the hub with two agents, and its theorem there.
use mcp_control_plane.Prelude.{◌≡◌, refl, List, [], ◌∷◌}
use mcp_control_plane.Value.{str}
use mcp_control_plane.World.{ok}
use mcp_control_plane.Sse.Hub.{
  Hub, empty_hub, HubStep, opens, closes, publishes, sends, Messages, approval_result, heartbeat,
  run_hub,
}
use mcp_control_plane.Sse.Spec.{Served, promised, no_connections, opened, closed, announced, served}
use mcp_control_plane.Sse.Refine.{Represents}
use mcp_control_plane.Sse.Runs.{run_hub-refines}

-- Two connections of one agent and one of another; one is closed before the second event.
abbrev steps : List HubStep
steps =
    opens "ann"
    ∷ opens "bob"
    ∷ opens "ann"
    ∷ publishes "ann" (str "first")
    ∷ sends 2
    ∷ closes "ann" 2
    ∷ publishes "ann" (str "second")
    ∷ sends 0
    ∷ sends 1
    ∷ sends 0
    ∷ sends 0
    ∷ []

abbrev messages : Messages
messages =
    (2, approval_result (str "first"))
    ∷ (0, approval_result (str "first"))
    ∷ (1, heartbeat)
    ∷ (0, approval_result (str "second"))
    ∷ (0, heartbeat)
    ∷ []

abbrev left : Served
left = record {
  connections = served 0 (
      served 0 (
        served 1 (
          served 0 (
            announced "ann" (str "second") (
              closed 2 (
                served 2 (
                  announced "ann" (str "first")
                    (opened 2 "ann" (opened 1 "bob" (opened 0 "ann" no_connections))))))))));
  opened_so_far = 3;
}

run_hub-refines_example :
    (hub : Hub) × (run_hub steps empty_hub ≡ ok (hub, messages)) × Represents hub left.connections
unfolding promised
run_hub-refines_example = run_hub-refines steps left messages refl
