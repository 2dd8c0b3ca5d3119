-- ===== src/Tests/Site.antt =====
-- The whole app on a run of three requests.
use mcp_control_plane.Prelude.{refl, ◌≡◌, none, some, [], ◌∷◌, ◌⊎◌, true, false}
use mcp_control_plane.World.{ok}
use mcp_control_plane.Interceptor.{Agent}
use mcp_control_plane.Http.{json}
use mcp_control_plane.Auth.{agent_of, api_keys, unauthorised}
use mcp_control_plane.App.{Request, post_mcp, get_sse, get_live, handler, serve, run_app, path_of}
use mcp_control_plane.App.Access.{of_agents, served, serve-Access}
use mcp_control_plane.App.Logged.{lines_of, run_plain, run_app-lines}
use mcp_control_plane.RateLimit.{rate_limit}
use mcp_control_plane.Telemetry.Counts.{Counted, serve-Counted}
use mcp_control_plane.Tests.Fixtures.{empty_site, allowed_env, in_prod, call_of}

abbrev calling : Request
calling = record {
  api_key = some "test_key";
  route = post_mcp (json (call_of "list_pods" in_prod));
}

abbrev probing : Request
probing = record { api_key = none; route = get_live }

abbrev strange : Request
strange = record { api_key = some "guess"; route = get_sse }

run_app-lines_example :
    let (answers, after) =
      run_plain (serve allowed_env empty_site api_keys) (calling ∷ strange ∷ probing ∷ []) [] in
    run_app allowed_env empty_site api_keys (calling ∷ strange ∷ probing ∷ []) ([], [])
    ≡ (answers, (after, lines_of (calling ∷ strange ∷ probing ∷ []) answers []))
run_app-lines_example =
    run_app-lines allowed_env empty_site api_keys (calling ∷ strange ∷ probing ∷ []) [] []

serve-Access_example :
    ((of_agents get_sse ≡ false)
      × (served allowed_env empty_site api_keys (some "test_key") get_sse []
          ≡ handler allowed_env empty_site get_sse none []))
    ⊎ ((of_agents get_sse ≡ true)
        × (((agent_of api_keys (some "test_key") ≡ none)
              × (served allowed_env empty_site api_keys (some "test_key") get_sse []
                  ≡ (ok unauthorised, [])))
            ⊎ ((agent : Agent) × (agent_of api_keys (some "test_key") ≡ some agent)
                × (served allowed_env empty_site api_keys (some "test_key") get_sse []
                    ≡ rate_limit allowed_env
                        (path_of get_sse)
                        agent
                        (handler allowed_env empty_site get_sse (some agent))
                        []))))
serve-Access_example = serve-Access allowed_env empty_site api_keys (some "test_key") get_sse []

serve-Counted_example : Counted (serve allowed_env empty_site api_keys calling []).1
serve-Counted_example = serve-Counted allowed_env empty_site api_keys calling [] refl
