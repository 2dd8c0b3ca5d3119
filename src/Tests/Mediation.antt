-- ===== src/Tests/Mediation.antt =====
-- The mediation theorems at concrete requests.
use mcp_control_plane.Prelude.{
  arith, ◌≡◌, refl, some, none, [], ◌∷◌, true, false, ◌⊎◌, ◌&&◌, contains,
}
use mcp_control_plane.Value.{null, str}
use mcp_control_plane.World.{ok}
use mcp_control_plane.Http.{json, Response, json_response, rpc_result}
use mcp_control_plane.Policy.{PolicyDecision, evaluate_policy}
use mcp_control_plane.Gateway.{after_lookup, enforce, mcp}
use mcp_control_plane.Auth.{agent_of, api_keys, unauthorised}
use mcp_control_plane.Interceptor.{Agent, infer_environment}
use mcp_control_plane.App.{serve, post_mcp}
use mcp_control_plane.RateLimit.{RateLimitResult, with_headers, limit_key}
use mcp_control_plane.RateLimit.Window.{zstate}
use mcp_control_plane.Mediation.JsonRpc.{request_id}
use mcp_control_plane.Mediation.Conforming.{IsReply, serve-IsReply}
use mcp_control_plane.Traces.Views.{runs}
use mcp_control_plane.Mediation.Policy.{grants, holds, policy_input, evaluate_policy-grants}
use mcp_control_plane.Mediation.Gate.{run_if, after_lookup-runs}
use mcp_control_plane.Mediation.Serving.{Serving}
use mcp_control_plane.Mediation.Complete.{Gated, mcp-Gated}
use mcp_control_plane.Mediation.Served.{serve-Gated}
use mcp_control_plane.Mediation.Accounted.{Accounted, mcp-Accounted}
use mcp_control_plane.Mediation.Audited.{entries, entry_of, enforce-entries}
use mcp_control_plane.Tests.Fixtures.{
  empty_site, newest_hash, allowed_env, agent01, in_prod, call_of, context, pods,
}

mcp-Gated_example :
    Gated allowed_env agent01 [] (mcp allowed_env agent01 (json (call_of "list_pods" in_prod)) []).1
mcp-Gated_example = mcp-Gated allowed_env agent01 (json (call_of "list_pods" in_prod)) []

serve-Gated_example :
    let served =
      serve allowed_env empty_site api_keys
        (record {
          api_key = some "test_key";
          route = post_mcp (json (call_of "list_pods" in_prod));
        })
        [] in
    ((agent_of api_keys (some "test_key") ≡ none) × (served ≡ (ok unauthorised, [])))
    ⊎ ((agent : Agent) × (agent_of api_keys (some "test_key") ≡ some agent)
        × Gated allowed_env agent [] served.1)
serve-Gated_example =
    serve-Gated allowed_env empty_site api_keys (json (call_of "list_pods" in_prod))
      (some "test_key") []

answer_of_call : Response
answer_of_call = json_response 200 (rpc_result (str "1") pods)

mcp-Accounted_example :
    Accounted allowed_env agent01 []
      (mcp allowed_env agent01 (json (call_of "list_pods" in_prod)) []).1
unfolding answer_of_call mcp
mcp-Accounted_example =
    mcp-Accounted allowed_env agent01 (json (call_of "list_pods" in_prod)) [] answer_of_call refl

after_lookup-runs_example :
    runs (after_lookup allowed_env null agent01 context (some "list_pods") []).1
    ≡ run_if
        (contains agent01.allowed_tools "list_pods"
          && grants (allowed_env.opa [] (policy_input context "prod")))
        "list_pods"
        in_prod
        []
unfolding infer_environment
after_lookup-runs_example =
    after_lookup-runs allowed_env null agent01 context "list_pods" "prod" [] refl

allowing : PolicyDecision
allowing = record { allow = true; require_approval = false; reason = "" }

enforce-entries_example :
    entries (enforce allowed_env (str "1") context "list_pods" allowing []).1
    ≡ entry_of context "list_pods" "allowed" ∷ []
unfolding answer_of_call allowing enforce
enforce-entries_example =
    enforce-entries allowed_env (str "1") context "list_pods" allowing [] answer_of_call refl

evaluate_policy-grants_example :
    (true ≡ grants (allowed_env.opa [] (policy_input context "prod")))
    × (false ≡ holds (allowed_env.opa [] (policy_input context "prod")))
unfolding infer_environment allowing evaluate_policy
evaluate_policy-grants_example =
    evaluate_policy-grants allowed_env context "prod" []
      (record { allow = true; require_approval = false; reason = "allowed by OPA policy" }) refl
      refl

allowed_env-Serving : Serving allowed_env
allowed_env-Serving = record {
  services = record {
    inserts = λ tr row. refl;
    hashes = λ tr. (newest_hash tr, refl);
    sets = λ tr key v e. refl;
    policies = λ tr input. refl;
    notifies = λ tr message. refl;
  };
  types = λ tr name arguments t m e. absurd (ground arith);
}

abbrev room_left : RateLimitResult
room_left = record {
  allowed = true;
  limit = 60;
  remaining = 59;
  reset = 1700000060;
  retry_after = none;
}

served_reply : Response
unfolding with_headers
served_reply = with_headers room_left (json_response 200 (rpc_result (str "1") pods))

serve-IsReply_example : IsReply (request_id (json (call_of "list_pods" in_prod))) served_reply
unfolding served_reply serve limit_key zstate
serve-IsReply_example =
    serve-IsReply allowed_env empty_site api_keys (json (call_of "list_pods" in_prod))
      (some "test_key") [] served_reply refl
