-- ===== src/Tests/Tools.antt =====
-- Runs of the executors on a concrete cluster, and their theorems there.
use Prim.Native.String
use mcp_control_plane.Prelude.{
  ℕ, ◌*◌, ◌≤◌, String, ◌≡◌, ◌≢◌, ◌↔◌, refl, Bool, true, false, none, some, [], ◌∷◌, ◌&&◌,
  if◌then◌else◌,
}
use mcp_control_plane.Value.{bool, int, str, pos, Fields, list_of, dict}
use mcp_control_plane.World.{Env, ok, read_clock}
use mcp_control_plane.Auth.{api_keys}
use mcp_control_plane.App.{post_mcp, is_rendered, serve}
use mcp_control_plane.Mediation.Answered.{Renderable}
use mcp_control_plane.Http.{json, Response, no_stream, ndjson_text, agent_events}
use mcp_control_plane.Clock.{second}
use mcp_control_plane.Mediation.Serving.{Services}
use mcp_control_plane.Traces.Added.{Added}
use mcp_control_plane.Tools.Text.{text_length, strip, lstrip, rstrip, is_blank}
use mcp_control_plane.Tools.KubeClient.{load_config, k8s_run, run_result, call_k8s}
use mcp_control_plane.Tools.Backend.{
  Backends, done, api_exception, retries_timed_out, found, timed_out, finite, utc_now,
}
use mcp_control_plane.Tools.Config.{get_executor_timeout}
use mcp_control_plane.Tools.Backend.{DeploymentCondition}
use mcp_control_plane.Tools.Pods.{require_reason, reason_of, exec_result, exec_into_pod}
use mcp_control_plane.Tools.Deployments.{is_replicas, scale_deployment, restart_deployment}
use mcp_control_plane.Tools.Registry.{call_executor, tool_reply}
use mcp_control_plane.Tools.Statuses.{executors_answered}
use mcp_control_plane.Tools.Footprint.{Permitted, entry, has_reason}
use mcp_control_plane.Tools.HttpPermitted.{call_executor-Permitted}
use mcp_control_plane.Tools.Bounded.{get_executor_timeout-Bounded, exec_result-output}
use mcp_control_plane.Tools.Writes.{
  writes-calls, scale_call, exec_call, restart_call, wants_scale, wants_exec, wants_deployment,
}
use mcp_control_plane.Tools.Guards.{k8s_calls, configured}
use mcp_control_plane.Tests.Fixtures.{allowed_env, call_of, in_prod, empty_site, newest_hash}

-- A cluster that does what it is told, has no pod and no deployment, and no HTTP service.
abbrev cluster : Backends
cluster = record {
  now = λ tr. 1700000000000000;
  in_cluster = λ tr. true;
  kubeconfig_error = λ tr. none;
  pod_log = λ tr kwargs. done "ready";
  pod_list = λ tr kwargs. done [];
  deployment = λ tr kwargs. api_exception 404 "Not Found";
  patch = λ tr kwargs. done tt;
  patch_scale = λ tr kwargs. done tt;
  pod_exec = λ tr kwargs. done "ready";
  apply = λ tr kwargs. retries_timed_out;
  kind_of = λ tr api_version kind. found true;
  http = λ tr verb url params headers. timed_out;
  executor_timeout_seconds = some "90";
  float_of = λ raw. some (finite (pos (90 * second)));
  seconds_text = λ s. "30.0";
  tfc_url = "https://tfc";
  tfc_org = some "org";
  tfc_token = some "token";
  jenkins_url = "https://jenkins";
  prometheus_url = "https://prometheus";
  pagerduty_url = "https://pagerduty";
  pagerduty_api_token = some "token";
  jira_url = "https://jira";
  jira_user = some "user";
  jira_api_token = some "token";
  text_of = λ v. "a value";
  same_value = λ v w. false;
  sum_of = λ v w. none;
  other_iso = λ v. none;
  exception_text = λ e. "an exception";
}

abbrev to_three : Fields
to_three = dict (
    ("namespace", str "web")
    ∷ ("deployment", str "front")
    ∷ ("replicas", int (pos 3))
    ∷ ("reason", str "  more load on the site ")
    ∷ [])

abbrev listing : Fields
listing = dict (
    ("namespace", str "web")
    ∷ ("pod_name", str "front-1")
    ∷ ("command", list_of (str "ls" ∷ []))
    ∷ ("reason", str "look for the crash")
    ∷ [])

abbrev backed_env : Env
backed_env = record allowed_env { tool = tool_reply cluster }

-- A run of the executor makes that one call.
scaled : k8s_calls (scale_deployment cluster to_three []).1 ≡ scale_call cluster to_three ∷ []
unfolding scale_deployment is_replicas require_reason reason_of strip lstrip rstrip is_blank
    text_length load_config k8s_run run_result call_k8s utc_now
scaled = refl

writes-calls_example :
    (k8s_calls (scale_deployment cluster to_three []).1 ≡ (
      if wants_scale cluster to_three && (has_reason to_three && configured cluster [])
      then scale_call cluster to_three ∷ k8s_calls []
      else k8s_calls []))
    × (k8s_calls (exec_into_pod cluster to_three []).1 ≡ (
        if wants_exec cluster to_three && (has_reason to_three && configured cluster [])
        then exec_call cluster to_three ∷ k8s_calls []
        else k8s_calls []))
    × (k8s_calls (restart_deployment cluster to_three []).1 ≡ (
        if wants_deployment cluster to_three
          && (has_reason to_three && configured cluster (read_clock ∷ []))
        then restart_call cluster to_three (cluster.now []) ∷ k8s_calls []
        else k8s_calls []))
writes-calls_example = writes-calls cluster to_three []

backed_env-Services : Services backed_env
backed_env-Services = record {
  inserts = λ tr row. refl;
  hashes = λ tr. (newest_hash tr, refl);
  sets = λ tr key v e. refl;
  policies = λ tr input. refl;
  notifies = λ tr message. refl;
}

rendered_anyway : (resp : Response) → is_rendered backed_env resp ≡ true
rendered_anyway resp =
    elim (resp.stream) as (λ s. is_rendered backed_env (record resp { stream = s }) ≡ true) [
      | no_stream ↦ refl
      | ndjson_text text ↦ refl
      | agent_events agent_id ↦ refl
    ]

always_rendered : Renderable backed_env (json (call_of "list_pods" in_prod))
always_rendered agent before resp e = rendered_anyway resp

executors_answered_example :
    (resp : Response) × ((serve backed_env empty_site api_keys
        (record {
          api_key = some "test_key";
          route = post_mcp (json (call_of "list_pods" in_prod));
        })
        []).0
      ≡ ok resp)
executors_answered_example =
    executors_answered backed_env cluster empty_site api_keys (json (call_of "list_pods" in_prod))
      (some "test_key") [] backed_env-Services refl refl always_rendered

call_executor-Permitted_example :
    Added
      (Permitted "scale_deployment" to_three)
      []
      (call_executor cluster "scale_deployment" to_three []).1
call_executor-Permitted_example = call_executor-Permitted cluster "scale_deployment" to_three []

get_executor_timeout-Bounded_example :
    (n : ℕ) × (get_executor_timeout cluster ≡ finite (pos n)) × (second ≤ n) × (n ≤ 30 * second)
get_executor_timeout-Bounded_example = get_executor_timeout-Bounded cluster

exec_result-output_example :
    (kept rest : String) × (cut : Bool) × (entry
        (some (exec_result cluster listing "ready" 0))
        "output"
      ≡ some (str kept))
    × (entry (some (exec_result cluster listing "ready" 0)) "output_truncated" ≡ some (bool cut))
    × (String.◌++◌ kept rest ≡ "ready")
    × (text_length kept ≤ 4000)
    × (cut ≡ true → text_length kept ≡ 4000)
    × ((cut ≡ true) ↔ (rest ≢ ""))
exec_result-output_example = exec_result-output cluster listing "ready" 0

abbrev progressing : DeploymentCondition
progressing = record {
  kind = "Progressing";
  status = "True";
  reason = none;
  message = none;
  last_update_time = some 7;
}
