-- ===== src/Tools/Errors.antt =====
-- The error types of the executors: `_ERROR_TYPE_STATUS` has a status for each.
use mcp_control_plane.Prelude.{
  String, Bool, true, false, Option, none, some, List, [], ◌∷◌, arith, contains,
}
use mcp_control_plane.Value.{Value, Fields}
use mcp_control_plane.World.{Exn, executor_error, missing_param, Trace}
use mcp_control_plane.Traces.Raising.{is_plain, Raising, raising_rules, Raising-lift, Raising-throw}
use mcp_control_plane.Tools.Backend.{Backends, K8sReply, utc_now}
use mcp_control_plane.Tools.KubeClient.{load_config, run_result, k8s_run, kind_result, resource_for}
use mcp_control_plane.Tools.HttpClient.{Wanted, send_result, send}
use mcp_control_plane.Tools.Pods.{require_reason, get_pod_logs, list_pods, exec_into_pod}
use mcp_control_plane.Tools.Deployments.{
  get_deployment_status, restart_deployment, scale_deployment,
}
use mcp_control_plane.Tools.Manifest.{
  submit, place, checked_manifest, with_manifest, apply_k8s_manifest,
}
use mcp_control_plane.Tools.Accesses.{Plain, access_rules}

abbrev pub error_types : List String
error_types =
    "validation_error" ∷ "not_found" ∷ "permission_denied" ∷ "executor_timeout" ∷ "upstream_error"
    ∷ []

-- An ExecutorError has one of the five types; a MissingParamError is none of an executor's.
abbrev pub is_known : Exn → Bool
is_known (executor_error t m) = contains error_types t
is_known (missing_param f m) = false
is_known _ = true

pub known-Plain : Plain is_known
known-Plain = record { lets = λ e h. ground arith }

module _ (b : Backends) where
  pub utc_now-Known : Raising is_known (utc_now b)
  unfolding utc_now
  utc_now-Known = record { at = λ tr. ground arith }

  pub load_config-Known : Raising is_known (load_config b)
  unfolding load_config
  load_config-Known = record { at = λ tr. ground arith }

  pub k8s_run-Known {ℓ} :
      {A : Type ℓ} (answer : Trace → Fields → K8sReply A) (method resource : String)
      (kwargs : Fields)
      → Raising is_known (k8s_run b answer method resource kwargs)
  unfolding k8s_run run_result
  k8s_run-Known answer method resource kwargs = record { at = λ tr. ground arith }

  pub resource_for-Known :
      (api_version kind : Value) → Raising is_known (resource_for b api_version kind)
  unfolding resource_for kind_result
  resource_for-Known api_version kind = record { at = λ tr. ground arith }

  pub send-Known :
      (w : Wanted) (verb url : String) (params : Value) (headers : Fields)
      → Raising is_known (send b w verb url params headers)
  unfolding send send_result
  send-Known w verb url params headers = record { at = λ tr. ground arith }

pub ruleset call_rules = (
  raising_rules, Raising-throw, access_rules, known-Plain, utc_now-Known, load_config-Known,
  k8s_run-Known, resource_for-Known, send-Known,
)

pub require_reason-Known : (arguments : Fields) → Raising is_known (require_reason arguments)
unfolding require_reason
require_reason-Known arguments = search call_rules

module _ (b : Backends) (arguments : Fields) where
  pub get_pod_logs-Known : Raising is_known (get_pod_logs b arguments)
  unfolding get_pod_logs
  get_pod_logs-Known = search call_rules

  pub list_pods-Known : Raising is_known (list_pods b arguments)
  unfolding list_pods
  list_pods-Known = search call_rules

  pub exec_into_pod-Known : Raising is_known (exec_into_pod b arguments)
  unfolding exec_into_pod
  exec_into_pod-Known = search (call_rules, require_reason-Known) depth 16

  pub get_deployment_status-Known : Raising is_known (get_deployment_status b arguments)
  unfolding get_deployment_status
  get_deployment_status-Known = search call_rules

  pub restart_deployment-Known : Raising is_known (restart_deployment b arguments)
  unfolding restart_deployment
  restart_deployment-Known = search (call_rules, require_reason-Known) depth 16

  pub scale_deployment-Known : Raising is_known (scale_deployment b arguments)
  unfolding scale_deployment
  scale_deployment-Known = search (call_rules, require_reason-Known) depth 16

  pub submit-Known :
      (manifest metadata : Fields) (api_version kind name : Value)
      → Raising is_known (submit b arguments manifest metadata api_version kind name)
  unfolding submit
  submit-Known manifest metadata api_version kind name = search call_rules

  pub place-Known :
      (manifest metadata : Fields) (api_version kind : Value)
      → Raising is_known (place b arguments manifest metadata api_version kind)
  unfolding place
  place-Known manifest metadata api_version kind = search (call_rules, submit-Known)

  pub checked_manifest-Known :
      (manifest : Fields) → Raising is_known (checked_manifest b arguments manifest)
  unfolding checked_manifest
  checked_manifest-Known manifest = search (call_rules, require_reason-Known, place-Known)

  pub with_manifest-Known : (o : Option Fields) → Raising is_known (with_manifest b arguments o)
  with_manifest-Known none = search call_rules
  with_manifest-Known (some manifest) = checked_manifest-Known manifest

  pub apply_k8s_manifest-Known : Raising is_known (apply_k8s_manifest b arguments)
  unfolding apply_k8s_manifest
  apply_k8s_manifest-Known = search (call_rules, with_manifest-Known)
