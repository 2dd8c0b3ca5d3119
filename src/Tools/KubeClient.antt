-- ===== src/Tools/KubeClient.antt =====
-- app/tools/k8s_client.py: the configuration of the client, `run` and `resource_for`. The three cached
-- constructors of clients do no more than load the configuration; that it is loaded once is the answers'.
use mcp_control_plane.Prelude.{
  String, Bool, none, some, [], ◌∷◌, concat, nat_eq, ◌||◌, if◌then◌else◌,
}
use mcp_control_plane.Value.{Value, Fields, field}
use mcp_control_plane.World.{
  executor_error, other_error, Result, ok, raise, M, lift, ◌>>=◌, ◌>>◌, Trace, called_k8s,
}
use mcp_control_plane.Json.{decimal}
use mcp_control_plane.Tools.Backend.{
  Backends, K8sReply, done, api_exception, retries_timed_out, retries_failed, crash, KindReply,
  found, not_found_kind, ambiguous, kind_crash, shown, discover,
}
use mcp_control_plane.Tools.Config.{timeout_value, get_executor_timeout}

-- `_load_config`
unfoldable pub load_config : Backends → M (Unit {0})
load_config b tr = if b.in_cluster tr then (ok tt, tr) else elim (b.kubeconfig_error tr) [
  | none ↦ (ok tt, tr)
  | some message ↦ (
    raise
        (executor_error "upstream_error" (concat ("no usable kubeconfig found: " ∷ message ∷ []))),
    tr,
  )
]

-- how `run` ends, for the way that the call ends
unfoldable pub run_result {ℓ} : {A : Type ℓ} → String → K8sReply A → Result A
run_result resource (done a) = ok a
run_result resource (api_exception status reason) =
    if nat_eq status 404
    then raise (executor_error "not_found" (concat (resource ∷ " not found" ∷ [])))
    else if nat_eq status 401 || nat_eq status 403
    then raise
        (executor_error "permission_denied" (concat ("not authorized to access " ∷ resource ∷ [])))
    else raise (
        executor_error "upstream_error"
          (concat ("Kubernetes API error (" ∷ decimal status ∷ "): " ∷ reason ∷ [])))
run_result resource retries_timed_out = raise (
    executor_error "executor_timeout"
      (concat ("Kubernetes API call for " ∷ resource ∷ " timed out" ∷ [])))
run_result resource (retries_failed message) =
    raise (executor_error "upstream_error" (concat ("Kubernetes API unreachable: " ∷ message ∷ [])))
run_result resource (crash message) = raise (other_error message)

module _ {ℓ} {A : Type ℓ} (b : Backends) (answer : Trace → Fields → K8sReply A) where
  -- `fn(_request_timeout=get_executor_timeout(), **kwargs)` for the method of a name
  unfoldable pub call_k8s : String → Fields → M (K8sReply A)
  call_k8s method kwargs tr = (ok (answer tr kwargs), called_k8s method kwargs ∷ tr)

  -- `run(fn, resource, **kwargs)`
  unfoldable pub k8s_run : String → String → Fields → M A
  unfolding call_k8s run_result get_executor_timeout
  k8s_run method resource kwargs = do
    reply ← call_k8s method (field "_request_timeout" (timeout_value b) kwargs)
    lift (run_result resource reply)

-- whether the kind is namespaced
unfoldable pub kind_result : Backends → (api_version kind : Value) → KindReply → Result Bool
unfolding shown
kind_result b api_version kind (found namespaced) = ok namespaced
kind_result b api_version kind not_found_kind = raise (
    executor_error "not_found" (
      concat (
        "resource type '"
        ∷ shown b kind
        ∷ "' ("
        ∷ shown b api_version
        ∷ ") not found on this cluster"
        ∷ [])))
kind_result b api_version kind (ambiguous message) = raise (
    executor_error "validation_error" (
      concat (
        "'"
        ∷ shown b kind
        ∷ "' ("
        ∷ shown b api_version
        ∷ ") is ambiguous on this cluster: "
        ∷ message
        ∷ [])))
kind_result b api_version kind (kind_crash message) = raise (other_error message)

unfoldable pub resource_for : Backends → (api_version kind : Value) → M Bool
unfolding load_config discover kind_result
resource_for b api_version kind = do
  load_config b
  reply ← discover b api_version kind
  lift (kind_result b api_version kind reply)
