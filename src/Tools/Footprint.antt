-- ===== src/Tools/Footprint.antt =====
-- Which calls of the backends each executor may make, and the single steps that keep to them.
use mcp_control_plane.Prelude.{
  String, ◌≡◌, Bool, true, false, Option, none, some, List, [], ◌∷◌, arith, contains, not, leb,
  ◌||◌, ◌&&◌, ◌==◌, if◌then◌else◌,
}
use mcp_control_plane.Value.{pos, Value, int, str, obj, Fields, get}
use mcp_control_plane.World.{Effect, read_clock, called_k8s, discovered, sent_http, Trace, M, ◌>>=◌}
use mcp_control_plane.Traces.Stable.{Stable, stable_rules, Stable-bind, Stable-lift}
use mcp_control_plane.Traces.Added.{Added, further}
use mcp_control_plane.Tools.Text.{text_length, strip}
use mcp_control_plane.Tools.Backend.{Backends, K8sReply, arg, utc_now, discover, http_request}
use mcp_control_plane.Tools.KubeClient.{load_config, k8s_run, resource_for}
use mcp_control_plane.Tools.HttpClient.{Wanted, send}
use mcp_control_plane.Tools.Pods.{require_reason, reason_of}

-- The one method of the Kubernetes API that a tool may call.
unfoldable pub k8s_methods : String → List String
k8s_methods name =
    if name == "list_pods"
    then "list_namespaced_pod" ∷ []
    else if name == "get_pod_logs"
    then "read_namespaced_pod_log" ∷ []
    else if name == "get_deployment_status"
    then "read_namespaced_deployment" ∷ []
    else if name == "restart_deployment"
    then "patch_namespaced_deployment" ∷ []
    else if name == "scale_deployment"
    then "patch_namespaced_deployment_scale" ∷ []
    else if name == "exec_into_pod"
    then "connect_get_namespaced_pod_exec" ∷ []
    else if name == "apply_k8s_manifest"
    then "server_side_apply" ∷ []
    else []

-- The HTTP verbs that a tool may use.
unfoldable pub http_verbs : String → List String
http_verbs name =
    if name == "trigger_jenkins_job"
    then "GET" ∷ "POST" ∷ []
    else if contains
        ("query_terraform_plan" ∷ "get_jenkins_job_status" ∷ "read_prometheus_metrics"
          ∷ "read_ticket" ∷ [])
        name
    then "GET" ∷ []
    else []

-- The methods and verbs that only read.
abbrev pub reading : List String
reading =
    "list_namespaced_pod" ∷ "read_namespaced_pod_log" ∷ "read_namespaced_deployment" ∷ "GET" ∷ []

abbrev pub fits : Value → Bool
fits (str s) = leb 10 (text_length (strip s)) && leb (text_length (strip s)) 500
fits _ = false

-- A reason of 10 to 500 characters, without the spaces around it.
unfoldable pub has_reason : Fields → Bool
unfolding strip text_length
has_reason arguments = fits (arg arguments "reason")

abbrev pub entry : Option Value → String → Option Value
entry (some (obj fs)) key = get fs key
entry _ key = none

-- `body["metadata"]["namespace"]`
abbrev pub body_namespace : Fields → Option Value
body_namespace kwargs = entry (entry (get kwargs "body") "metadata") "namespace"

abbrev within : Option Value → Bool
within (some (int (pos n))) = leb n 20
within _ = false

-- `body["spec"]["replicas"]` is an int from 0 to 20.
abbrev pub few_replicas : Fields → Bool
few_replicas kwargs = within (entry (entry (get kwargs "body") "spec") "replicas")

-- What holds of a call of the Kubernetes API that the executor of the tool makes for the arguments: it is
-- the tool's method; it is on the namespace of the arguments, and so is a manifest that it applies; a call
-- that does not only read has a reason; and no deployment is scaled beyond 20 replicas.
pub record K8sCall (name : String) (arguments : Fields) (method : String) (kwargs : Fields)
    : Type 0 where
  pub its_method : contains (k8s_methods name) method ≡ true
  pub in_namespace : get kwargs "namespace" ≡ some (arg arguments "namespace")
  pub body_in_namespace :
      body_namespace kwargs
      ≡ (if method == "server_side_apply" then some (arg arguments "namespace") else none)
  pub justified : contains reading method || has_reason arguments ≡ true
  pub bounded : not (method == "patch_namespaced_deployment_scale") || few_replicas kwargs ≡ true

pub record HttpCall (name : String) (arguments : Fields) (verb : String) : Type 0 where
  pub its_verb : contains (http_verbs name) verb ≡ true
  pub justified : contains reading verb || has_reason arguments ≡ true

-- What an executor may do: read the clock, look a kind up, and the calls above; nothing else.
abbrev pub Permitted : String → Fields → Effect → Type 0
Permitted name arguments read_clock = Unit
Permitted name arguments (discovered api_version kind) = Unit
Permitted name arguments (called_k8s method kwargs) = K8sCall name arguments method kwargs
Permitted name arguments (sent_http verb url params headers) = HttpCall name arguments verb
Permitted name arguments _ = ⊥

-- The action adds permitted effects alone.
abbrev pub Permits {ℓ} : {A : Type ℓ} → Trace → String → Fields → M A → Type ℓ
Permits before name arguments m = Stable (Added (Permitted name arguments) before) m

module _ (before : Trace) (name : String) (arguments : Fields) (b : Backends) where
  pub now-Permits : Permits before name arguments (utc_now b)
  unfolding utc_now
  now-Permits = record { at = λ tr a. further {e = read_clock} tt a }

  pub config-Permits : Permits before name arguments (load_config b)
  unfolding load_config
  config-Permits = record { at = λ tr a. ground (arith, a) }

  discover-Permits :
      (api_version kind : Value) → Permits before name arguments (discover b api_version kind)
  unfolding discover
  discover-Permits api_version kind = record {
    at = λ tr a. further {e = discovered api_version kind} tt a;
  }

  pub resource_for-Permits :
      (api_version kind : Value) → Permits before name arguments (resource_for b api_version kind)
  unfolding resource_for
  resource_for-Permits api_version kind = search (stable_rules, config-Permits, discover-Permits)

  pub k8s_run-Permits {ℓ} :
      {A : Type ℓ} (answer : Trace → Fields → K8sReply A) (method resource : String)
      (kwargs : Fields)
      → K8sCall name arguments method kwargs
      → Permits before name arguments (k8s_run b answer method resource kwargs)
  unfolding k8s_run
  k8s_run-Permits answer method resource kwargs k = record {
    at = λ tr a.
        further {e = called_k8s method _}
          (record {
            its_method = k.its_method;
            in_namespace = k.in_namespace;
            body_in_namespace = k.body_in_namespace;
            justified = k.justified;
            bounded = k.bounded;
          })
          a;
  }

  pub http_request-Permits :
      (verb url : String) (params : Value) (headers : Fields)
      → HttpCall name arguments verb
      → Permits before name arguments (http_request b verb url params headers)
  unfolding http_request
  http_request-Permits verb url params headers k = record {
    at = λ tr a. further {e = sent_http verb url params headers} k a;
  }

  pub send-Permits :
      (w : Wanted) (verb url : String) (params : Value) (headers : Fields)
      → HttpCall name arguments verb
      → Permits before name arguments (send b w verb url params headers)
  unfolding send
  send-Permits w verb url params headers k = search (stable_rules, http_request-Permits)

pub ruleset permit_rules = (
  stable_rules, now-Permits, config-Permits, resource_for-Permits, k8s_run-Permits,
  http_request-Permits, send-Permits,
)

module _ (before : Trace) (name : String) (arguments : Fields) where
  pub reason-Permits : Permits before name arguments (require_reason arguments)
  unfolding require_reason
  reason-Permits = search stable_rules

  -- Without a reason nothing happens behind `_require_reason`.
  pub unreasoned-Permits :
      (f : String → M Value)
      → has_reason arguments ≡ false
      → Permits before name arguments (require_reason arguments >>= f)
  unfolding require_reason reason_of has_reason
  unreasoned-Permits f h = record { at = λ tr a. ground (arith, a, h) }
