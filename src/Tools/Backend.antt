-- ===== src/Tools/Backend.antt =====
-- What the executors see of their backends, and the accesses of JSON that they make. An executor is an
-- action over the same trace as the handlers. The clients' credentials are not recorded with a request.
use mcp_control_plane.Prelude.{ℕ, String, Bool, Option, none, some, List, ◌∷◌, ◌==◌}
use mcp_control_plane.Value.{ℤ, Value, str, obj, Fields, get, or_null}
use mcp_control_plane.World.{
  executor_error, attribute_error, type_error, key_error, value_error, Exn, Result, ok, raise, M,
  throw, Trace, read_clock, discovered, sent_http,
}

-- A container's status, a pod, a condition and a deployment, as far as the code reads the objects of the
-- kubernetes package. Times are in microseconds.
pub record ContainerStatus : Type 0 where
  pub ready : Bool
  pub restart_count : ℕ

pub record Pod : Type 0 where
  pub name : String
  pub container_statuses : Option (List ContainerStatus)
  pub phase : Option String
  pub creation_timestamp : Option ℕ

pub record DeploymentCondition : Type 0 where
  pub kind : String
  pub status : String
  pub reason : Option String
  pub message : Option String
  pub last_update_time : Option ℕ

pub record Deployment : Type 0 where
  pub name : String
  pub namespace : String
  pub replicas : Option ℕ
  pub ready_replicas : Option ℕ
  pub available_replicas : Option ℕ
  pub images : List (Option String)
  pub conditions : List DeploymentCondition
  pub creation_timestamp : Option ℕ

-- How a call of the kubernetes package ends: it returns; it raises an `ApiException` with its status and
-- reason; a `MaxRetryError` whose reason is a timeout, or another one; or some other exception.
pub data K8sReply {ℓ} (A : Type ℓ) : Type ℓ where
  done : A → K8sReply A
  api_exception : ℕ → String → K8sReply A
  retries_timed_out : K8sReply A
  retries_failed : String → K8sReply A
  crash : String → K8sReply A

-- The lookup of a kind: whether it is namespaced, or `ResourceNotFoundError`, `ResourceNotUniqueError`, or
-- some other exception.
pub data KindReply : Type 0 where
  found : Bool → KindReply
  not_found_kind : KindReply
  ambiguous : String → KindReply
  kind_crash : String → KindReply

-- A response of httpx: its status, whether `raise_for_status` returns, its body where that is JSON, and
-- its Location header.
pub record HttpResponse : Type 0 where
  pub status_code : ℕ
  pub is_success : Bool
  pub body : Option Value
  pub location : Option String

pub data HttpAnswer : Type 0 where
  response : HttpResponse → HttpAnswer
  timed_out : HttpAnswer
  unreachable : String → HttpAnswer
  http_crash : String → HttpAnswer

-- What `float(raw)` reads: a finite float in microseconds, one of the infinities, or not a number.
pub data Seconds : Type 0 where
  finite : ℤ → Seconds
  infinity minus_infinity nan : Seconds

-- The backends' answers, the settings in the environment, and the parts of the standard library that are
-- taken as they are: `str` of a JSON value and of a float of seconds, `float(raw)`, `==` of two JSON values
-- that are not both texts, `+` of two values that are not both integers from 0 on, and the ISO text of a
-- number of milliseconds that is no integer from the epoch to the year 9999; the last two may be refused.
pub record Backends : Type 0 where
  pub now : Trace → ℕ
  pub in_cluster : Trace → Bool
  pub kubeconfig_error : Trace → Option String
  pub pod_log : Trace → Fields → K8sReply String
  pub pod_list : Trace → Fields → K8sReply (List Pod)
  pub deployment : Trace → Fields → K8sReply Deployment
  pub patch : Trace → Fields → K8sReply (Unit {0})
  pub patch_scale : Trace → Fields → K8sReply (Unit {0})
  pub pod_exec : Trace → Fields → K8sReply String
  pub apply : Trace → Fields → K8sReply (Unit {0})
  pub kind_of : Trace → Value → Value → KindReply
  pub http : Trace → (verb url : String) → Value → Fields → HttpAnswer
  pub executor_timeout_seconds : Option String
  pub float_of : String → Option Seconds
  pub seconds_text : Seconds → String
  pub tfc_url : String
  pub tfc_org : Option String
  pub tfc_token : Option String
  pub jenkins_url : String
  pub prometheus_url : String
  pub pagerduty_url : String
  pub pagerduty_api_token : Option String
  pub jira_url : String
  pub jira_user : Option String
  pub jira_api_token : Option String
  pub text_of : Value → String
  pub same_value : Value → Value → Bool
  pub sum_of : Value → Value → Option Value
  pub other_iso : Value → Option String
  pub exception_text : Exn → String

-- `str(v)`, in an f-string
unfoldable pub shown : Backends → Value → String
shown b (str s) = s
shown b v = b.text_of v

-- `v == w`
unfoldable pub values_equal : Backends → Value → Value → Bool
values_equal b (str s) (str t) = s == t
values_equal b v w = b.same_value v w

-- `d[key]`, for a text as key
unfoldable pub index : Value → String → Result Value
index (obj fs) key = elim (get fs key) [ none ↦ raise key_error | some v ↦ ok v ]
index _ key = raise type_error

-- `d.get(key)` of what may be no dict
unfoldable pub get_of : Value → String → Result Value
get_of (obj fs) key = ok (or_null (get fs key))
get_of _ key = raise attribute_error

abbrev or_default : Option Value → Value → Value
or_default none d = d
or_default (some v) d = v

-- `d.get(key, default)` of what may be no dict
unfoldable pub get_default : Value → String → Value → Result Value
get_default (obj fs) key d = ok (or_default (get fs key) d)
get_default _ key d = raise attribute_error

-- `arguments.get(key)` and `arguments.get(key, default)`
abbrev pub arg : Fields → String → Value
arg arguments key = or_null (get arguments key)

abbrev pub arg_or : Fields → String → Value → Value
arg_or arguments key d = or_default (get arguments key) d

-- `ExecutorError(error_type, message)` is raised.
module _ {ℓ} {A : Type ℓ} where
  abbrev pub validation_error : String → M A
  validation_error message = throw (executor_error "validation_error" message)

  abbrev pub upstream_error : String → M A
  upstream_error message = throw (executor_error "upstream_error" message)

-- `datetime.now(timezone.utc)`
unfoldable pub utc_now : Backends → M ℕ
utc_now b tr = (ok (b.now tr), read_clock ∷ tr)

unfoldable pub discover : Backends → Value → Value → M KindReply
discover b api_version kind tr =
    (ok (b.kind_of tr api_version kind), discovered api_version kind ∷ tr)

-- A request of an `httpx.Client`.
unfoldable pub http_request : Backends → (verb url : String) → Value → Fields → M HttpAnswer
http_request b verb url params headers tr =
    (ok (b.http tr verb url params headers), sent_http verb url params headers ∷ tr)

-- `response.json()`
unfoldable pub json_of : HttpResponse → Result Value
json_of r = elim (r.body) [ none ↦ raise value_error | some v ↦ ok v ]
