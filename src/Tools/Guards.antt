-- ===== src/Tools/Guards.antt =====
-- app/tools/tools_spec.py: the reason and the configuration before a call of the Kubernetes API.
use mcp_control_plane.Prelude.{
  String, ◌≡◌, refl, Bool, true, false, Option, none, some, List, [], ◌∷◌, arith, ◌||◌, ◌&&◌, ◌==◌,
  if◌then◌else◌, Bool-cases, inl, inr, eq_iff, ◌≢◌,
}
use mcp_control_plane.Value.{or_else, Value, null, bool, int, float, obj, arr, str, Fields, field}
use mcp_control_plane.World.{lift, called_k8s, Trace, M, ◌>>=◌, ◌>>◌}
use mcp_control_plane.Tools.Text.{strip, lstrip, rstrip, text_length}
use mcp_control_plane.Tools.Backend.{Backends, K8sReply, arg}
use mcp_control_plane.Tools.Config.{timeout_value}
use mcp_control_plane.Tools.KubeClient.{load_config, k8s_run, run_result}
use mcp_control_plane.Tools.Pods.{require_reason, reason_of}
use mcp_control_plane.Traces.{Keeps, Keeps-bind, Keeps-lift}
use mcp_control_plane.Tools.Footprint.{fits, has_reason}

-- The calls of the Kubernetes API, newest first.
abbrev pub k8s_calls : Trace → List (String × Fields)
k8s_calls [] = []
k8s_calls (called_k8s method kwargs ∷ tr) = (method, kwargs) ∷ k8s_calls tr
k8s_calls (_ ∷ tr) = k8s_calls tr

abbrev is_none {ℓ} : {A : Type ℓ} → Option A → Bool
is_none none = true
is_none (some a) = false

-- A configuration is found, in the cluster or for a local cluster.
abbrev pub configured : Backends → Trace → Bool
configured b tr = b.in_cluster tr || is_none (b.kubeconfig_error tr)

empty : (s : String) → s ≡ "" → fits (str s) ≢ true
unfolding strip text_length lstrip rstrip
empty String.[] e h = cc
empty (String.◌∷◌ c s) e h = cc

not_empty : (s : String) → fits (str s) ≡ true → s == "" ≡ false
not_empty s h = elim (Bool-cases (s == "")) [
  | inl e ↦ absurd (empty s (ground (arith, e, eq_iff s "")) h)
  | inr e ↦ e
]

-- A text that fits is not empty, and so not left out by `or ""`.
same_value : (v : Value) → fits v ≡ true → or_else v (str "") ≡ v
same_value (str s) h = rw (not_empty s h) refl
same_value null h = absurd (ground (arith, h))
same_value (bool _) h = absurd (ground (arith, h))
same_value (int _) h = absurd (ground (arith, h))
same_value (float _ _) h = absurd (ground (arith, h))
same_value (obj _) h = absurd (ground (arith, h))
same_value (arr _) h = absurd (ground (arith, h))

module _ (arguments : Fields) (tr : Trace) (n : M Value) where
  pub given_reason : has_reason arguments ≡ true → (require_reason arguments >> n) tr ≡ n tr
  unfolding require_reason reason_of has_reason
  given_reason e = rw (same_value (arg arguments "reason") e) (ground (arith, e))

  pub no_reason : has_reason arguments ≡ false → ((require_reason arguments >> n) tr).1 ≡ tr
  unfolding require_reason reason_of has_reason
  no_reason e = ground (arith, e)

module _ (b : Backends) (tr : Trace) (n : M Value) where
  given_config : configured b tr ≡ true → (load_config b >> n) tr ≡ n tr
  unfolding load_config
  given_config e = ground (arith, e)

  no_config : configured b tr ≡ false → ((load_config b >> n) tr).1 ≡ tr
  unfolding load_config
  no_config e = ground (arith, e)

module _ {A : Type 0} (b : Backends) (answer : Trace → Fields → K8sReply A) where
  one_call :
      (method resource : String) (kwargs : Fields) (f : A → M Value) (tr : Trace)
      → ((a : A) → Keeps k8s_calls (f a))
      → k8s_calls ((k8s_run b answer method resource kwargs >>= f) tr).1
        ≡ (method, field "_request_timeout" (timeout_value b) kwargs) ∷ k8s_calls tr
  unfolding k8s_run
  one_call method resource kwargs f tr k =
      (Keeps-bind (lift (run_result resource (answer tr _))) f (Keeps-lift _) k).at
        (called_k8s method _ ∷ tr)

module _ {A : Type 0} (b : Backends) (arguments : Fields) (answer : Trace → Fields → K8sReply A)
    (method resource : String) (kwargs : Fields) (f : A → M Value) where
  unfoldable pub from_call : M Value
  from_call = k8s_run b answer method resource kwargs >>= f

  unfoldable pub configuring : M Value
  unfolding from_call
  configuring = load_config b >> from_call

  pub configured_call :
      (before : Trace)
      → ((a : A) → Keeps k8s_calls (f a))
      → k8s_calls (configuring before).1 ≡ (
          if configured b before
          then (method, field "_request_timeout" (timeout_value b) kwargs) ∷ k8s_calls before
          else k8s_calls before)
  unfolding configuring from_call
  configured_call before k = elim (Bool-cases (configured b before)) [
    | inr c ↦ rw (c, no_config b before from_call c) refl
    | inl c ↦
        rw (c, given_config b before from_call c)
          (one_call b answer method resource kwargs f before k)
  ]

  pub guarded_call :
      (before : Trace)
      → ((a : A) → Keeps k8s_calls (f a))
      → k8s_calls ((require_reason arguments >> configuring) before).1 ≡ (
          if has_reason arguments && configured b before
          then (method, field "_request_timeout" (timeout_value b) kwargs) ∷ k8s_calls before
          else k8s_calls before)
  guarded_call before k = elim (Bool-cases (has_reason arguments)) [
    | inr e ↦ rw (e, no_reason arguments before configuring e) refl
    | inl e ↦ rw (e, given_reason arguments before configuring e) (configured_call before k)
  ]
