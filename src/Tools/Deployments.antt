-- ===== src/Tools/Deployments.antt =====
-- app/tools/tools_spec.py: the executors on deployments.
use mcp_control_plane.Prelude.{
  ℕ, String, Bool, false, Option, none, some, List, [], ◌∷◌, concat, leb, ltb, not, ◌==◌, ◌||◌,
  if◌then◌else◌,
}
use mcp_control_plane.Value.{
  pos, Value, null, int, str, obj, Fields, end, field, truthy, record_of, list_of,
}
use mcp_control_plane.World.{M, pure, ◌>>=◌, ◌>>◌}
use mcp_control_plane.Clock.{isoformat, utc_stamp}
use mcp_control_plane.Tools.Backend.{
  DeploymentCondition, Deployment, Backends, shown, arg, validation_error, utc_now,
}
use mcp_control_plane.Tools.KubeClient.{load_config, k8s_run}
use mcp_control_plane.Tools.Pods.{require_reason}

unfoldable pub deployment_label : Backends → (deployment namespace : Value) → String
unfolding shown
deployment_label b deployment namespace =
    concat ("deployment '" ∷ shown b deployment ∷ "' in namespace '" ∷ shown b namespace ∷ "'" ∷ [])

-- `**({key: text} if text else {})`
abbrev text_field : String → Option String → Fields → Fields
text_field key none rest = rest
text_field key (some s) rest = if s == "" then rest else field key (str s) rest

unfoldable pub condition_value : DeploymentCondition → Value
condition_value c = obj (
    field "type" (str c.kind) (
      field "status" (str c.status)
        (text_field "reason" c.reason (text_field "message" c.message end))))

unfoldable pub condition_values : List DeploymentCondition → List Value
unfolding condition_value
condition_values [] = []
condition_values (c ∷ cs) = condition_value c ∷ condition_values cs

abbrev pub later : ℕ → Option ℕ → ℕ
later t none = t
later t (some u) = if ltb t u then u else t

abbrev pub latest : Option ℕ → Option ℕ → Option ℕ
latest none newest = newest
latest (some t) newest = some (later t newest)

-- `max(update_times)`, or none if there are none
unfoldable pub last_update : List DeploymentCondition → Option ℕ
last_update [] = none
last_update (c ∷ cs) = latest c.last_update_time (last_update cs)

abbrev or_else_time : Option ℕ → Option ℕ → Option ℕ
or_else_time none t = t
or_else_time (some s) t = some s

abbrev time_value : Option ℕ → Value
time_value none = null
time_value (some t) = str (isoformat t)

abbrev count_value : Option ℕ → Value
count_value none = null
count_value (some n) = int (pos n)

abbrev count_or_zero : Option ℕ → Value
count_or_zero none = int (pos 0)
count_or_zero (some n) = int (pos n)

abbrev first_image : List (Option String) → Value
first_image [] = null
first_image (none ∷ images) = null
first_image (some i ∷ images) = str i

unfoldable pub deployment_result : Deployment → Value
unfolding condition_values last_update isoformat
deployment_result dep = record_of (
    ("name", str dep.name)
    ∷ ("namespace", str dep.namespace)
    ∷ ("desired_replicas", count_value dep.replicas)
    ∷ ("ready_replicas", count_or_zero dep.ready_replicas)
    ∷ ("available_replicas", count_or_zero dep.available_replicas)
    ∷ ("image", first_image dep.images)
    ∷ ("conditions", list_of (condition_values dep.conditions))
    ∷ (
      "last_updated",
      time_value (or_else_time (last_update dep.conditions) dep.creation_timestamp),
    )
    ∷ [])

-- the keyword arguments of a call on one deployment
abbrev pub target : (deployment namespace : Value) → Fields → Fields
target deployment namespace rest = field "name" deployment (field "namespace" namespace rest)

unfoldable pub get_deployment_status : Backends → Fields → M Value
unfolding load_config k8s_run deployment_label deployment_result
get_deployment_status b arguments =
    let namespace = arg arguments "namespace" in
    let deployment = arg arguments "deployment" in
    if not (truthy namespace) || not (truthy deployment)
    then validation_error "'namespace' and 'deployment' are required"
    else do
      load_config b
      dep ←
          k8s_run b b.deployment "read_namespaced_deployment"
            (deployment_label b deployment namespace) (target deployment namespace end)
      pure (deployment_result dep)

-- the patch that bumps the annotation of the pod template
unfoldable pub restart_patch : String → Value
restart_patch restarted_at = record_of (
    (
      "spec",
      record_of (
          (
            "template",
            record_of (
                (
                  "metadata",
                  record_of (
                      (
                        "annotations",
                        record_of (("kubectl.kubernetes.io/restartedAt", str restarted_at) ∷ []),
                      )
                      ∷ []),
                )
                ∷ []),
          )
          ∷ []),
    )
    ∷ [])

unfoldable pub restart_deployment : Backends → Fields → M Value
unfolding require_reason utc_now load_config k8s_run deployment_label restart_patch utc_stamp
restart_deployment b arguments =
    let namespace = arg arguments "namespace" in
    let deployment = arg arguments "deployment" in
    if not (truthy namespace) || not (truthy deployment)
    then validation_error "'namespace' and 'deployment' are required"
    else do
      require_reason arguments
      now ← utc_now b
      load_config b
      k8s_run b b.patch "patch_namespaced_deployment" (deployment_label b deployment namespace)
          (target deployment namespace (field "body" (restart_patch (utc_stamp now)) end))
      pure (
          record_of (
            ("status", str "restart_initiated")
            ∷ ("deployment", deployment)
            ∷ ("namespace", namespace)
            ∷ ("restarted_at", str (utc_stamp now))
            ∷ ("message", str "Rolling restart triggered. Monitor with get_deployment_status.")
            ∷ []))

-- an int, no bool, from 0 to 20
unfoldable pub is_replicas : Value → Bool
is_replicas (int (pos n)) = leb n 20
is_replicas _ = false

unfoldable pub replicas_body : Value → Value
replicas_body replicas = record_of (("spec", record_of (("replicas", replicas) ∷ [])) ∷ [])

unfoldable pub scale_deployment : Backends → Fields → M Value
unfolding is_replicas require_reason load_config k8s_run deployment_label replicas_body utc_now
    utc_stamp
scale_deployment b arguments =
    let namespace = arg arguments "namespace" in
    let deployment = arg arguments "deployment" in
    let replicas = arg arguments "replicas" in
    if not (truthy namespace) || not (truthy deployment)
    then validation_error "'namespace' and 'deployment' are required"
    else if not (is_replicas replicas)
    then validation_error "'replicas' is required and must be an integer 0-20"
    else do
      require_reason arguments
      load_config b
      k8s_run b b.patch_scale "patch_namespaced_deployment_scale"
          (deployment_label b deployment namespace)
          (target deployment namespace (field "body" (replicas_body replicas) end))
      now ← utc_now b
      pure (
          record_of (
            ("status", str "scale_initiated")
            ∷ ("deployment", deployment)
            ∷ ("namespace", namespace)
            ∷ ("replicas", replicas)
            ∷ ("scaled_at", str (utc_stamp now))
            ∷ ("message", str "Scale request submitted. Monitor with get_deployment_status.")
            ∷ []))
