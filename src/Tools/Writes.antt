-- ===== src/Tools/Writes.antt =====
-- app/tools/tools_spec.py: when the executors that change a workload reach the Kubernetes API, and how often.
use mcp_control_plane.Prelude.{
  ℕ, String, ◌≡◌, refl, ap, ◌∙◌, Bool, true, false, ◌∷◌, arith, ◌&&◌, if◌then◌else◌, Bool-cases,
  inl, inr,
}
use mcp_control_plane.Value.{Value, str, obj, bool, Fields, field, end, truthy}
use mcp_control_plane.World.{read_clock, Trace, Result}
use mcp_control_plane.Clock.{utc_stamp}
use mcp_control_plane.Tools.Backend.{Backends, arg, utc_now}
use mcp_control_plane.Tools.Config.{timeout_value}
use mcp_control_plane.Tools.Pods.{exec_into_pod, is_command, when_true}
use mcp_control_plane.Tools.Deployments.{restart_deployment, scale_deployment, is_replicas}
use mcp_control_plane.Traces.{Keeps, keeps_rules}
use mcp_control_plane.Tools.Footprint.{has_reason}
use mcp_control_plane.Tools.Guards.{
  k8s_calls, configured, given_reason, no_reason, from_call, configuring, configured_call,
  guarded_call,
}

now-Keeps : (b : Backends) → Keeps k8s_calls (utc_now b)
unfolding utc_now
now-Keeps b = record { at = λ tr. refl }

-- the object of one key
abbrev inside : String → Value → Value
inside key v = obj (field key v end)

module _ (b : Backends) (arguments : Fields) where
  abbrev pub wants_deployment : Bool
  wants_deployment = truthy (arg arguments "namespace") && truthy (arg arguments "deployment")

  abbrev pub wants_scale : Bool
  wants_scale = wants_deployment && is_replicas (arg arguments "replicas")

  -- The call that scales the deployment of the arguments to their number of replicas.
  abbrev pub scale_call : String × Fields
  scale_call = (
    "patch_namespaced_deployment_scale",
    field "_request_timeout" (timeout_value b) (
        field "name" (arg arguments "deployment") (
          field "namespace" (arg arguments "namespace")
            (field "body" (inside "spec" (inside "replicas" (arg arguments "replicas"))) end))),
  )

  -- scale_deployment makes one call of the Kubernetes API, the one that sets the deployment of the arguments to
  -- their number of replicas, exactly where the arguments name a namespace and a deployment, the replicas are
  -- an int from 0 to 20, there is a reason of 10 to 500 characters and a configuration is found; and else none.
  scale_deployment-calls :
      (before : Trace)
      → k8s_calls (scale_deployment b arguments before).1 ≡ (
          if wants_scale && (has_reason arguments && configured b before)
          then scale_call ∷ k8s_calls before
          else k8s_calls before)
  unfolding scale_deployment configuring from_call
  scale_deployment-calls before = elim (Bool-cases wants_deployment) [
    | inr e ↦ ground (arith, e)
    | inl e ↦ elim (Bool-cases (is_replicas (arg arguments "replicas"))) [
      | inr g ↦ ground (arith, e, g)
      | inl g ↦
          let e1 : truthy (arg arguments "namespace") ≡ true = ground (arith, e) in
          let e2 : truthy (arg arguments "deployment") ≡ true = ground (arith, e) in
          rw (e1, e2, g)
            (guarded_call b arguments b.patch_scale _ _ _ _ before
              (λ a. search (keeps_rules, now-Keeps)))
    ]
  ]

  abbrev pub wants_exec : Bool
  wants_exec =
      truthy (arg arguments "namespace")
      && truthy (arg arguments "pod_name")
      && is_command (arg arguments "command")

  -- The call that runs the command of the arguments in their pod.
  abbrev pub exec_call : String × Fields
  exec_call = (
    "connect_get_namespaced_pod_exec",
    field "_request_timeout" (timeout_value b) (
        field "name" (arg arguments "pod_name") (
          field "namespace" (arg arguments "namespace") (
            field "command" (arg arguments "command") (
              field "stderr" (bool true) (
                field "stdin" (bool false) (
                  field "stdout" (bool true) (
                    field "tty" (bool false)
                      (when_true "container" (arg arguments "container") end)))))))),
  )

  -- exec_into_pod makes one call of the Kubernetes API, the one that runs the command of the arguments in their
  -- pod and container, exactly where the arguments name a namespace and a pod, the command is a list of texts
  -- that is not empty and holds no empty text, there is a reason of 10 to 500 characters and a configuration
  -- is found; and else none.
  exec_into_pod-calls :
      (before : Trace)
      → k8s_calls (exec_into_pod b arguments before).1 ≡ (
          if wants_exec && (has_reason arguments && configured b before)
          then exec_call ∷ k8s_calls before
          else k8s_calls before)
  unfolding exec_into_pod configuring from_call
  exec_into_pod-calls before = elim (Bool-cases wants_exec) [
    | inr e ↦ ground (arith, e)
    | inl e ↦
        let e1 : truthy (arg arguments "namespace") ≡ true = ground (arith, e) in
        let e2 : truthy (arg arguments "pod_name") ≡ true = ground (arith, e) in
        let e3 : is_command (arg arguments "command") ≡ true = ground (arith, e) in
        rw (e1, e2, e3)
          (guarded_call b arguments b.pod_exec _ _ _ _ before
            (λ output. search (keeps_rules, now-Keeps)))
  ]

  -- The call that restarts the deployment of the arguments at a time.
  abbrev pub restart_call : ℕ → String × Fields
  restart_call now = (
    "patch_namespaced_deployment",
    field "_request_timeout" (timeout_value b) (
        field "name" (arg arguments "deployment") (
          field "namespace" (arg arguments "namespace") (
            field "body"
              (inside "spec" (
                inside "template" (
                  inside "metadata" (
                    inside "annotations"
                      (inside "kubectl.kubernetes.io/restartedAt" (str (utc_stamp now)))))))
              end))),
  )

  -- restart_deployment makes one call of the Kubernetes API, the one that puts the time into the annotation of
  -- the pod template of the deployment of the arguments, exactly where the arguments name a namespace and a
  -- deployment, there is a reason of 10 to 500 characters and a configuration is found; and else none.
  restart_deployment-calls :
      (before : Trace)
      → k8s_calls (restart_deployment b arguments before).1 ≡ (
          if wants_deployment && (has_reason arguments && configured b (read_clock ∷ before))
          then restart_call (b.now before) ∷ k8s_calls before
          else k8s_calls before)
  unfolding restart_deployment configuring from_call utc_now
  restart_deployment-calls before = elim (Bool-cases wants_deployment) [
    | inr e ↦ ground (arith, e)
    | inl e ↦
        let e1 : truthy (arg arguments "namespace") ≡ true = ground (arith, e) in
        let e2 : truthy (arg arguments "deployment") ≡ true = ground (arith, e) in
        elim (Bool-cases (has_reason arguments)) [
          | inr r ↦ rw (e1, e2, r) (ap k8s_calls (no_reason arguments before _ r))
          | inl r ↦
              rw (e1, e2, r)
                (ap (λ (out : Result Value × Trace). k8s_calls out.1)
                    (given_reason arguments before _ r)
                  ∙ configured_call b arguments b.patch _ _ _ _ (read_clock ∷ before)
                      (λ a. search keeps_rules))
        ]
  ]

  -- The executors that change a workload make one call of the Kubernetes API, or none. scale_deployment makes the
  -- one that sets the deployment of the arguments to their number of replicas, exactly where the arguments name
  -- a namespace and a deployment and the replicas are an int from 0 to 20; exec_into_pod the one that runs their
  -- command in their pod and container, exactly where they name a namespace and a pod, and the command is a
  -- list of texts that is not empty and holds no empty text; restart_deployment the one that puts the time into
  -- the annotation of the pod template of their deployment, exactly where they name a namespace and a
  -- deployment; and each of them only where there is a reason of 10 to 500 characters and a configuration is
  -- found.
  pub writes-calls :
      (before : Trace)
      → (k8s_calls (scale_deployment b arguments before).1 ≡ (
          if wants_scale && (has_reason arguments && configured b before)
          then scale_call ∷ k8s_calls before
          else k8s_calls before))
        × (k8s_calls (exec_into_pod b arguments before).1 ≡ (
            if wants_exec && (has_reason arguments && configured b before)
            then exec_call ∷ k8s_calls before
            else k8s_calls before))
        × (k8s_calls (restart_deployment b arguments before).1 ≡ (
            if wants_deployment && (has_reason arguments && configured b (read_clock ∷ before))
            then restart_call (b.now before) ∷ k8s_calls before
            else k8s_calls before))
  writes-calls before =
      (scale_deployment-calls before, exec_into_pod-calls before, restart_deployment-calls before)
