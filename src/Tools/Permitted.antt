-- ===== src/Tools/Permitted.antt =====
-- The Kubernetes executors make the calls that they may make, and no others.
use mcp_control_plane.Prelude.{String, ◌≡◌, refl, true, false, arith, Bool-cases, inl, inr}
use mcp_control_plane.Value.{Value, bool, Fields, field, end}
use mcp_control_plane.World.{Trace}
use mcp_control_plane.Tools.Backend.{Backends, arg}
use mcp_control_plane.Tools.Pods.{get_pod_logs, list_pods, exec_into_pod, log_options, when_true}
use mcp_control_plane.Tools.Deployments.{
  target, get_deployment_status, restart_deployment, scale_deployment, restart_patch, replicas_body,
  is_replicas,
}
use mcp_control_plane.Tools.Footprint.{
  K8sCall, Permits, permit_rules, reason-Permits, unreasoned-Permits, has_reason, k8s_methods,
}

module _ (arguments : Fields) where
  namespace : Value
  namespace = arg arguments "namespace"

  -- a call that only reads, with no body
  list-K8sCall :
      (label_selector field_selector : Value)
      → K8sCall "list_pods" arguments "list_namespaced_pod" (
          field "namespace" (arg arguments "namespace") (
            when_true "label_selector" label_selector
              (when_true "field_selector" field_selector end)))
  unfolding k8s_methods
  list-K8sCall label_selector field_selector = record {
    its_method = refl;
    in_namespace = refl;
    body_in_namespace = ground arith;
    justified = refl;
    bounded = refl;
  }

  log-K8sCall :
      (b : Backends) (pod_name : Value)
      → K8sCall "get_pod_logs" arguments "read_namespaced_pod_log" (
          field "name" pod_name
            (field "namespace" (arg arguments "namespace") (log_options b arguments)))
  unfolding k8s_methods log_options
  log-K8sCall b pod_name = record {
    its_method = refl;
    in_namespace = refl;
    body_in_namespace = ground arith;
    justified = refl;
    bounded = refl;
  }

  status-K8sCall :
      (deployment : Value)
      → K8sCall "get_deployment_status" arguments "read_namespaced_deployment"
          (target deployment (arg arguments "namespace") end)
  unfolding k8s_methods
  status-K8sCall deployment = record {
    its_method = refl;
    in_namespace = refl;
    body_in_namespace = refl;
    justified = refl;
    bounded = refl;
  }

  module _ (reasoned : has_reason arguments ≡ true) where
    restart-K8sCall :
        (deployment : Value) (stamp : String)
        → K8sCall "restart_deployment" arguments "patch_namespaced_deployment"
            (target deployment (arg arguments "namespace") (field "body" (restart_patch stamp) end))
    unfolding k8s_methods restart_patch
    restart-K8sCall deployment stamp = record {
      its_method = refl;
      in_namespace = refl;
      body_in_namespace = refl;
      justified = reasoned;
      bounded = refl;
    }

    scale-K8sCall :
        (deployment : Value)
        → is_replicas (arg arguments "replicas") ≡ true
        → K8sCall "scale_deployment" arguments "patch_namespaced_deployment_scale" (
            target deployment
              (arg arguments "namespace")
              (field "body" (replicas_body (arg arguments "replicas")) end))
    unfolding k8s_methods replicas_body is_replicas
    scale-K8sCall deployment few = record {
      its_method = refl;
      in_namespace = refl;
      body_in_namespace = refl;
      justified = reasoned;
      bounded = ground (arith, few);
    }

    exec-K8sCall :
        (pod_name command container : Value)
        → K8sCall "exec_into_pod" arguments "connect_get_namespaced_pod_exec" (
            field "name" pod_name (
              field "namespace" (arg arguments "namespace") (
                field "command" command (
                  field "stderr" (bool true) (
                    field "stdin" (bool false) (
                      field "stdout"
                        (bool true)
                        (field "tty" (bool false) (when_true "container" container end))))))))
    unfolding k8s_methods
    exec-K8sCall pod_name command container = record {
      its_method = refl;
      in_namespace = refl;
      body_in_namespace = ground arith;
      justified = reasoned;
      bounded = refl;
    }

module _ (before : Trace) (b : Backends) (arguments : Fields) where
  pub list_pods-Permits : Permits before "list_pods" arguments (list_pods b arguments)
  unfolding list_pods
  list_pods-Permits = search (permit_rules, list-K8sCall)

  pub get_pod_logs-Permits : Permits before "get_pod_logs" arguments (get_pod_logs b arguments)
  unfolding get_pod_logs
  get_pod_logs-Permits = search (permit_rules, log-K8sCall)

  pub get_deployment_status-Permits :
      Permits before "get_deployment_status" arguments (get_deployment_status b arguments)
  unfolding get_deployment_status
  get_deployment_status-Permits = search (permit_rules, status-K8sCall)

  pub restart_deployment-Permits :
      Permits before "restart_deployment" arguments (restart_deployment b arguments)
  unfolding restart_deployment
  restart_deployment-Permits = elim (Bool-cases (has_reason arguments)) [
    | inl e ↦ search (permit_rules, reason-Permits, restart-K8sCall, e) depth 16
    | inr e ↦ search (permit_rules, unreasoned-Permits, e) depth 16
  ]

  pub scale_deployment-Permits :
      Permits before "scale_deployment" arguments (scale_deployment b arguments)
  unfolding scale_deployment
  scale_deployment-Permits = elim (Bool-cases (is_replicas (arg arguments "replicas"))) [
    | inl few ↦ elim (Bool-cases (has_reason arguments)) [
      | inl e ↦ search (permit_rules, reason-Permits, scale-K8sCall, e, few) depth 16
      | inr e ↦ search (permit_rules, unreasoned-Permits, e) depth 16
    ]
    | inr few ↦ rw few (search permit_rules)
  ]

  pub exec_into_pod-Permits : Permits before "exec_into_pod" arguments (exec_into_pod b arguments)
  unfolding exec_into_pod
  exec_into_pod-Permits = elim (Bool-cases (has_reason arguments)) [
    | inl e ↦ search (permit_rules, reason-Permits, exec-K8sCall, e) depth 16
    | inr e ↦ search (permit_rules, unreasoned-Permits, e) depth 16
  ]
