-- ===== src/Tools/HttpPermitted.antt =====
-- The HTTP executors send the requests that they may send; all thirteen executors do what they may do alone.
use mcp_control_plane.Prelude.{String, ◌≡◌, refl, true, Bool-cases, inl, inr, contains}
use mcp_control_plane.Value.{Value, Fields}
use mcp_control_plane.World.{Trace}
use mcp_control_plane.Traces.Stable.{Stable-throw}
use mcp_control_plane.Traces.Added.{Added, nothing, Stable-name}
use mcp_control_plane.Tools.Backend.{Backends}
use mcp_control_plane.Tools.HttpClient.{Wanted, http_get, http_post}
use mcp_control_plane.Tools.Terraform.{
  tfc_get, plan_of, run_result_of, latest_run, query_terraform_plan,
}
use mcp_control_plane.Tools.Jenkins.{get_jenkins_job_status, jenkins_crumb, trigger_jenkins_job}
use mcp_control_plane.Tools.Queries.{
  read_prometheus_metrics, open_ticket, read_pagerduty_incident, read_jira_issue, read_ticket,
}
use mcp_control_plane.Tools.Registry.{call_executor}
use mcp_control_plane.Tools.Unsent.{unsent_rules}
use mcp_control_plane.Tools.Footprint.{
  HttpCall, Permits, Permitted, permit_rules, reason-Permits, unreasoned-Permits, has_reason,
  http_verbs,
}
use mcp_control_plane.Tools.Permitted.{
  list_pods-Permits, get_pod_logs-Permits, get_deployment_status-Permits,
  restart_deployment-Permits, scale_deployment-Permits, exec_into_pod-Permits,
}
use mcp_control_plane.Tools.Placed.{apply_k8s_manifest-Permits}

module _ (arguments : Fields) where
  get-HttpCall :
      (name : String) → contains (http_verbs name) "GET" ≡ true → HttpCall name arguments "GET"
  get-HttpCall name e = record { its_verb = e; justified = refl }

  plan-HttpCall : HttpCall "query_terraform_plan" arguments "GET"
  unfolding http_verbs
  plan-HttpCall = get-HttpCall "query_terraform_plan" refl

  status-HttpCall : HttpCall "get_jenkins_job_status" arguments "GET"
  unfolding http_verbs
  status-HttpCall = get-HttpCall "get_jenkins_job_status" refl

  metrics-HttpCall : HttpCall "read_prometheus_metrics" arguments "GET"
  unfolding http_verbs
  metrics-HttpCall = get-HttpCall "read_prometheus_metrics" refl

  ticket-HttpCall : HttpCall "read_ticket" arguments "GET"
  unfolding http_verbs
  ticket-HttpCall = get-HttpCall "read_ticket" refl

  crumb-HttpCall : HttpCall "trigger_jenkins_job" arguments "GET"
  unfolding http_verbs
  crumb-HttpCall = get-HttpCall "trigger_jenkins_job" refl

  trigger-HttpCall : has_reason arguments ≡ true → HttpCall "trigger_jenkins_job" arguments "POST"
  unfolding http_verbs
  trigger-HttpCall e = record { its_verb = refl; justified = e }

module _ (before : Trace) (b : Backends) (arguments : Fields) where
  get-Permits :
      (name : String) (w : Wanted) (url : String) (params : Value)
      → HttpCall name arguments "GET"
      → Permits before name arguments (http_get b w url params)
  unfolding http_get
  get-Permits name w url params k = search (permit_rules, k)

  tfc_get-Permits :
      (path message : String) (params : Value)
      → Permits before "query_terraform_plan" arguments (tfc_get b path message params)
  unfolding tfc_get
  tfc_get-Permits path message params = search (permit_rules, get-Permits, plan-HttpCall)

  plan_of-Permits :
      (plan_id : Value) → Permits before "query_terraform_plan" arguments (plan_of b plan_id)
  unfolding plan_of
  plan_of-Permits plan_id = search (permit_rules, unsent_rules, tfc_get-Permits) depth 16

  run_result_of-Permits :
      (run : Value)
      → Permits before "query_terraform_plan" arguments (run_result_of b arguments run)
  unfolding run_result_of
  run_result_of-Permits run = search (permit_rules, unsent_rules, plan_of-Permits) depth 30

  latest_run-Permits : Permits before "query_terraform_plan" arguments (latest_run b arguments)
  unfolding latest_run
  latest_run-Permits = search (permit_rules, tfc_get-Permits, run_result_of-Permits) depth 30

  plan-Permits : Permits before "query_terraform_plan" arguments (query_terraform_plan b arguments)
  unfolding query_terraform_plan
  plan-Permits = search (permit_rules, latest_run-Permits)

  status-Permits :
      Permits before "get_jenkins_job_status" arguments (get_jenkins_job_status b arguments)
  unfolding get_jenkins_job_status
  status-Permits = search (permit_rules, unsent_rules, get-Permits, status-HttpCall) depth 16

  crumb-Permits : Permits before "trigger_jenkins_job" arguments (jenkins_crumb b)
  unfolding jenkins_crumb
  crumb-Permits = search (permit_rules, unsent_rules, crumb-HttpCall)

  trigger-Permits : Permits before "trigger_jenkins_job" arguments (trigger_jenkins_job b arguments)
  unfolding trigger_jenkins_job http_post
  trigger-Permits = elim (Bool-cases (has_reason arguments)) [
    | inl e ↦ search (permit_rules, reason-Permits, crumb-Permits, trigger-HttpCall, e) depth 16
    | inr e ↦ search (permit_rules, unreasoned-Permits, e) depth 16
  ]

  metrics-Permits :
      Permits before "read_prometheus_metrics" arguments (read_prometheus_metrics b arguments)
  unfolding read_prometheus_metrics
  metrics-Permits = search (permit_rules, unsent_rules, get-Permits, metrics-HttpCall) depth 16

  pagerduty-Permits :
      (ticket_id : Value)
      → Permits before "read_ticket" arguments (read_pagerduty_incident b ticket_id)
  unfolding read_pagerduty_incident
  pagerduty-Permits ticket_id =
      search (permit_rules, unsent_rules, get-Permits, ticket-HttpCall) depth 16

  jira-Permits :
      (ticket_id : Value) → Permits before "read_ticket" arguments (read_jira_issue b ticket_id)
  unfolding read_jira_issue
  jira-Permits ticket_id =
      search (permit_rules, unsent_rules, get-Permits, ticket-HttpCall) depth 16

  ticket-Permits : Permits before "read_ticket" arguments (read_ticket b arguments)
  unfolding read_ticket
  ticket-Permits = search (permit_rules, pagerduty-Permits, jira-Permits)

  open-Permits : Permits before "open_ticket" arguments (open_ticket arguments)
  unfolding open_ticket
  open-Permits = search permit_rules

  executor-Permits :
      (name : String) → Permits before name arguments (call_executor b name arguments)
  unfolding call_executor
  executor-Permits name =
      let P : String → Trace → Type 0 = λ n. Added (Permitted n arguments) before in
      Stable-name P name _ _ _ (list_pods-Permits before b arguments) (
        Stable-name P name _ _ _ (get_pod_logs-Permits before b arguments) (
          Stable-name P name _ _ _ (get_deployment_status-Permits before b arguments) (
            Stable-name P name _ _ _ (restart_deployment-Permits before b arguments) (
              Stable-name P name _ _ _ (scale_deployment-Permits before b arguments) (
                Stable-name P name _ _ _ (exec_into_pod-Permits before b arguments) (
                  Stable-name P name _ _ _ (apply_k8s_manifest-Permits before b arguments) (
                    Stable-name P name _ _ _ plan-Permits (
                      Stable-name P name _ _ _ trigger-Permits (
                        Stable-name P name _ _ _ status-Permits (
                          Stable-name P name _ _ _ metrics-Permits (
                            Stable-name P name _ _ _ open-Permits
                              (Stable-name P name _ _ _ ticket-Permits (Stable-throw _)))))))))))))

-- Whatever the tool's name, the arguments and the answers of the backends, an executor does nothing but read
-- the clock, look a kind up, and make calls that its tool may make: on the Kubernetes API, its tool's method,
-- on the namespace of the arguments and, for an applied manifest, with that namespace in its metadata; over
-- HTTP, GET requests, or those of trigger_jenkins_job; every call that does not only read has a reason of 10
-- to 500 characters in the arguments; and no deployment is scaled beyond 20 replicas.
pub call_executor-Permitted :
    (b : Backends) (name : String) (arguments : Fields) (before : Trace)
    → Added (Permitted name arguments) before (call_executor b name arguments before).1
call_executor-Permitted b name arguments before =
    (executor-Permits before b arguments name).at before nothing
