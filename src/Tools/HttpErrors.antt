-- ===== src/Tools/HttpErrors.antt =====
-- The error types of the HTTP executors, and of all thirteen.
use mcp_control_plane.Prelude.{String, refl, List, [], ◌∷◌, arith}
use mcp_control_plane.Value.{Value, Fields}
use mcp_control_plane.World.{M, lift}
use mcp_control_plane.Traces.Raising.{Raising, Raising-lift}
use mcp_control_plane.Tools.Backend.{
  Backends, HttpAnswer, response, timed_out, unreachable, http_crash, http_request,
}
use mcp_control_plane.Tools.Terraform.{
  plan_id_of, changes_of, plan_of, run_result_of, latest_run, query_terraform_plan,
}
use mcp_control_plane.Tools.Jenkins.{
  cause_text, cause_or, first_cause, header, build_result, get_jenkins_job_status, crumb_fields,
  crumb_of, jenkins_crumb, trigger_jenkins_job,
}
use mcp_control_plane.Tools.Queries.{
  query_failed, prometheus_result, read_prometheus_metrics, nested_get, first_assignee,
  incident_result, read_pagerduty_incident, issue_result, read_jira_issue, read_ticket,
}
use mcp_control_plane.Tools.Registry.{call_executor}
use mcp_control_plane.Tools.Errors.{
  is_known, call_rules, require_reason-Known, get_pod_logs-Known, list_pods-Known,
  exec_into_pod-Known, get_deployment_status-Known, restart_deployment-Known,
  scale_deployment-Known, apply_k8s_manifest-Known,
}

plan_id_of-Known : (run : Value) → Raising is_known (plan_id_of run)
unfolding plan_id_of
plan_id_of-Known run = search call_rules depth 16

changes_of-Known : (plan_data : Value) → Raising is_known (changes_of plan_data)
unfolding changes_of
changes_of-Known plan_data = search call_rules depth 16

cause_text-Known : (cause : Value) → Raising is_known (cause_text cause)
unfolding cause_text
cause_text-Known cause = search call_rules depth 16

cause_or-Known :
    (later : M Value) (causes : List Value)
    → Raising is_known later
    → Raising is_known (cause_or later causes)
unfolding cause_or
cause_or-Known later [] h = h
cause_or-Known later (cause ∷ causes) h = cause_text-Known cause

next_cause-Known :
    (action : Value) (actions : List Value)
    → Raising is_known (first_cause actions)
    → Raising is_known (first_cause (action ∷ actions))
unfolding first_cause
next_cause-Known action actions h = search (call_rules, cause_or-Known) depth 16

first_cause-Known : (actions : List Value) → Raising is_known (first_cause actions)
unfolding first_cause
first_cause-Known [] = search call_rules
first_cause-Known (action ∷ actions) = next_cause-Known action actions (first_cause-Known actions)

nested_get-Known : (d : Value) (key name : String) → Raising is_known (nested_get d key name)
unfolding nested_get
nested_get-Known d key name = search call_rules depth 16

next_assignee-Known :
    (a : Value) (rest : List Value)
    → Raising is_known (first_assignee rest)
    → Raising is_known (first_assignee (a ∷ rest))
unfolding first_assignee
next_assignee-Known a rest h = search call_rules depth 16

first_assignee-Known : (vs : List Value) → Raising is_known (first_assignee vs)
unfolding first_assignee
first_assignee-Known [] = search call_rules
first_assignee-Known (a ∷ rest) = next_assignee-Known a rest (first_assignee-Known rest)

incident_result-Known : (incident : Value) → Raising is_known (incident_result incident)
unfolding incident_result
incident_result-Known incident =
    search (call_rules, nested_get-Known, first_assignee-Known) depth 30

issue_result-Known : (ticket_id fields : Value) → Raising is_known (issue_result ticket_id fields)
unfolding issue_result
issue_result-Known ticket_id fields = search (call_rules, nested_get-Known) depth 30

header-Known : (name v : Value) → Raising is_known (lift (header name v))
header-Known name v = Raising-lift (header name v) (ground arith)

crumb_fields-Known : (issued : Value) → Raising is_known (crumb_fields issued)
unfolding crumb_fields
crumb_fields-Known issued = search (call_rules, header-Known) depth 16

module _ (b : Backends) where
  plan_of-Known : (plan_id : Value) → Raising is_known (plan_of b plan_id)
  unfolding plan_of
  plan_of-Known plan_id = search (call_rules, changes_of-Known) depth 16

  crumb_of-Known : (a : HttpAnswer) → Raising is_known (crumb_of a)
  unfolding crumb_of
  crumb_of-Known (response r) = search (call_rules, crumb_fields-Known) depth 16
  crumb_of-Known timed_out = search call_rules
  crumb_of-Known (unreachable message) = search call_rules
  crumb_of-Known (http_crash message) = search call_rules

  http_request-Known :
      (verb url : String) (params : Value) (headers : Fields)
      → Raising is_known (http_request b verb url params headers)
  unfolding http_request
  http_request-Known verb url params headers = record { at = λ tr. refl }

  jenkins_crumb-Known : Raising is_known (jenkins_crumb b)
  unfolding jenkins_crumb
  jenkins_crumb-Known = search (call_rules, crumb_of-Known, http_request-Known)

  query_failed-Known : (body : Value) → Raising is_known (query_failed b body)
  unfolding query_failed
  query_failed-Known body = search call_rules

  prometheus_result-Known : (query body : Value) → Raising is_known (prometheus_result b query body)
  unfolding prometheus_result
  prometheus_result-Known query body = search (call_rules, query_failed-Known) depth 16

  pagerduty-Known : (ticket_id : Value) → Raising is_known (read_pagerduty_incident b ticket_id)
  unfolding read_pagerduty_incident
  pagerduty-Known ticket_id = search (call_rules, incident_result-Known) depth 16

  jira-Known : (ticket_id : Value) → Raising is_known (read_jira_issue b ticket_id)
  unfolding read_jira_issue
  jira-Known ticket_id = search (call_rules, issue_result-Known) depth 16

  module _ (arguments : Fields) where
    run_result_of-Known : (run : Value) → Raising is_known (run_result_of b arguments run)
    unfolding run_result_of
    run_result_of-Known run = search (call_rules, plan_id_of-Known, plan_of-Known) depth 30

    latest_run-Known : Raising is_known (latest_run b arguments)
    unfolding latest_run
    latest_run-Known = search (call_rules, run_result_of-Known) depth 30

    query_terraform_plan-Known : Raising is_known (query_terraform_plan b arguments)
    unfolding query_terraform_plan
    query_terraform_plan-Known = search (call_rules, latest_run-Known)

    build_result-Known : (build : Value) → Raising is_known (build_result b arguments build)
    unfolding build_result
    build_result-Known build = search (call_rules, first_cause-Known) depth 30

    get_jenkins_job_status-Known : Raising is_known (get_jenkins_job_status b arguments)
    unfolding get_jenkins_job_status
    get_jenkins_job_status-Known = search (call_rules, build_result-Known) depth 16

    trigger_jenkins_job-Known : Raising is_known (trigger_jenkins_job b arguments)
    unfolding trigger_jenkins_job
    trigger_jenkins_job-Known =
        search (call_rules, require_reason-Known, jenkins_crumb-Known) depth 16

    read_prometheus_metrics-Known : Raising is_known (read_prometheus_metrics b arguments)
    unfolding read_prometheus_metrics
    read_prometheus_metrics-Known = search (call_rules, prometheus_result-Known) depth 16

    read_ticket-Known : Raising is_known (read_ticket b arguments)
    unfolding read_ticket
    read_ticket-Known = search (call_rules, pagerduty-Known, jira-Known)

    pub call_executor-Known : (name : String) → Raising is_known (call_executor b name arguments)
    unfolding call_executor
    call_executor-Known name =
        search
          (
            call_rules, list_pods-Known, get_pod_logs-Known, get_deployment_status-Known,
            restart_deployment-Known, scale_deployment-Known, exec_into_pod-Known,
            apply_k8s_manifest-Known, query_terraform_plan-Known, trigger_jenkins_job-Known,
            get_jenkins_job_status-Known, read_prometheus_metrics-Known, read_ticket-Known,
          )
          depth 20
