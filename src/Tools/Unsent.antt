-- ===== src/Tools/Unsent.antt =====
-- The parts of the HTTP executors that send nothing: they leave the trace alone.
use mcp_control_plane.Prelude.{String, List, [], ◌∷◌}
use mcp_control_plane.Value.{Value, Fields}
use mcp_control_plane.World.{M}
use mcp_control_plane.Tools.Backend.{
  Backends, HttpAnswer, response, timed_out, unreachable, http_crash,
}
use mcp_control_plane.Tools.Terraform.{plan_id_of, changes_of}
use mcp_control_plane.Tools.Jenkins.{
  cause_text, cause_or, first_cause, build_result, crumb_fields, crumb_of,
}
use mcp_control_plane.Tools.Queries.{
  query_failed, prometheus_result, nested_get, first_assignee, incident_result, issue_result,
}
use mcp_control_plane.Traces.Stable.{Stable, stable_rules}
use mcp_control_plane.World.{Trace}
use mcp_control_plane.Tools.Jenkins.{first_cause, build_result}
use mcp_control_plane.Tools.Queries.{prometheus_result}

module _ {P : Trace → Type 0} where
  pub plan_id_of-Stable : (run : Value) → Stable P (plan_id_of run)
  unfolding plan_id_of
  plan_id_of-Stable run = search stable_rules depth 16

  pub changes_of-Stable : (plan_data : Value) → Stable P (changes_of plan_data)
  unfolding changes_of
  changes_of-Stable plan_data = search stable_rules depth 16

  cause_text-Stable : (cause : Value) → Stable P (cause_text cause)
  unfolding cause_text
  cause_text-Stable cause = search stable_rules depth 16

  cause_or-Stable :
      (later : M Value) (causes : List Value) → Stable P later → Stable P (cause_or later causes)
  unfolding cause_or
  cause_or-Stable later [] h = h
  cause_or-Stable later (cause ∷ causes) h = cause_text-Stable cause

  next_cause-Stable :
      (action : Value) (actions : List Value)
      → Stable P (first_cause actions)
      → Stable P (first_cause (action ∷ actions))
  unfolding first_cause
  next_cause-Stable action actions h = search (stable_rules, cause_or-Stable) depth 16

  first_cause-Stable : (actions : List Value) → Stable P (first_cause actions)
  unfolding first_cause
  first_cause-Stable [] = search stable_rules
  first_cause-Stable (action ∷ actions) =
      next_cause-Stable action actions (first_cause-Stable actions)

  nested_get-Stable : (d : Value) (key name : String) → Stable P (nested_get d key name)
  unfolding nested_get
  nested_get-Stable d key name = search stable_rules depth 16

  next_assignee-Stable :
      (a : Value) (rest : List Value)
      → Stable P (first_assignee rest)
      → Stable P (first_assignee (a ∷ rest))
  unfolding first_assignee
  next_assignee-Stable a rest h = search stable_rules depth 16

  first_assignee-Stable : (vs : List Value) → Stable P (first_assignee vs)
  unfolding first_assignee
  first_assignee-Stable [] = search stable_rules
  first_assignee-Stable (a ∷ rest) = next_assignee-Stable a rest (first_assignee-Stable rest)

  pub incident_result-Stable : (incident : Value) → Stable P (incident_result incident)
  unfolding incident_result
  incident_result-Stable incident =
      search (stable_rules, nested_get-Stable, first_assignee-Stable) depth 30

  pub issue_result-Stable : (ticket_id fields : Value) → Stable P (issue_result ticket_id fields)
  unfolding issue_result
  issue_result-Stable ticket_id fields = search (stable_rules, nested_get-Stable) depth 30

  crumb_fields-Stable : (issued : Value) → Stable P (crumb_fields issued)
  unfolding crumb_fields
  crumb_fields-Stable issued = search (stable_rules) depth 16

  module _ (b : Backends) where
    pub crumb_of-Stable : (a : HttpAnswer) → Stable P (crumb_of a)
    unfolding crumb_of
    crumb_of-Stable (response r) = search (stable_rules, crumb_fields-Stable) depth 16
    crumb_of-Stable timed_out = search stable_rules
    crumb_of-Stable (unreachable message) = search stable_rules
    crumb_of-Stable (http_crash message) = search stable_rules

    query_failed-Stable : (body : Value) → Stable P (query_failed b body)
    unfolding query_failed
    query_failed-Stable body = search stable_rules

    pub prometheus_result-Stable : (query body : Value) → Stable P (prometheus_result b query body)
    unfolding prometheus_result
    prometheus_result-Stable query body = search (stable_rules, query_failed-Stable) depth 16

    pub build_result-Stable :
        (arguments : Fields) (build : Value) → Stable P (build_result b arguments build)
    unfolding build_result
    build_result-Stable arguments build = search (stable_rules, first_cause-Stable) depth 30

pub ruleset unsent_rules = (
  plan_id_of-Stable, changes_of-Stable, incident_result-Stable, issue_result-Stable,
  crumb_of-Stable, prometheus_result-Stable, build_result-Stable,
)
