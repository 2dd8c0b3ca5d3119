-- ===== src/App/Kept.antt =====
-- What every request keeps of the rows and of what was counted of them, if the writing of a row does.
use mcp_control_plane.Prelude.{String, Option, none, some, arith, List, Option-cases, inl, inr}
use mcp_control_plane.Value.{Value, obj, Fields}
use mcp_control_plane.World.{
  Env, Trace, Result, ok, raise, missing_param, M, DecisionRequest, DecisionBody, valid, invalid,
}
use mcp_control_plane.Interceptor.{Agent, ToolCallContext, intercept_tool_call}
use mcp_control_plane.Policy.{PolicyDecision}
use mcp_control_plane.Approvals.{Approval, DecideOutcome, decided, not_found, already_decided}
use mcp_control_plane.Http.{Body, not_json, undecodable, json}
use mcp_control_plane.Execution.{
  AuditCall, audit, ExecutionOutcome, success, executor_error, unhandled_error,
}
use mcp_control_plane.Gateway.{
  hold_for_approval, deny, answer, run, enforce, after_lookup, after_intercept, tools_call,
  mcp_call, mcp,
}
use mcp_control_plane.Decisions.{
  DecideHttp, log_denial, report, resume, after_decision, decide_payload, decide, approval_status,
}
use mcp_control_plane.RateLimit.{limited, rate_limit}
use mcp_control_plane.Auth.{agent_of, authenticate}
use mcp_control_plane.Http.{Response}
use mcp_control_plane.App.{
  Site, Route, post_mcp, get_sse, post_decide, get_status, get_audit, get_export, get_live,
  get_ready, Request, endpoint, rendered, handler, limit_then, serve, sse,
}
use mcp_control_plane.Query.{query_audit_log}
use mcp_control_plane.AuditApi.{get_audit_log}
use mcp_control_plane.ExportApi.{export_audit_log_endpoint}
use mcp_control_plane.Traces.Stable.{Stable, stable_rules}
use mcp_control_plane.Traces.Views.{logged}
use mcp_control_plane.Traces.{Keeps}
use mcp_control_plane.App.Calls.{call_rules}

ruleset kept_rules = (stable_rules, call_rules)

-- A property of the trace that only the rows and their counts bear on, and that the writing of a row keeps.
pub record Preserved (env : Env) (P : Trace → Type 0) : Type 1 where
  pub keeps : (A : Type 0) (m : M A) → Keeps logged m → Stable P m
  pub audits : (c : AuditCall) → Stable P (audit env c)

module _ (env : Env) (P : Trace → Type 0) (p : Preserved env P) where
  module _ (rpc_id : Value) (c : ToolCallContext) (name : String) (d : PolicyDecision) where
    hold-Stable : Stable P (hold_for_approval env rpc_id c name d)
    unfolding hold_for_approval
    hold-Stable = search (kept_rules, p.keeps, p.audits)

    deny-Stable : Stable P (deny env rpc_id c name d)
    unfolding deny
    deny-Stable = search (kept_rules, p.keeps, p.audits)

    answer-Stable : (o : ExecutionOutcome) → Stable P (answer env rpc_id c name d o)
    unfolding answer
    answer-Stable (success v) = search (kept_rules, p.keeps, p.audits)
    answer-Stable (executor_error t m) = search (kept_rules, p.keeps, p.audits)
    answer-Stable (unhandled_error m) = search (kept_rules, p.keeps, p.audits)

    enforce-Stable : Stable P (enforce env rpc_id c name d)
    unfolding enforce run
    enforce-Stable = search (kept_rules, p.keeps, hold-Stable, deny-Stable, answer-Stable)

  module _ (rpc_id : Value) (agent : Agent) where
    after_lookup-Stable :
        (c : ToolCallContext) (o : Option String) → Stable P (after_lookup env rpc_id agent c o)
    unfolding after_lookup
    after_lookup-Stable c none = search kept_rules
    after_lookup-Stable c (some name) = search (kept_rules, p.keeps, enforce-Stable)

    after_intercept-Stable :
        (r : Result ToolCallContext) → Stable P (after_intercept env rpc_id agent r)
    unfolding after_intercept
    after_intercept-Stable (ok c) = search (kept_rules, p.keeps, after_lookup-Stable)
    after_intercept-Stable (raise (missing_param f m)) = search kept_rules
    after_intercept-Stable (raise _) = search kept_rules

    intercept-Stable : (params : Value) → Stable P (intercept_tool_call env params agent)
    unfolding intercept_tool_call
    intercept-Stable params = p.keeps _ _ (record { at = λ tr. ground arith })

    tools_call-Stable : (params : Value) → Stable P (tools_call env rpc_id params agent)
    unfolding tools_call
    tools_call-Stable params = record {
      at = λ tr p.
          (after_intercept-Stable (intercept_tool_call env params agent tr).0).at
            (intercept_tool_call env params agent tr).1 ((intercept-Stable params).at tr p);
    }

  mcp_call-Stable : (agent : Agent) (body : Fields) → Stable P (mcp_call env agent body)
  unfolding mcp_call
  mcp_call-Stable agent body = search (kept_rules, p.keeps, tools_call-Stable)

  mcp-Stable : (agent : Agent) (body : Body) → Stable P (mcp env agent body)
  unfolding mcp
  mcp-Stable agent not_json = search kept_rules
  mcp-Stable agent undecodable = search kept_rules
  mcp-Stable agent (json (obj body)) = mcp_call-Stable agent body
  mcp-Stable agent (json _) = search kept_rules

  module _ (payload : DecisionRequest) where
    report-Stable : (a : Approval) (o : ExecutionOutcome) → Stable P (report env payload a o)
    unfolding report
    report-Stable a (success v) = search (kept_rules, p.keeps, p.audits)
    report-Stable a (executor_error t m) = search (kept_rules, p.keeps, p.audits)
    report-Stable a (unhandled_error m) = search (kept_rules, p.keeps, p.audits)

    after_decision-Stable :
        (x : Option Approval × DecideOutcome) → Stable P (after_decision env payload x)
    unfolding after_decision log_denial resume
    after_decision-Stable (o, not_found) = search kept_rules
    after_decision-Stable (none, already_decided) = search kept_rules
    after_decision-Stable (some a, already_decided) = search kept_rules
    after_decision-Stable (none, decided) = search kept_rules
    after_decision-Stable (some a, decided) = search (kept_rules, p.keeps, p.audits, report-Stable)

  decide_payload-Stable : (id : String) (b : DecisionBody) → Stable P (decide_payload env id b)
  unfolding decide_payload
  decide_payload-Stable id (invalid m) = search kept_rules
  decide_payload-Stable id (valid payload) = search (kept_rules, p.keeps, after_decision-Stable)

  decide-Stable : (id : String) (r : DecideHttp) → Stable P (decide env id r)
  unfolding decide
  decide-Stable id r = search (kept_rules, p.keeps, decide_payload-Stable)

  endpoint-Stable : (site : Site) (r : Route) (o : Option Agent) → Stable P (endpoint env site r o)
  unfolding endpoint approval_status sse get_audit_log query_audit_log export_audit_log_endpoint
  endpoint-Stable site (post_mcp body) none = search kept_rules
  endpoint-Stable site (post_mcp body) (some agent) = mcp-Stable agent body
  endpoint-Stable site get_sse none = search kept_rules
  endpoint-Stable site get_sse (some agent) = search kept_rules
  endpoint-Stable site (post_decide id r) o = decide-Stable id r
  endpoint-Stable site (get_status id) o = search (kept_rules, p.keeps)
  endpoint-Stable site (get_audit q) o = search (kept_rules, p.keeps) depth 16
  endpoint-Stable site (get_export from_text to_text) o = record { at = λ tr p. ground (arith, p) }
  endpoint-Stable site get_live o = search kept_rules
  endpoint-Stable site get_ready o = search kept_rules

  rendered-Stable : (m : M Response) → Stable P m → Stable P (rendered env m)
  unfolding rendered
  rendered-Stable m s = search kept_rules

  handler-Stable : (site : Site) (r : Route) (o : Option Agent) → Stable P (handler env site r o)
  unfolding handler
  handler-Stable site r o = rendered-Stable (endpoint env site r o) (endpoint-Stable site r o)

  limit_then-Stable :
      (site : Site) (r : Request) (o : Option Agent) → Stable P (limit_then env site r o)
  unfolding limit_then rate_limit limited
  limit_then-Stable site r none = search (kept_rules, p.keeps, handler-Stable)
  limit_then-Stable site r (some agent) = search (kept_rules, p.keeps, handler-Stable)

  pub serve-Stable :
      (site : Site) (keys : List (String × Agent)) (r : Request) → Stable P (serve env site keys r)
  unfolding serve authenticate
  serve-Stable site keys r = elim (Option-cases (agent_of keys r.api_key)) [
    | inl e ↦ rw e (search (kept_rules, p.keeps, limit_then-Stable))
    | inr (agent, e) ↦ rw e (search (kept_rules, p.keeps, limit_then-Stable))
  ]
