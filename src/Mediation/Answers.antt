-- ===== src/Mediation/Answers.antt =====
-- When the services work, a tool call is answered: no exception ends its handling.
use mcp_control_plane.Prelude.{ℕ, String, ◌≡◌, refl, true, Option, none, some, arith, ◌∷◌}
use mcp_control_plane.Value.{ℤ, Value, Fields, end, obj, get}
use mcp_control_plane.World.{
  Env, Trace, ok, ◌>>=◌, ◌>>◌, ToolReply, returned, crashed, ran_tool, AuditRow, Expiry, refused,
  HttpReply, SlackReply, delivered, slack_http_error, slack_crash, http_error, not_json, json,
  fetch_last_hash, insert_row, redis_set, time_now, read_clock,
}
use mcp_control_plane.Interceptor.{Agent, ToolCallContext, infer_environment}
use mcp_control_plane.Policy.{PolicyDecision, evaluate_policy, opa_result, decision_of, or_empty}
use mcp_control_plane.Mediation.Policy.{policy_input}
use mcp_control_plane.Approvals.{Approval, create_pending_approval, fresh_id}
use mcp_control_plane.Slack.{approval_message, send_approval_request}
use mcp_control_plane.Audit.{AuditEvent, record_tool_call, count_tool_call}
use mcp_control_plane.Telemetry.{Instrument, add}
use mcp_control_plane.Execution.{
  success, executor_error, unhandled_error, error_type_status, AuditCall, audit, audit_event,
  outcome_of,
}
use mcp_control_plane.Gateway.{hold_for_approval, deny, answer, run, enforce, after_lookup}
use mcp_control_plane.Mediation.Serving.{
  Serving, usable_result, usable, Answers, Answers-pure, Answers-if, Answers-bind, known_status,
  answer_rules,
}

module _ (env : Env) (s : Serving env) where
  fetch-Answers : Answers (fetch_last_hash env)
  unfolding fetch_last_hash
  fetch-Answers = record {
    at = λ tr. let (o, e) = s.services.hashes tr in (o, rw (fetch_last_hash, e) refl);
  }

  insert-Answers : (row : AuditRow) → Answers (insert_row env row)
  unfolding insert_row
  insert-Answers row = record { at = λ tr. (tt, rw (s.services.inserts tr row) refl) }

  add-Answers : (i : Instrument) (amount : ℤ) (labels : Fields) → Answers (add i amount labels)
  unfolding add
  add-Answers i amount labels = record { at = λ tr. (tt, refl) }

  count-Answers : (e : AuditEvent) → Answers (count_tool_call e)
  unfolding count_tool_call
  count-Answers e = record { at = λ tr. (tt, ground arith) }

  record-Answers :
      (row : Option String → AuditRow) (e : AuditEvent)
      → Answers (fetch_last_hash env >>= λ o. insert_row env (row o) >> count_tool_call e)
  record-Answers row e = search (answer_rules, fetch-Answers, insert-Answers, count-Answers)

  audit-Answers : (c : AuditCall) → Answers (audit env c)
  unfolding audit record_tool_call
  audit-Answers c = record {
    at = λ tr.
        (record-Answers _ (audit_event c (env.elapsed_ms tr) (env.now tr))).at (read_clock ∷ tr);
  }

  set-Answers : (key : String) (v : Value) (e : Expiry) → Answers (redis_set env key v e)
  unfolding redis_set
  set-Answers key v e = record { at = λ tr. (tt, rw (redis_set, s.services.sets tr key v e) refl) }

  time-Answers : Answers (time_now env)
  unfolding time_now
  time-Answers = record { at = λ tr. (env.now tr, refl) }

  id-Answers : Answers (fresh_id env)
  id-Answers = record { at = λ tr. (env.new_uuid tr, refl) }

  create-Answers :
      (agent_id role tool_name : String) (arguments : Fields) (reason : String)
      → Answers (create_pending_approval env agent_id role tool_name arguments reason)
  unfolding create_pending_approval
  create-Answers agent_id role tool_name arguments reason =
      search (answer_rules, time-Answers, id-Answers, set-Answers, add-Answers) depth 12

  sent :
      (a : Approval) (tr : Trace) (r : SlackReply)
      → env.slack tr (approval_message env a) ≡ r
      → (u : Unit {0}) × ((send_approval_request env a tr).0 ≡ ok u)
  unfolding send_approval_request
  sent a tr delivered e = (tt, ground (arith, e))
  sent a tr slack_http_error e = (tt, ground (arith, e))
  sent a tr (slack_crash error) e =
      absurd (ground (arith, s.services.notifies tr (approval_message env a), e))

  send-Answers : (a : Approval) → Answers (send_approval_request env a)
  send-Answers a = record { at = λ tr. sent a tr (env.slack tr (approval_message env a)) refl }

  module _ (rpc_id : Value) (c : ToolCallContext) (name : String) (d : PolicyDecision) where
    hold-Answers : Answers (hold_for_approval env rpc_id c name d)
    unfolding hold_for_approval
    hold-Answers = search (answer_rules, create-Answers, send-Answers, audit-Answers)

    deny-Answers : Answers (deny env rpc_id c name d)
    unfolding deny
    deny-Answers = search (answer_rules, audit-Answers)

    success-Answers : (v : Value) → Answers (answer env rpc_id c name d (success v))
    unfolding answer
    success-Answers v = search (answer_rules, audit-Answers)

    crash-Answers : (m : String) → Answers (answer env rpc_id c name d (unhandled_error m))
    unfolding answer
    crash-Answers m = search (answer_rules, audit-Answers)

    refusal-Answers :
        (t m : String) (n : ℕ)
        → error_type_status t ≡ ok n
        → Answers (answer env rpc_id c name d (executor_error t m))
    unfolding answer
    refusal-Answers t m n e = rw e (search (answer_rules, audit-Answers))

    outcome-Answers :
        (r : ToolReply) (tr : Trace)
        → env.tool tr name c.arguments ≡ r
        → Answers (answer env rpc_id c name d (outcome_of r))
    unfolding outcome_of
    outcome-Answers (returned v) tr e = success-Answers v
    outcome-Answers (refused t m) tr e =
        let (n, k) = known_status t (s.types tr name c.arguments t m e) in refusal-Answers t m n k
    outcome-Answers (crashed m) tr e = crash-Answers m

    run-Answers : Answers (run env rpc_id c name d)
    unfolding run
    run-Answers = record {
      at = λ tr.
          (outcome-Answers (env.tool tr name c.arguments) tr refl).at
            (ran_tool name c.arguments ∷ tr);
    }

    enforce-Answers : Answers (enforce env rpc_id c name d)
    unfolding enforce
    enforce-Answers = search (answer_rules, hold-Answers, deny-Answers, run-Answers)

  module _ (c : ToolCallContext) where
    result_decision :
        (o : Option Value)
        → usable_result o ≡ true
        → (x : Option Value) × (d : PolicyDecision) × (some (or_empty o) ≡ x)
          × (decision_of env c x ≡ ok d)
    unfolding decision_of
    result_decision none h = (some (obj end), _, refl, refl)
    result_decision (some (obj result)) h = (some (obj result), _, refl, refl)
    result_decision (some _) h = absurd (ground arith)

    reply_decision :
        (r : HttpReply)
        → usable r ≡ true
        → (x : Option Value) × (d : PolicyDecision) × (opa_result r ≡ ok x)
          × (decision_of env c x ≡ ok d)
    unfolding opa_result decision_of
    reply_decision http_error h = (none, _, refl, refl)
    reply_decision not_json h = (none, _, refl, refl)
    reply_decision (json (obj body)) h =
        let (x, d, e1, e2) = result_decision (get body "result") h in (x, d, rw e1 refl, e2)
    reply_decision (json _) h = absurd (ground arith)

    evaluate-Answers :
        (environment : String)
        → infer_environment c.arguments ≡ ok environment
        → Answers (evaluate_policy env c)
    unfolding evaluate_policy
    evaluate-Answers environment inferred = record {
      at = λ tr.
          let (x, d, e1, e2) =
            reply_decision (env.opa tr (policy_input c environment))
              (s.services.policies tr (policy_input c environment)) in
          (d, ground (arith, e1, e2, inferred));
    }

  pub after_lookup-Answers :
      (rpc_id : Value) (agent : Agent) (c : ToolCallContext) (environment : String)
      → infer_environment c.arguments ≡ ok environment
      → (o : Option String) → Answers (after_lookup env rpc_id agent c o)
  unfolding after_lookup
  after_lookup-Answers rpc_id agent c environment e none = search answer_rules
  after_lookup-Answers rpc_id agent c environment e (some name) =
      Answers-if _ _ _ (Answers-pure _) (
        Answers-bind (evaluate_policy env c) (enforce env rpc_id c name)
          (evaluate-Answers c environment e) (enforce-Answers rpc_id c name))
