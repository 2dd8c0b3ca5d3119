-- ===== src/Mediation/Resumed.antt =====
-- The decide endpoint: a held call is resumed only behind a genuine callback that approves it.
use mcp_control_plane.Prelude.{
  if◌then◌else◌, ap, String, ◌≡◌, ◌≢◌, refl, ◌∙◌, Bool, true, false, not, ◌||◌, Option, none, some,
  arith, ◌∷◌, eq_iff, ◌==◌, inl, inr, ◌⊎◌, Bool-cases,
}
use mcp_control_plane.World.{
  pure, Env, Trace, Result, ok, raise, DecisionRequest, DecisionBody, invalid, valid, continue,
}
use mcp_control_plane.Approvals.{
  Approval, decide_approval, DecideOutcome, decided, not_found, already_decided,
}
use mcp_control_plane.Approvals.Lifecycle.{Resolves, decide_approval-Resolves}
use mcp_control_plane.Slack.{verify_signature}
use mcp_control_plane.Slack.Genuine.{Genuine, verify_signature-Genuine, verify_signature-runs}
use mcp_control_plane.Http.{json_response}
use mcp_control_plane.Decisions.{
  error_body, DecideHttp, log_denial, resume, after_decision, decide_payload, decide,
}
use mcp_control_plane.Traces.{Keeps}
use mcp_control_plane.Traces.Views.{runs}

-- What has been checked of a held call that is resumed.
pub record ResumeAuthorised (env : Env) (approval_id : String) (request : DecideHttp) (tr : Trace)
    (a : Approval) : Type 0 where
  pub payload : DecisionRequest
  pub parsed : env.parse_decision request.body ≡ valid payload
  pub approves : payload.decision ≡ "approve"
  pub genuine : Genuine env (env.now tr) request.timestamp request.body request.signature
  pub asked : Trace
  pub resolves : Resolves env approval_id payload.decision payload.decided_by asked a

module _ (env : Env) (p : DecisionRequest) where
  log_denial-runs : (a : Approval) → Keeps runs (log_denial env p a)
  unfolding log_denial
  log_denial-runs a = record { at = λ tr. ground arith }

  resume-runs :
      (a : Approval) (tr : Trace)
      → runs (resume env p a tr).1 ≡ (a.tool_name, a.arguments) ∷ runs tr
  unfolding resume
  resume-runs a tr = ground arith

  decide_approval-runs : (id d by : String) → Keeps runs (decide_approval env id d by)
  unfolding decide_approval
  decide_approval-runs id d by = record { at = λ tr. ground arith }

  -- The tool of a decided approval runs, unless it was denied; nothing else does.
  after_decision-runs :
      (o : Option Approval) (out : DecideOutcome) (tr : Trace)
      → (runs (after_decision env p (o, out) tr).1 ≡ runs tr)
        ⊎ ((a : Approval) × (o ≡ some a)
            × (out ≡ decided)
            × (a.status ≢ "denied")
            × (runs (after_decision env p (o, out) tr).1 ≡ (a.tool_name, a.arguments) ∷ runs tr))
  unfolding after_decision
  after_decision-runs o not_found tr = inl refl
  after_decision-runs none already_decided tr = inl refl
  after_decision-runs (some a) already_decided tr = inl refl
  after_decision-runs none decided tr = inl refl
  after_decision-runs (some a) decided tr = elim (Bool-cases (a.status == "denied")) [
    | inl d ↦ inl (rw d ((log_denial-runs a).at tr))
    | inr n ↦ inr (a, refl, refl, ground (arith, eq_iff a.status "denied"), rw n (resume-runs a tr))
  ]

module _ (env : Env) (approval_id : String) (request : DecideHttp) (tr : Trace) where
  abbrev pub Resumed : Trace → Type 0
  Resumed after =
      (runs after ≡ runs tr)
      ⊎ ((a : Approval) × (runs after ≡ (a.tool_name, a.arguments) ∷ runs tr)
          × ResumeAuthorised env approval_id request tr a)

  module _ (p : DecisionRequest) (parsed : env.parse_decision request.body ≡ valid p)
      (genuine : Genuine env (env.now tr) request.timestamp request.body request.signature) where
    result-Resumed :
        (asked : Trace)
        → runs asked ≡ runs tr
        → p.decision ≡ "approve" ⊎ p.decision ≡ "deny"
        → (r : Result (Option Approval × DecideOutcome))
        → (decide_approval env approval_id p.decision p.decided_by asked).0 ≡ r
        → Resumed
            (continue r
              (after_decision env p)
              (decide_approval env approval_id p.decision p.decided_by asked).1).1
    result-Resumed asked same which (raise e) h =
        inl ((decide_approval-runs env p approval_id p.decision p.decided_by).at asked ∙ same)
    result-Resumed asked same which (ok (o, out)) h =
        let k = (decide_approval-runs env p approval_id p.decision p.decided_by).at asked ∙ same in
        elim (after_decision-runs env p o out
          (decide_approval env approval_id p.decision p.decided_by asked).1) [
            | inl e ↦ inl (e ∙ k)
            | inr (a, is_some, is_decided, undenied, e) ↦
                let r =
                  decide_approval-Resolves env approval_id p.decision p.decided_by asked a (cc) in
                inr (
                  a,
                  rw (← k) e,
                  record {
                    payload = p;
                    parsed = parsed;
                    approves = ground (arith, r.result, eq_iff p.decision "approve");
                    genuine = genuine;
                    asked = asked;
                    resolves = r;
                  },
                )
          ]

  payload-Resumed :
      (b : DecisionBody) (asked : Trace)
      → runs asked ≡ runs tr
      → env.parse_decision request.body ≡ b
      → Genuine env (env.now tr) request.timestamp request.body request.signature
      → Resumed (decide_payload env approval_id b asked).1
  unfolding decide_payload
  payload-Resumed (invalid m) asked same e g = inl same
  payload-Resumed (valid p) asked same e g =
      elim (Bool-cases (p.decision == "approve" || p.decision == "deny")) [
        | inl known ↦ rw known (
            result-Resumed p e g asked same
              (ground (arith, eq_iff p.decision "approve", eq_iff p.decision "deny")) _ refl)
        | inr unknown ↦ rw unknown (inl same)
      ]

  verified-Resumed :
      (genuine : Bool) (asked : Trace)
      → runs asked ≡ runs tr
      → (genuine ≡ true → Genuine env (env.now tr) request.timestamp request.body request.signature)
      → Resumed
          ((if not genuine
              then pure (json_response 401 (error_body "invalid or missing Slack signature"))
              else decide_payload env approval_id (env.parse_decision request.body))
            asked).1
  verified-Resumed true asked same g =
      payload-Resumed (env.parse_decision request.body) asked same refl (g refl)
  verified-Resumed false asked same g = inl same

  continue-Resumed :
      (r : Result Bool) (asked : Trace)
      → runs asked ≡ runs tr
      → (r ≡ ok true → Genuine env (env.now tr) request.timestamp request.body request.signature)
      → Resumed
          (continue r
            (λ genuine.
              if not genuine
              then pure (json_response 401 (error_body "invalid or missing Slack signature"))
              else decide_payload env approval_id (env.parse_decision request.body))
            asked).1
  continue-Resumed (ok b) asked same g = verified-Resumed b asked same (λ e. g (ap ok e))
  continue-Resumed (raise e) asked same g = inl same

  -- Whatever the callback and whatever the services answer, the decide endpoint runs no tool, or runs
  -- exactly the tool of an approval, with its arguments: then the callback was genuine, its decision was
  -- "approve", and the approval was read from Redis pending and not past its expiry.
  pub decide-Resumed : Resumed (decide env approval_id request tr).1
  unfolding decide
  decide-Resumed =
      continue-Resumed (verify_signature env request.timestamp request.body request.signature tr).0
        (verify_signature env request.timestamp request.body request.signature tr).1
        ((verify_signature-runs env request.timestamp request.body request.signature).at tr)
        (verify_signature-Genuine env request.timestamp request.body request.signature tr)
