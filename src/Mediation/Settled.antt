-- ===== src/Mediation/Settled.antt =====
-- Every answered callback against the stored approval, the audit log and the agent's connection: a decision is
-- written, logged, pushed, and carried out.
use mcp_control_plane.Prelude.{
  ℕ, String, ◌≡◌, ◌≢◌, refl, ◌∙◌, ap, Bool, true, false, not, ◌||◌, Option, none, some, List, ◌∷◌,
  arith, eq_iff, inl, inr, ◌⊎◌, Bool-cases, if◌then◌else◌, ◌==◌,
}
use mcp_control_plane.Value.{Value}
use mcp_control_plane.World.{
  Trace, Env, Result, ok, raise, continue, pure, DecisionRequest, DecisionBody, invalid, valid,
  Reply-cases, Result-cases, answered,
}
use mcp_control_plane.Approvals.{
  Approval, of_dict, asdict, approval_key, decided_status, decide_approval, DecideOutcome, decided,
  not_found, already_decided,
}
use mcp_control_plane.Approvals.Lifecycle.{Resolves, decide_approval-Resolves}
use mcp_control_plane.Slack.{verify_signature}
use mcp_control_plane.Http.{Response, json_response}
use mcp_control_plane.Decisions.{error_body, DecideHttp, after_decision, decide_payload, decide}
use mcp_control_plane.Traces.{Keeps}
use mcp_control_plane.Mediation.Settling.{
  Seen, seen, Denied, Ran, Concluded, after_decision-Concluded,
}

-- the same with the write of an approval
abbrev pub with_write : String → Approval → Seen → Seen
with_write approval_id a x =
    (x.0, (x.1.0, (x.1.1.0, (approval_key approval_id, asdict a) ∷ x.1.1.1)))

-- A trace that looks like another but for one write of an approval.
abbrev pub OneWrite : String → Approval → Trace → Trace → Type 0
OneWrite approval_id a before stored = seen stored ≡ with_write approval_id a (seen before)

-- Nothing was written, logged, run or pushed; or the request's decision was written into its approval and,
-- behind that, a denial was logged and pushed and nothing ran, or the approved call ran once, and how it ended
-- was logged and pushed.
abbrev pub Settled : Env → String → DecisionBody → Trace → Trace → Type 0
Settled env approval_id body before after =
    (seen after ≡ seen before)
    ⊎ ((p : DecisionRequest) × (a : Approval) × (stored : Trace) × (body ≡ valid p)
        × OneWrite approval_id a before stored
        × (((p.decision ≡ "deny") × (a.status ≡ "denied") × Denied p a stored after)
            ⊎ ((p.decision ≡ "approve") × (a.status ≡ "approved") × Ran env a stored after)))

status_approve : (decision : String) → decision ≡ "approve" → decided_status decision ≡ "approved"
status_approve decision e = rw e refl

status_deny : (decision : String) → decision ≡ "deny" → decided_status decision ≡ "denied"
status_deny decision e = rw e refl

apart : (s : String) → s ≡ "approved" → s ≢ "denied"
apart s e = λ d. absurd (ground (arith, ap (λ x. x == "denied") e, (eq_iff s "denied").1 d))

module _ (env : Env) (approval_id : String) where
  module _ (decision decided_by : String) (tr : Trace) where
    unresolved_stored :
        (raw : Value) (before : Approval) (o : Option Approval) (out : DecideOutcome)
        → env.kv_get tr (approval_key approval_id) ≡ answered (some raw)
        → of_dict raw ≡ ok before
        → (decide_approval env approval_id decision decided_by tr).0 ≡ ok (o, out)
        → (out ≢ decided) ⊎ (o ≡ none)
        → seen (decide_approval env approval_id decision decided_by tr).1 ≡ seen tr
    unfolding decide_approval
    unresolved_stored raw before o out s r h n = ground (arith, s, r, h, n)

    unresolved :
        (o : Option Approval) (out : DecideOutcome)
        → (decide_approval env approval_id decision decided_by tr).0 ≡ ok (o, out)
        → (out ≢ decided) ⊎ (o ≡ none)
        → seen (decide_approval env approval_id decision decided_by tr).1 ≡ seen tr
    unfolding decide_approval
    unresolved o out h n = elim (Reply-cases (env.kv_get tr (approval_key approval_id))) [
      | inr s ↦ absurd (ground (arith, s, h))
      | inl (none, s) ↦ ground (arith, s)
      | inl (some raw, s) ↦ elim (Result-cases (of_dict raw)) [
        | inl (before, r) ↦ unresolved_stored raw before o out s r h n
        | inr (e, r) ↦ absurd (ground (arith, s, r, h))
      ]
    ]

    status-resolved :
        (a : Approval)
        → Resolves env approval_id decision decided_by tr a
        → a.status ≡ decided_status decision
    status-resolved a r = ap (λ (x : Approval). x.status) r.result

    resolved_written :
        (a : Approval)
        → Resolves env approval_id decision decided_by tr a
        → OneWrite approval_id a tr (decide_approval env approval_id decision decided_by tr).1
    resolved_written a r = rw (r.written) refl

  module _ (p : DecisionRequest) where
    abbrev stored : Trace → Trace
    stored tr = (decide_approval env approval_id p.decision p.decided_by tr).1

    decided-Concluded :
        (a : Approval) (tr after : Trace)
        → p.decision ≡ "approve" ⊎ p.decision ≡ "deny"
        → Resolves env approval_id p.decision p.decided_by tr a
        → Concluded env p
            (some a)
            decided
            (decide_approval env approval_id p.decision p.decided_by tr).1
            after
        → Settled env approval_id (valid p) tr after
    decided-Concluded a tr after (inl approves) r (inl (denied, d)) =
        let status =
          status-resolved p.decision p.decided_by tr a r ∙ status_approve p.decision approves in
        absurd (apart a.status status denied)
    decided-Concluded a tr after (inr denies) r (inl (denied, d)) = inr (
      p,
      a,
      stored tr,
      refl,
      resolved_written p.decision p.decided_by tr a r,
      inl (denies, denied, d),
    )
    decided-Concluded a tr after (inl approves) r (inr (undenied, d)) = inr (
      p,
      a,
      stored tr,
      refl,
      resolved_written p.decision p.decided_by tr a r,
      inr (
        approves,
        status-resolved p.decision p.decided_by tr a r ∙ status_approve p.decision approves,
        d,
      ),
    )
    decided-Concluded a tr after (inr denies) r (inr (undenied, d)) =
        absurd (
          undenied (status-resolved p.decision p.decided_by tr a r ∙ status_deny p.decision denies))

    none-Concluded :
        (out : DecideOutcome) (tr after : Trace)
        → Concluded env p none out tr after
        → seen after ≡ seen tr
    none-Concluded decided tr after c = c
    none-Concluded not_found tr after c = c
    none-Concluded already_decided tr after c = c

    concluded :
        (o : Option Approval) (out : DecideOutcome) (tr after : Trace)
        → p.decision ≡ "approve" ⊎ p.decision ≡ "deny"
        → (decide_approval env approval_id p.decision p.decided_by tr).0 ≡ ok (o, out)
        → Concluded env p o out (decide_approval env approval_id p.decision p.decided_by tr).1 after
        → Settled env approval_id (valid p) tr after
    concluded (some a) decided tr after which e c =
        decided-Concluded a tr after which
          (decide_approval-Resolves env approval_id p.decision p.decided_by tr a e) c
    concluded none out tr after which e c = inl (
        none-Concluded out (stored tr) after c
        ∙ unresolved p.decision p.decided_by tr none out e (inr refl))
    concluded (some a) not_found tr after which e c = inl (
        c
        ∙ unresolved p.decision p.decided_by tr (some a) not_found e
            (inl (λ n. absurd (ground arith))))
    concluded (some a) already_decided tr after which e c = inl (
        c
        ∙ unresolved p.decision p.decided_by tr (some a) already_decided e
            (inl (λ n. absurd (ground arith))))

  result-Settled :
      (p : DecisionRequest) (r : Result (Option Approval × DecideOutcome)) (tr : Trace)
      (resp : Response)
      → p.decision ≡ "approve" ⊎ p.decision ≡ "deny"
      → (decide_approval env approval_id p.decision p.decided_by tr).0 ≡ r
      → (continue r
          (after_decision env p)
          (decide_approval env approval_id p.decision p.decided_by tr).1).0
        ≡ ok resp
      → Settled env approval_id
          (valid p)
          tr
          (continue r
            (after_decision env p)
            (decide_approval env approval_id p.decision p.decided_by tr).1).1
  result-Settled p (ok (o, out)) tr resp which e h =
      let behind = (decide_approval env approval_id p.decision p.decided_by tr).1 in
      concluded p o out tr (after_decision env p (o, out) behind).1 which e
        (after_decision-Concluded env p o out behind resp h)
  result-Settled p (raise x) tr resp which e h = absurd (ground arith)

  payload-Settled :
      (b : DecisionBody) (tr : Trace) (resp : Response)
      → (decide_payload env approval_id b tr).0 ≡ ok resp
      → Settled env approval_id b tr (decide_payload env approval_id b tr).1
  unfolding decide_payload
  payload-Settled (invalid m) tr resp h = inl refl
  payload-Settled (valid p) tr resp h =
      elim (Bool-cases (p.decision == "approve" || p.decision == "deny")) [
        | inr unknown ↦ rw unknown (inl refl)
        | inl known ↦
            let which : p.decision ≡ "approve" ⊎ p.decision ≡ "deny" =
              ground (arith, known, eq_iff p.decision "approve", eq_iff p.decision "deny") in
            rw known (result-Settled p _ tr resp which refl (ground (arith, known, h)))
      ]

  -- What is settled from a trace on is settled from any that looks the same.
  Settled-from :
      (body : DecisionBody) (before tr after : Trace)
      → seen tr ≡ seen before
      → Settled env approval_id body tr after
      → Settled env approval_id body before after
  Settled-from body before tr after e (inl same) = inl (same ∙ e)
  Settled-from body before tr after e (inr (p, a, stored, b, w, rest)) =
      inr (p, a, stored, b, w ∙ ap (with_write approval_id a) e, rest)

  verified-Settled :
      (r : Result Bool) (body : DecisionBody) (before tr : Trace) (resp : Response)
      → seen tr ≡ seen before
      → (continue r
          (λ genuine.
            if not genuine
            then pure (json_response 401 (error_body "invalid or missing Slack signature"))
            else decide_payload env approval_id body)
          tr).0
        ≡ ok resp
      → Settled env approval_id body before
          (continue r
            (λ genuine.
              if not genuine
              then pure (json_response 401 (error_body "invalid or missing Slack signature"))
              else decide_payload env approval_id body)
            tr).1
  verified-Settled (ok true) body before tr resp e h =
      Settled-from body before tr (decide_payload env approval_id body tr).1 e
        (payload-Settled body tr resp h)
  verified-Settled (ok false) body before tr resp e h = inl e
  verified-Settled (raise x) body before tr resp e h = absurd (ground arith)

  verify_signature-seen :
      (timestamp : Option String) (body : List ℕ) (signature : Option String)
      → Keeps seen (verify_signature env timestamp body signature)
  unfolding verify_signature
  verify_signature-seen none body signature = record { at = λ tr. refl }
  verify_signature-seen (some t) body none = record { at = λ tr. refl }
  verify_signature-seen (some t) body (some s) = record { at = λ tr. ground arith }

  -- Whenever the decide endpoint answers (it does not raise), either it wrote nothing to Redis, ran nothing, wrote
  -- no audit row and pushed nothing; or the callback's body is a decision, and exactly one record was written,
  -- under the approval's key, with the status of that decision. Behind "deny", nothing ran, and exactly one audit
  -- row, approval_denied, and one event, denied with its reason, were written and pushed; behind "approve", the
  -- approval's tool ran exactly once, with its arguments, and exactly one row and one event say how it ended:
  -- allowed and approved with its result, or error or executor_timeout and error with its message. Row and
  -- event are of the approval's agent, and the row of its role, tool and arguments.
  pub decide-Settled :
      (request : DecideHttp) (tr : Trace) (resp : Response)
      → (decide env approval_id request tr).0 ≡ ok resp
      → Settled env approval_id
          (env.parse_decision request.body)
          tr
          (decide env approval_id request tr).1
  unfolding decide
  decide-Settled request tr resp h =
      verified-Settled (verify_signature env request.timestamp request.body request.signature tr).0
        (env.parse_decision request.body) tr
        (verify_signature env request.timestamp request.body request.signature tr).1 resp
        ((verify_signature-seen request.timestamp request.body request.signature).at tr) h
