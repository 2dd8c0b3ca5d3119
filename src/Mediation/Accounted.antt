-- ===== src/Mediation/Accounted.antt =====
-- Every answered request against the audit log: no call that the policy engine was asked about lacks its row.
use mcp_control_plane.Prelude.{
  String, ◌≡◌, refl, ◌∙◌, ap, Bool, true, false, Option, none, some, arith, List, [], ◌∷◌, not,
  ◌&&◌, if◌then◌else◌, ◌⊎◌, inl, inr, contains,
}
use mcp_control_plane.Value.{Value, obj, Fields}
use mcp_control_plane.World.{
  Exn, missing_param, queried_opa, Trace, Env, Result, ok, raise, M, pure, throw, lift, continue,
  ◌>>=◌,
}
use mcp_control_plane.Interceptor.{Agent, ToolCallContext, infer_environment, intercept_tool_call}
use mcp_control_plane.Policy.{PolicyDecision, evaluate_policy}
use mcp_control_plane.Gateway.{
  registered, enforce, after_lookup, after_intercept, tools_call, mcp_call, mcp,
}
use mcp_control_plane.Http.{Response, Body, not_json, undecodable, json}
use mcp_control_plane.Traces.{Keeps}
use mcp_control_plane.Traces.Views.{runs}
use mcp_control_plane.Mediation.Complete.{OfAgent, intercept_tool_call-OfAgent}
use mcp_control_plane.Mediation.Enforce.{enforce-runs}
use mcp_control_plane.Mediation.Audited.{Entry, entries, entry_of, decision_label, enforce-entries}

-- The questions that the policy engine was asked, newest first.
abbrev pub questions : Trace → List Value
questions [] = []
questions (queried_opa input ∷ tr) = input ∷ questions tr
questions (_ ∷ tr) = questions tr

-- The audit rows and the runs.
abbrev pub Account : Type 0
Account = List Entry × List (String × Fields)

abbrev pub account : Trace → Account
account tr = (entries tr, runs tr)

-- An account with one row more and, of a call that was let through, its run.
abbrev pub with_call : ToolCallContext → String → String → Bool → Account → Account
with_call c name label ran (rows, before) =
    (entry_of c name label ∷ rows, if ran then (name, c.arguments) ∷ before else before)

-- Nothing was asked, written or run; or the policy engine was asked about a call of the agent, and behind its
-- decision exactly one row was written, of that call, which says what the decision was or, where it let the
-- call through, how the executor ended; and exactly then the executor ran, once.
abbrev pub Accounted : Env → Agent → Trace → Trace → Type 0
Accounted env agent before after =
    ((questions after ≡ questions before) × (account after ≡ account before))
    ⊎ ((c : ToolCallContext) × (name : String) × (d : PolicyDecision) × (asked : Trace) × OfAgent
          env agent c
        × (account asked ≡ account before)
        × ((evaluate_policy env c asked).0 ≡ ok d)
        × (account after
            ≡ with_call c name
                (decision_label d (env.tool (evaluate_policy env c asked).1 name c.arguments))
                (d.allow && not d.require_approval) (account before)))

record IsAccounted (env : Env) (agent : Agent) (m : M Response) : Type 0 where
  at : (tr : Trace) (resp : Response) → (m tr).0 ≡ ok resp → Accounted env agent tr (m tr).1

evaluate_policy-account : (env : Env) (c : ToolCallContext) → Keeps account (evaluate_policy env c)
unfolding evaluate_policy
evaluate_policy-account env c = record { at = λ tr. ground arith }

module _ (env : Env) (rpc_id : Value) (agent : Agent) (c : ToolCallContext)
    (from : OfAgent env agent c) (name : String) where
  enforced :
      (d : PolicyDecision) (tr : Trace) (resp : Response)
      → (enforce env rpc_id c name d tr).0 ≡ ok resp
      → account (enforce env rpc_id c name d tr).1
        ≡ with_call c name
            (decision_label d (env.tool tr name c.arguments))
            (d.allow && not d.require_approval)
            (account tr)
  enforced d tr resp h =
      let e = enforce-entries env rpc_id c name d tr resp h in
      let r = enforce-runs env rpc_id c name d tr in rw (e, r) refl

  decided-Accounted :
      (r : Result PolicyDecision) (tr : Trace) (resp : Response)
      → (evaluate_policy env c tr).0 ≡ r
      → (continue r (enforce env rpc_id c name) (evaluate_policy env c tr).1).0 ≡ ok resp
      → Accounted env agent tr
          (continue r (enforce env rpc_id c name) (evaluate_policy env c tr).1).1
  decided-Accounted (raise x) tr resp e h = absurd (ground arith)
  decided-Accounted (ok d) tr resp e h =
      let asked = (evaluate_policy env c tr).1 in
      let label = decision_label d (env.tool asked name c.arguments) in
      inr (
        c,
        name,
        d,
        tr,
        from,
        refl,
        e,
        enforced d asked resp h
            ∙ ap (with_call c name label (d.allow && not d.require_approval))
                ((evaluate_policy-account env c).at tr),
      )

  call-IsAccounted : IsAccounted env agent (evaluate_policy env c >>= enforce env rpc_id c name)
  call-IsAccounted = record { at = λ tr resp h. decided-Accounted _ tr resp refl h }

module _ {env : Env} {agent : Agent} where
  IsAccounted-pure : (r : Response) → IsAccounted env agent (pure r)
  IsAccounted-pure r = record { at = λ tr resp h. inl (refl, refl) }

  IsAccounted-throw : (e : Exn) → IsAccounted env agent (throw e)
  IsAccounted-throw e = record { at = λ tr resp h. absurd (ground arith) }

  IsAccounted-if :
      (b : Bool) (m n : M Response)
      → IsAccounted env agent m
      → IsAccounted env agent n
      → IsAccounted env agent (if b then m else n)
  IsAccounted-if true m n am an = am
  IsAccounted-if false m n am an = an

  IsAccounted-lift :
      {A : Type 0} (r : Result A) (f : A → M Response)
      → ((a : A) → IsAccounted env agent (f a))
      → IsAccounted env agent (lift r >>= f)
  IsAccounted-lift (ok a) f af = record { at = λ tr resp h. (af a).at tr resp h }
  IsAccounted-lift (raise x) f af = record { at = λ tr resp h. absurd (ground arith) }

ruleset accounted_rules = (IsAccounted-pure, IsAccounted-throw, IsAccounted-if, IsAccounted-lift)

module _ (env : Env) (rpc_id : Value) (agent : Agent) where
  after_lookup-IsAccounted :
      (c : ToolCallContext)
      → OfAgent env agent c
      → (o : Option String) → IsAccounted env agent (after_lookup env rpc_id agent c o)
  unfolding after_lookup
  after_lookup-IsAccounted c from none = search accounted_rules
  after_lookup-IsAccounted c from (some name) =
      IsAccounted-if (not (contains agent.allowed_tools name)) _ _ (IsAccounted-pure _)
        (call-IsAccounted env rpc_id agent c from name)

  after_intercept-IsAccounted :
      (r : Result ToolCallContext)
      → ((c : ToolCallContext) → r ≡ ok c → OfAgent env agent c)
      → IsAccounted env agent (after_intercept env rpc_id agent r)
  unfolding after_intercept
  after_intercept-IsAccounted (ok c) from =
      IsAccounted-lift (infer_environment c.arguments) _ (λ environment.
        IsAccounted-lift (registered env rpc_id c.tool_name) _
          (after_lookup-IsAccounted c (from c refl)))
  after_intercept-IsAccounted (raise (missing_param f m)) from = search accounted_rules
  after_intercept-IsAccounted (raise _) from = search accounted_rules

  intercepted :
      (params : Value) (tr : Trace)
      → (questions (intercept_tool_call env params agent tr).1 ≡ questions tr)
        × (account (intercept_tool_call env params agent tr).1 ≡ account tr)
  unfolding intercept_tool_call
  intercepted params tr = ground arith

  Accounted-from :
      (before tr after : Trace)
      → questions tr ≡ questions before
      → account tr ≡ account before
      → Accounted env agent tr after
      → Accounted env agent before after
  Accounted-from before tr after q a (inl (eq, ea)) = inl (eq ∙ q, ea ∙ a)
  Accounted-from before tr after q a (inr (c, name, d, asked, from, s, e, w)) =
      inr (c, name, d, asked, from, s ∙ a, e, w ∙ ap (with_call c name _ _) a)

  tools_call-IsAccounted :
      (params : Value) → IsAccounted env agent (tools_call env rpc_id params agent)
  unfolding tools_call
  tools_call-IsAccounted params = record {
    at = λ tr resp h.
        let (r, tr') = intercept_tool_call env params agent tr in
        let (q, a) = intercepted params tr in
        Accounted-from tr tr' (after_intercept env rpc_id agent r tr').1 q a (
          (after_intercept-IsAccounted r
              (intercept_tool_call-OfAgent env rpc_id agent params tr)).at
            tr' resp h);
  }

mcp_call-IsAccounted :
    (env : Env) (agent : Agent) (body : Fields) → IsAccounted env agent (mcp_call env agent body)
unfolding mcp_call
mcp_call-IsAccounted env agent body = search (accounted_rules, tools_call-IsAccounted)

-- Whenever the handler of POST /mcp answers (it does not raise), either the policy engine was not asked, no audit row
-- was written and nothing ran; or a call of the agent, with its own id and role, was put to the policy engine, and
-- behind its decision exactly one audit row was written, of that call's agent, role, tool and arguments. The row
-- says pending_approval or denied where the decision holds or denies the call, and then nothing ran; where it lets
-- the call through, exactly that tool ran, once, with these arguments, and the row says allowed where the
-- executor returned, executor_timeout where it timed out, and else error.
pub mcp-Accounted :
    (env : Env) (agent : Agent) (body : Body) (tr : Trace) (resp : Response)
    → (mcp env agent body tr).0 ≡ ok resp
    → Accounted env agent tr (mcp env agent body tr).1
unfolding mcp
mcp-Accounted env agent not_json tr resp h = inl (refl, refl)
mcp-Accounted env agent undecodable tr resp h = inl (refl, refl)
mcp-Accounted env agent (json (obj body)) tr resp h =
    (mcp_call-IsAccounted env agent body).at tr resp h
mcp-Accounted env agent (json _) tr resp h = inl (refl, refl)
