-- ===== src/Mediation/Conforming.antt =====
-- POST /mcp through the whole stack: the bodies are JSON-RPC 2.0 responses to the request.
use mcp_control_plane.Prelude.{
  ◌∷◌, ℕ, ◌≤◌, String, ◌≡◌, refl, Option, none, some, List, [], arith, Option-cases, ◌⊎◌, inl, inr,
}
use mcp_control_plane.Telemetry.{add, rate_limit_hits_total, one}
use mcp_control_plane.Value.{dict, str, ℤ, Value, null, obj, Fields, get, or_null}
use mcp_control_plane.World.{
  Env, Trace, Result, ok, raise, missing_param, M, value_error, Result-cases,
}
use mcp_control_plane.Interceptor.{format, Agent, ToolCallContext}
use mcp_control_plane.Policy.{PolicyDecision}
use mcp_control_plane.Http.{Body, not_json, undecodable, json, Response, no_stream, rpc_error}
use mcp_control_plane.Execution.{
  ExecutionOutcome, success, executor_error, unhandled_error, error_type_status,
}
use mcp_control_plane.Gateway.{
  hold_for_approval, deny, answer, run, enforce, after_lookup, after_intercept, tools_call,
  mcp_call, mcp, invalid_param, forbidden, approval_pending, denied_by_policy, executor_failed,
}
use mcp_control_plane.Interceptor.{intercept_tool_call}
use mcp_control_plane.Traces.Yields.{
  Yields, Yields-throw, Yields-pure, Yields-if, Yields-bind, Yields-bind_with,
}
use mcp_control_plane.RateLimit.{RateLimitResult, limited, rate_limit, with_headers, too_many}
use mcp_control_plane.Auth.{agent_of}
use mcp_control_plane.App.{Site, post_mcp, is_rendered, rendered, handler, serve}
use mcp_control_plane.Mediation.JsonRpc.{request_id, IsRpc, error-IsRpc, rpc_rules}

-- Every status of `_ERROR_TYPE_STATUS` is that of a failure.
error_type_status-le : (t : String) (n : ℕ) → error_type_status t ≡ ok n → 400 ≤ n
unfolding error_type_status
error_type_status-le t n h = ground arith

module _ (env : Env) (rpc_id : Value) where
  module _ (c : ToolCallContext) (name : String) (d : PolicyDecision) where
    hold-Yields : Yields (IsRpc rpc_id) (hold_for_approval env rpc_id c name d)
    unfolding hold_for_approval approval_pending
    hold-Yields = search rpc_rules depth 16

    deny-Yields : Yields (IsRpc rpc_id) (deny env rpc_id c name d)
    unfolding deny denied_by_policy
    deny-Yields = search rpc_rules

    refusal-Yields :
        (t message : String)
        → Yields (IsRpc rpc_id) (answer env rpc_id c name d (executor_error t message))
    unfolding answer executor_failed
    refusal-Yields t message = elim (Result-cases (error_type_status t)) [
      | inl (n, e) ↦ let le = error_type_status-le t n e in rw e (search (rpc_rules, le))
      | inr (x, e) ↦ rw e (search rpc_rules)
    ]

    answer-Yields : (o : ExecutionOutcome) → Yields (IsRpc rpc_id) (answer env rpc_id c name d o)
    unfolding answer executor_failed
    answer-Yields (success v) = search rpc_rules
    answer-Yields (unhandled_error message) = search rpc_rules
    answer-Yields (executor_error t message) = refusal-Yields t message

    run-Yields : Yields (IsRpc rpc_id) (run env rpc_id c name d)
    unfolding run
    run-Yields = search (rpc_rules, answer-Yields)

    enforce-Yields : Yields (IsRpc rpc_id) (enforce env rpc_id c name d)
    unfolding enforce
    enforce-Yields = search (rpc_rules, hold-Yields, deny-Yields, run-Yields)

  after_lookup-Yields :
      (agent : Agent) (c : ToolCallContext) (o : Option String)
      → Yields (IsRpc rpc_id) (after_lookup env rpc_id agent c o)
  unfolding after_lookup invalid_param forbidden
  after_lookup-Yields agent c none = search rpc_rules
  after_lookup-Yields agent c (some name) = search (rpc_rules, enforce-Yields)

  after_intercept-Yields :
      (agent : Agent) (r : Result ToolCallContext)
      → Yields (IsRpc rpc_id) (after_intercept env rpc_id agent r)
  unfolding after_intercept invalid_param
  after_intercept-Yields agent (ok c) = search (rpc_rules, after_lookup-Yields)
  after_intercept-Yields agent (raise (missing_param name message)) = search rpc_rules
  after_intercept-Yields agent (raise _) = search rpc_rules

  tools_call-Yields :
      (params : Value) (agent : Agent) → Yields (IsRpc rpc_id) (tools_call env rpc_id params agent)
  unfolding tools_call
  tools_call-Yields params agent = record {
    at = λ tr resp h.
        let (r, tr') = intercept_tool_call env params agent tr in
        (after_intercept-Yields agent r).at tr' resp h;
  }

mcp_call-Yields :
    (env : Env) (agent : Agent) (body : Fields)
    → Yields (IsRpc (or_null (get body "id"))) (mcp_call env agent body)
unfolding mcp_call
mcp_call-Yields env agent body = search (rpc_rules, tools_call-Yields)

mcp-Yields :
    (env : Env) (agent : Agent) (body : Body)
    → Yields (IsRpc (request_id body)) (mcp env agent body)
unfolding mcp
mcp-Yields env agent not_json = search rpc_rules
mcp-Yields env agent undecodable = search rpc_rules
mcp-Yields env agent (json (obj body)) = mcp_call-Yields env agent body
mcp-Yields env agent (json _) = search rpc_rules

-- What the middlewares answer in the handler's place has no id.
abbrev pub IsRefused : Response → Type 0
IsRefused resp = ((resp.status ≡ 401) ⊎ (resp.status ≡ 429)) × IsRpc null resp

-- Either is a JSON-RPC response; the middlewares' has no id.
abbrev pub IsReply : Value → Response → Type 0
IsReply rpc_id resp = IsRefused resp ⊎ IsRpc rpc_id resp

refused-IsReply :
    (rpc_id : Value) (status : ℕ) (code : ℤ) (message : String) (details : Option Value)
    (hs : List (String × String))
    → (status ≡ 401) ⊎ (status ≡ 429)
    → IsReply rpc_id (record {
      status = status;
      body = rpc_error null code message details;
      headers = hs;
      stream = no_stream;
    })
refused-IsReply rpc_id status code message details hs h =
    inl (h, error-IsRpc status code message details hs (ground arith))

rendered-Yields :
    (env : Env) (rpc_id : Value) (m : M Response)
    → Yields (IsRpc rpc_id) m
    → Yields (IsRpc rpc_id) (rendered env m)
unfolding rendered
rendered-Yields env rpc_id m y =
    Yields-bind_with m _ y (λ resp p.
      Yields-if (is_rendered env resp) _ _ (Yields-pure resp p) (Yields-throw value_error))

limited-Yields :
    (rpc_id : Value) (agent_id : String) (r : RateLimitResult) (next : M Response)
    → Yields (IsRpc rpc_id) next
    → Yields (IsReply rpc_id) (limited agent_id r next)
unfolding limited too_many with_headers
limited-Yields rpc_id agent_id r next y =
    Yields-if _ _ _
      (Yields-bind (add rate_limit_hits_total one (dict (("agent_id", str agent_id) ∷ []))) _ (λ u.
        Yields-pure (too_many r)
          (refused-IsReply rpc_id 429 _ _ (some _) (too_many r).headers (inr refl))))
      (Yields-bind_with next _ y (λ resp p. Yields-pure _ (inr p)))

rate_limit-Yields :
    (env : Env) (agent : Agent) (body : Body)
    → Yields
        (IsReply (request_id body))
        (rate_limit env "/mcp" agent (rendered env (mcp env agent body)))
unfolding rate_limit
rate_limit-Yields env agent body = Yields-bind _ _ (λ r.
    limited-Yields (request_id body) (format env agent.id) r _
      (rendered-Yields env (request_id body) _ (mcp-Yields env agent body)))

serve-Yields :
    (env : Env) (site : Site) (keys : List (String × Agent)) (body : Body) (api_key : Option String)
    → Yields
        (IsReply (request_id body))
        (serve env site keys (record { api_key = api_key; route = post_mcp body }))
unfolding serve handler
serve-Yields env site keys body api_key = elim (Option-cases (agent_of keys api_key)) [
  | inl e ↦
      rw (serve, e) (Yields-pure _ (refused-IsReply (request_id body) 401 _ _ none [] (inl refl)))
  | inr (agent, e) ↦ rw (serve, e) (rate_limit-Yields env agent body)
]

-- Every answer to POST /mcp is a JSON-RPC 2.0 response with the id of the request (null where the body is no
-- JSON object or has no id), that carries either a result, under status 200 or 202, or an error with a code and
-- a message, under a status of 400 or more, and never both; or it is the error response of a middleware, with
-- the id null, under status 401 or 429.
pub serve-IsReply :
    (env : Env) (site : Site) (keys : List (String × Agent)) (body : Body) (api_key : Option String)
    (tr : Trace) (resp : Response)
    → (serve env site keys (record { api_key = api_key; route = post_mcp body }) tr).0 ≡ ok resp
    → IsReply (request_id body) resp
serve-IsReply env site keys body api_key tr resp h =
    (serve-Yields env site keys body api_key).at tr resp h
