-- ===== src/Mediation/Answered.antt =====
-- When the services work, POST /mcp through the whole stack is answered.
use mcp_control_plane.Prelude.{
  ℕ, String, ◌≡◌, refl, true, Option, List, arith, inl, inr, Option-cases, not,
}
use mcp_control_plane.Value.{Value, obj, Fields, end, get, or_null, or_else, truthy}
use mcp_control_plane.World.{Env, Trace, ok, raise, missing_param, M}
use mcp_control_plane.Interceptor.{Agent, ToolCallContext, infer_environment, intercept_tool_call}
use mcp_control_plane.Telemetry.{add, rate_limit_hits_total, one}
use mcp_control_plane.Http.{Body, not_json, undecodable, json, Response}
use mcp_control_plane.Gateway.{is_text, registered, after_intercept, tools_call, mcp_call, mcp}
use mcp_control_plane.RateLimit.{RateLimitResult, check, limited, rate_limit}
use mcp_control_plane.RateLimit.Sliding.{check_total}
use mcp_control_plane.Auth.{agent_of}
use mcp_control_plane.App.{Site, post_mcp, is_rendered, rendered, handler, serve}
use mcp_control_plane.Mediation.Serving.{Serving, Answers, Answers-pure, Answers-if, answer_rules}
use mcp_control_plane.Mediation.Answers.{after_lookup-Answers}
use mcp_control_plane.Mediation.Readable.{callable, readable, intercepted}

module _ (env : Env) (rpc_id : Value) (s : Serving env) (agent : Agent) where
  context-Answers :
      (c : ToolCallContext) (environment : String) (o : Option String)
      → infer_environment c.arguments ≡ ok environment
      → registered env rpc_id c.tool_name ≡ ok o
      → Answers (after_intercept env rpc_id agent (ok c))
  unfolding after_intercept
  context-Answers c environment o e f =
      rw (e, f)
        (record { at = λ tr. (after_lookup-Answers env s rpc_id agent c environment e o).at tr })

  refused-Answers :
      (name message : String)
      → Answers (after_intercept env rpc_id agent (raise (missing_param name message)))
  unfolding after_intercept
  refused-Answers name message = Answers-pure _

  tools_call-Answers :
      (params : Value) → callable params ≡ true → Answers (tools_call env rpc_id params agent)
  unfolding tools_call
  tools_call-Answers params h = record {
    at = λ tr. elim (intercepted env rpc_id params agent tr h) [
      | inl (c, environment, o, e, f, g) ↦
          rw e
            ((context-Answers c environment o f g).at (intercept_tool_call env params agent tr).1)
      | inr (name, message, e) ↦
          rw e ((refused-Answers name message).at (intercept_tool_call env params agent tr).1)
    ];
  }

-- Whatever the handler answers to a body can be rendered as JSON: no NaN, no infinity and no lone surrogate.
abbrev pub Renderable : Env → Body → Type 0
Renderable env body =
    (agent : Agent) (before : Trace) (resp : Response)
    → (mcp env agent body before).0 ≡ ok resp
    → is_rendered env resp ≡ true

module _ (env : Env) (s : Serving env) where
  mcp_call-Answers :
      (agent : Agent) (body : Fields)
      → callable (or_else (or_null (get body "params")) (obj end)) ≡ true
      → Answers (mcp_call env agent body)
  unfolding mcp_call
  mcp_call-Answers agent body h =
      let method = or_null (get body "method") in
      Answers-if (not (truthy method)) _ _ (Answers-pure _) (
        Answers-if (is_text method "tools/list") _ _ (Answers-pure _) (
          Answers-if (is_text method "tools/call") _ _
            (tools_call-Answers env (or_null (get body "id")) s agent
              (or_else (or_null (get body "params")) (obj end)) h)
            (Answers-pure _)))

  mcp-Answers : (agent : Agent) (body : Body) → readable body ≡ true → Answers (mcp env agent body)
  unfolding mcp
  mcp-Answers agent not_json h = search answer_rules
  mcp-Answers agent undecodable h = absurd (ground arith)
  mcp-Answers agent (json (obj body)) h = mcp_call-Answers agent body h
  mcp-Answers agent (json _) h = search answer_rules

  check-Answers : (agent_id : String) (limit : ℕ) → Answers (check env agent_id limit)
  check-Answers agent_id limit = record { at = λ tr. check_total env agent_id limit tr }

  hit-Answers : (labels : Fields) → Answers (add rate_limit_hits_total one labels)
  unfolding add
  hit-Answers labels = record { at = λ tr. (tt, refl) }

  limited-Answers :
      (agent_id : String) (r : RateLimitResult) (next : M Response)
      → Answers next
      → Answers (limited agent_id r next)
  unfolding limited
  limited-Answers agent_id r next a = search (answer_rules, hit-Answers)

  rate_limit-Answers :
      (path : String) (agent : Agent) (next : M Response)
      → Answers next
      → Answers (rate_limit env path agent next)
  unfolding rate_limit
  rate_limit-Answers path agent next a = search (answer_rules, check-Answers, limited-Answers)

  rendered-Answers :
      (m : M Response)
      → Answers m
      → ((tr : Trace) (resp : Response) → (m tr).0 ≡ ok resp → is_rendered env resp ≡ true)
      → Answers (rendered env m)
  unfolding rendered
  rendered-Answers m a h = record {
    at = λ tr.
        let (resp, e) = a.at tr in let shown = h tr resp e in (resp, rw (rendered, e, shown) refl);
  }

  -- POST /mcp is answered, through authentication and rate limiting, whatever the key and what happened before,
  -- unless the body is no text, or calls a tool with `params` that are no object, a name that is a list or an
  -- object, or a namespace that is true and no text; where the services work, and what the handler answers
  -- can be rendered as JSON.
  pub serve_answered :
      (site : Site) (keys : List (String × Agent)) (body : Body) (api_key : Option String)
      (tr : Trace)
      → readable body ≡ true
      → Renderable env body
      → (resp : Response) × ((serve env site keys
            (record { api_key = api_key; route = post_mcp body })
            tr).0
          ≡ ok resp)
  unfolding serve handler
  serve_answered site keys body api_key tr h shown = elim (Option-cases (agent_of keys api_key)) [
    | inl e ↦ rw (serve, e) (_, refl)
    | inr (agent, e) ↦
        rw (serve, e)
          ((rate_limit-Answers "/mcp" agent (rendered env (mcp env agent body))
              (rendered-Answers (mcp env agent body) (mcp-Answers agent body h) (shown agent))).at
            tr)
  ]
