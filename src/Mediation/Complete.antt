-- ===== src/Mediation/Complete.antt =====
-- Complete mediation: whatever the request, an executor runs only behind every check.
use mcp_control_plane.Prelude.{
  String, ◌≡◌, refl, Bool, true, false, none, some, arith, ◌∷◌, contains, inl, inr, ◌⊎◌, ◌&&◌,
  if◌then◌else◌,
}
use mcp_control_plane.Value.{Value, null, bool, int, float, str, arr, obj, Fields}
use mcp_control_plane.World.{
  Result-cases, M, pure, M, missing_param, Result, ok, raise, Trace, Env, lift, ◌>>=◌,
}
use mcp_control_plane.Interceptor.{
  Agent, ToolCallContext, infer_environment, intercept_tool_call, format,
}
use mcp_control_plane.Execution.{registry}
use mcp_control_plane.Gateway.{after_lookup, registered, tools_call, after_intercept, mcp_call, mcp}
use mcp_control_plane.Http.{Body, not_json, undecodable, json, Response}
use mcp_control_plane.Traces.{Keeps}
use mcp_control_plane.Traces.Views.{runs}
use mcp_control_plane.Mediation.Policy.{grants, policy_input}
use mcp_control_plane.Mediation.Gate.{run_if, after_lookup-runs}

-- What has been checked of a call that runs.
pub record Authorised (env : Env) (agent : Agent) (name : String) (arguments : Fields)
    : Type 0 where
  pub context : ToolCallContext
  pub environment : String
  pub asked : Trace
  pub is_named : context.tool_name ≡ str name
  pub given : context.arguments ≡ arguments
  pub caller : context.agent_id ≡ format env agent.id
  pub caller_role : context.role ≡ agent.role
  pub inferred : infer_environment arguments ≡ ok environment
  pub is_registered : contains registry name ≡ true
  pub scoped : contains agent.allowed_tools name ≡ true
  pub granted : grants (env.opa asked (policy_input context environment)) ≡ true

-- From one trace to another no tool has run, or one has, authorised.
abbrev pub Gated : Env → Agent → Trace → Trace → Type 0
Gated env agent before after =
    (runs after ≡ runs before)
    ⊎ ((name : String) × (arguments : Fields) × (runs after ≡ (name, arguments) ∷ runs before)
        × Authorised env agent name arguments)

abbrev pub OfAgent : Env → Agent → ToolCallContext → Type 0
OfAgent env agent c = (c.agent_id ≡ format env agent.id) × (c.role ≡ agent.role)

module _ (env : Env) (rpc_id : Value) (agent : Agent) (c : ToolCallContext)
    (from : OfAgent env agent c) (environment : String)
    (inferred : infer_environment c.arguments ≡ ok environment) (tr : Trace) where
  run_if-Gated :
      (name : String) (scoped granted : Bool) (after : Trace)
      → c.tool_name ≡ str name
      → contains registry name ≡ true
      → scoped ≡ contains agent.allowed_tools name
      → granted ≡ grants (env.opa tr (policy_input c environment))
      → runs after ≡ run_if (scoped && granted) name c.arguments tr
      → Gated env agent tr after
  run_if-Gated name true true after n r s g e = inr (
    name,
    c.arguments,
    e,
    record {
      context = c;
      environment = environment;
      asked = tr;
      is_named = n;
      given = refl;
      caller = from.0;
      caller_role = from.1;
      inferred = inferred;
      is_registered = r;
      scoped = cc;
      granted = cc;
    },
  )
  run_if-Gated name true false after n r s g e = inl e
  run_if-Gated name false granted after n r s g e = inl e

  found-Gated :
      (name : String) (known : Bool)
      → c.tool_name ≡ str name
      → contains registry name ≡ known
      → Gated env agent tr
          (after_lookup env rpc_id agent c (if known then some name else none) tr).1
  unfolding after_lookup
  found-Gated name true n r =
      run_if-Gated name _ _ (after_lookup env rpc_id agent c (some name) tr).1 n r refl refl
        (after_lookup-runs env rpc_id agent c name environment tr inferred)
  found-Gated name false n r = inl refl

  found-none : Gated env agent tr (after_lookup env rpc_id agent c none tr).1
  unfolding after_lookup
  found-none = inl refl

  registered-Gated :
      (v : Value)
      → c.tool_name ≡ v
      → Gated env agent tr
          ((lift (registered env rpc_id v) >>= after_lookup env rpc_id agent c) tr).1
  unfolding registered
  registered-Gated (str s) n = found-Gated s _ n refl
  registered-Gated null n = found-none
  registered-Gated (bool b) n = found-none
  registered-Gated (int z) n = found-none
  registered-Gated (float b t) n = found-none
  registered-Gated (arr vs) n = inl refl
  registered-Gated (obj fs) n = inl refl

module _ (env : Env) (rpc_id : Value) (agent : Agent) where
  context-Gated :
      (c : ToolCallContext) (tr : Trace)
      → OfAgent env agent c
      → Gated env agent tr (after_intercept env rpc_id agent (ok c) tr).1
  unfolding after_intercept
  context-Gated c tr from = elim (Result-cases (infer_environment c.arguments)) [
    | inl (environment, e) ↦
        rw e (registered-Gated env rpc_id agent c from environment e tr c.tool_name refl)
    | inr (x, e) ↦ rw e (inl refl)
  ]

  after_intercept-Gated :
      (r : Result ToolCallContext) (tr : Trace)
      → ((c : ToolCallContext) → r ≡ ok c → OfAgent env agent c)
      → Gated env agent tr (after_intercept env rpc_id agent r tr).1
  unfolding after_intercept
  after_intercept-Gated (ok c) tr from = context-Gated c tr (from c refl)
  after_intercept-Gated (raise (missing_param f m)) tr from = inl refl
  after_intercept-Gated (raise _) tr from = inl refl

  pub intercept_tool_call-runs :
      (params : Value) → Keeps runs (intercept_tool_call env params agent)
  unfolding intercept_tool_call
  intercept_tool_call-runs params = record { at = λ tr. ground arith }

  pub intercept_tool_call-OfAgent :
      (params : Value) (tr : Trace) (c : ToolCallContext)
      → (intercept_tool_call env params agent tr).0 ≡ ok c
      → OfAgent env agent c
  unfolding intercept_tool_call
  intercept_tool_call-OfAgent params tr c h = ground arith

  tools_call-Gated :
      (params : Value) (tr : Trace) → Gated env agent tr (tools_call env rpc_id params agent tr).1
  unfolding tools_call
  tools_call-Gated params tr = rw (← (intercept_tool_call-runs params).at tr) (
      after_intercept-Gated _ (intercept_tool_call env params agent tr).1
        (intercept_tool_call-OfAgent params tr))

-- An action that is gated from every trace.
pub record IsGated (env : Env) (agent : Agent) (m : M Response) : Type 0 where
  pub at : (tr : Trace) → Gated env agent tr (m tr).1

module _ {env : Env} {agent : Agent} where
  pub IsGated-if :
      (b : Bool) (m n : M Response)
      → IsGated env agent m
      → IsGated env agent n
      → IsGated env agent (if b then m else n)
  IsGated-if true m n gm gn = gm
  IsGated-if false m n gm gn = gn

  pub IsGated-pure : (r : Response) → IsGated env agent (pure r)
  IsGated-pure r = record { at = λ tr. inl refl }

  IsGated-tools_call :
      (rpc_id params : Value) → IsGated env agent (tools_call env rpc_id params agent)
  IsGated-tools_call rpc_id params = record { at = tools_call-Gated env rpc_id agent params }

mcp_call-IsGated :
    (env : Env) (agent : Agent) (body : Fields) → IsGated env agent (mcp_call env agent body)
unfolding mcp_call
mcp_call-IsGated env agent body = search (IsGated-if, IsGated-pure, IsGated-tools_call)

-- Whatever the request body and whatever the services answer, the handler of POST /mcp runs no tool, or
-- runs exactly one whose name is registered and in the agent's allowed_tools, and for which the policy
-- engine, asked with the same arguments and the agent's own id and role, answered with a true allow and
-- no true require_approval.
pub mcp-Gated :
    (env : Env) (agent : Agent) (body : Body) (tr : Trace)
    → Gated env agent tr (mcp env agent body tr).1
unfolding mcp
mcp-Gated env agent not_json tr = inl refl
mcp-Gated env agent undecodable tr = inl refl
mcp-Gated env agent (json (obj body)) tr = (mcp_call-IsGated env agent body).at tr
mcp-Gated env agent (json _) tr = inl refl
