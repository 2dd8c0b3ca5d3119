-- ===== src/Mediation/Readable.antt =====
-- Which bodies of POST /mcp are read without an exception, and how app/interceptor.py reads their calls.
use mcp_control_plane.Prelude.{
  String, ◌≡◌, refl, Bool, true, false, ◌&&◌, Option, none, some, arith, ◌⊎◌, inl, inr, Bool-cases,
}
use mcp_control_plane.Value.{Value, null, str, arr, obj, Fields, end, get, or_null, or_else, truthy}
use mcp_control_plane.World.{Env, Trace, ok, raise, missing_param}
use mcp_control_plane.Interceptor.{
  Agent, ToolCallContext, format, infer_environment, environment_of, arguments_of, as_dict, named,
  intercept_tool_call,
}
use mcp_control_plane.Http.{Body, not_json, undecodable, json}
use mcp_control_plane.Gateway.{registered}

-- a name that the registry can be asked for
abbrev hashable : Value → Bool
hashable (arr vs) = false
hashable (obj fs) = false
hashable _ = true

abbrev textual : Value → Bool
textual (str s) = true
textual _ = false

-- a namespace that is a text, or false as Python reads it
abbrev placeable : Option Value → Bool
placeable (some (obj fs)) = textual (or_else (or_null (get fs "namespace")) (str ""))
placeable _ = true

abbrev pub callable : Value → Bool
callable (obj ps) = hashable (or_null (get ps "name")) && placeable (get ps "arguments")
callable _ = false

-- A body that is no text raises; so does a call whose `params` are no object, whose name is a list or an object,
-- or whose namespace is true and no text.
abbrev pub readable : Body → Bool
readable not_json = true
readable undecodable = false
readable (json (obj body)) = callable (or_else (or_null (get body "params")) (obj end))
readable (json _) = true

placed_environment :
    (v : Value) → textual v ≡ true → (environment : String) × (environment_of v ≡ ok environment)
unfolding environment_of
placed_environment (str s) h = (_, refl)
placed_environment _ h = absurd (ground arith)

arguments_placed :
    (o : Option Value)
    → placeable o ≡ true
    → ((fs : Fields) × (environment : String) × (arguments_of o ≡ ok fs)
        × (infer_environment fs ≡ ok environment))
      ⊎ ((name : String) × (message : String) × (arguments_of o
            ≡ raise (missing_param name message)))
unfolding arguments_of infer_environment environment_of
arguments_placed none h = inl (end, "unknown", refl, refl)
arguments_placed (some null) h = inl (end, "unknown", refl, refl)
arguments_placed (some (obj fs)) h =
    let (environment, e) = placed_environment (or_else (or_null (get fs "namespace")) (str "")) h in
    inl (fs, environment, refl, e)
arguments_placed (some _) h = inr (_, _, refl)

module _ (env : Env) (rpc_id : Value) where
  registered-hashable :
      (v : Value) → hashable v ≡ true → (o : Option String) × (registered env rpc_id v ≡ ok o)
  unfolding registered
  registered-hashable (str s) h = (_, refl)
  registered-hashable (arr vs) h = absurd (ground arith)
  registered-hashable (obj fs) h = absurd (ground arith)
  registered-hashable _ h = (none, refl)

  intercept_unnamed :
      (ps : Fields) (agent : Agent) (tr : Trace)
      → truthy (or_null (get ps "name")) ≡ false
      → (intercept_tool_call env (obj ps) agent tr).0
        ≡ raise (missing_param "name" "missing required field 'name'")
  unfolding intercept_tool_call as_dict named
  intercept_unnamed ps agent tr e = ground (arith, e)

  intercept_refused :
      (ps : Fields) (agent : Agent) (tr : Trace) (name message : String)
      → truthy (or_null (get ps "name")) ≡ true
      → arguments_of (get ps "arguments") ≡ raise (missing_param name message)
      → (intercept_tool_call env (obj ps) agent tr).0 ≡ raise (missing_param name message)
  unfolding intercept_tool_call as_dict named
  intercept_refused ps agent tr name message e f = ground (arith, e, f)

  abbrev context_of : Fields → Agent → Trace → Fields → ToolCallContext
  context_of ps agent tr fs = record {
    tool_name = or_null (get ps "name");
    arguments = fs;
    agent_id = format env agent.id;
    role = agent.role;
    requested_at = env.now tr;
  }

  intercept_taken :
      (ps fs : Fields) (agent : Agent) (tr : Trace)
      → truthy (or_null (get ps "name")) ≡ true
      → arguments_of (get ps "arguments") ≡ ok fs
      → (intercept_tool_call env (obj ps) agent tr).0 ≡ ok (context_of ps agent tr fs)
  unfolding intercept_tool_call as_dict named
  intercept_taken ps fs agent tr e f = ground (arith, e, f)

  pub intercepted :
      (params : Value) (agent : Agent) (tr : Trace)
      → callable params ≡ true
      → ((c : ToolCallContext) × (environment : String) × (o : Option String)
          × ((intercept_tool_call env params agent tr).0 ≡ ok c)
          × (infer_environment c.arguments ≡ ok environment)
          × (registered env rpc_id c.tool_name ≡ ok o))
        ⊎ ((name : String) × (message : String) × ((intercept_tool_call env params agent tr).0
              ≡ raise (missing_param name message)))
  intercepted (obj ps) agent tr h = elim (Bool-cases (truthy (or_null (get ps "name")))) [
    | inr e ↦ inr (_, _, intercept_unnamed ps agent tr e)
    | inl e ↦ elim (arguments_placed (get ps "arguments") (ground (arith, h))) [
      | inr (name, message, f) ↦ inr (name, message, intercept_refused ps agent tr name message e f)
      | inl (fs, environment, f, g) ↦
          let (o, k) = registered-hashable (or_null (get ps "name")) (ground (arith, h)) in
          inl (context_of ps agent tr fs, environment, o, intercept_taken ps fs agent tr e f, g, k)
    ]
  ]
  intercepted _ agent tr h = absurd (ground arith)
