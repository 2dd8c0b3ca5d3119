-- ===== src/Interceptor.antt =====
-- app/interceptor.py, with the agent identity of app/middleware/auth.py.
use text.Mathlib.Text.{starts_with}
use mcp_control_plane.Prelude.{String, Option, none, some, List, [], ◌∷◌, if◌then◌else◌}
use mcp_control_plane.Value.{
  Value, null, str, obj, Fields, end, truthy, get, or_null, or_else, record_of,
}
use mcp_control_plane.Prelude.{ℕ}
use mcp_control_plane.World.{
  missing_param, attribute_error, Result, ok, raise, Env, M, pure, lift, ◌>>=◌, time_now,
}

-- The registry's `id` is a str, an int or None.
pub record Agent : Type 0 where
  pub id : Value
  pub role : String
  pub allowed_tools : List String
  pub rate_limit_rpm : ℕ

pub record ToolCallContext : Type 0 where
  pub tool_name : Value
  pub arguments : Fields
  pub agent_id : String
  pub role : String
  pub requested_at : ℕ

-- `str(v)`: of a str it is the str itself.
abbrev pub format : Env → Value → String
format env (str s) = s
format env v = env.format v

abbrev pub environment_prefixes : List String
environment_prefixes = "prod" ∷ "staging" ∷ "dev" ∷ []

-- the loop of `_infer_environment`
unfoldable pub first_prefix : String → List String → String
first_prefix namespace [] = "unknown"
first_prefix namespace (env ∷ envs) =
    if starts_with namespace env then env else first_prefix namespace envs

-- `.startswith` is there on a str alone.
unfoldable pub environment_of : Value → Result String
unfolding first_prefix
environment_of (str namespace) = ok (first_prefix namespace environment_prefixes)
environment_of _ = raise attribute_error

unfoldable pub infer_environment : Fields → Result String
unfolding environment_of
infer_environment arguments =
    environment_of (or_else (or_null (get arguments "namespace")) (str ""))

abbrev pub opa_document : ToolCallContext → String → Value
opa_document c environment = record_of (
    ("agent", record_of (("id", str c.agent_id) ∷ ("role", str c.role) ∷ []))
    ∷ ("tool", record_of (("name", c.tool_name) ∷ ("args", obj c.arguments) ∷ []))
    ∷ ("resource", record_of (("namespace", or_null (get c.arguments "namespace")) ∷ []))
    ∷ ("environment", str environment)
    ∷ [])

abbrev with_environment : ToolCallContext → Result String → Result Value
with_environment c (ok environment) = ok (opa_document c environment)
with_environment c (raise e) = raise e

unfoldable pub to_opa_input : ToolCallContext → Result Value
to_opa_input c = with_environment c (infer_environment c.arguments)

-- `params.get("arguments", {})`, with None read as {}
unfoldable pub arguments_of : Option Value → Result Fields
arguments_of none = ok end
arguments_of (some null) = ok end
arguments_of (some (obj fs)) = ok fs
arguments_of (some _) = raise (missing_param "arguments" "'arguments' must be an object")

-- `params.get` is there on a dict alone.
unfoldable pub as_dict : Value → Result Fields
as_dict (obj fs) = ok fs
as_dict _ = raise attribute_error

unfoldable pub named : Value → Result Value
named v = if truthy v then ok v else raise (missing_param "name" "missing required field 'name'")

unfoldable pub intercept_tool_call : Env → Value → Agent → M ToolCallContext
unfolding arguments_of as_dict named time_now
intercept_tool_call env params agent = do
  ps ← lift (as_dict params)
  tool_name ← lift (named (or_null (get ps "name")))
  arguments ← lift (arguments_of (get ps "arguments"))
  now ← time_now env
  pure (record {
    tool_name = tool_name;
    arguments = arguments;
    agent_id = format env agent.id;
    role = agent.role;
    requested_at = now;
  })
