-- ===== src/Gateway.antt =====
-- app/main.py: the handler of POST /mcp. Each part of the handler between two of its awaits is a
-- function of its own; the branches stand in the order of the source.
mod Responses
mod Enforce
unfoldable pub use Responses.*
unfoldable pub use Enforce.*
use mcp_control_plane.Prelude.{
  String, Bool, false, Option, none, some, List, [], ◌∷◌, concat, contains, ◌==◌, not,
  if◌then◌else◌,
}
use mcp_control_plane.Value.{
  Value, null, str, arr, obj, Fields, end, minus, truthy, get, or_null, or_else, record_of, list_of,
}
use mcp_control_plane.World.{
  missing_param, type_error, value_error, Result, ok, raise, Env, M, pure, throw, lift, ◌>>=◌, ◌>>◌,
}
use mcp_control_plane.Interceptor.{
  Agent, ToolCallContext, format, infer_environment, intercept_tool_call,
}
use mcp_control_plane.Policy.{evaluate_policy}
use mcp_control_plane.Http.{
  Body, not_json, undecodable, json, Response, json_response, rpc_result, rpc_error,
}
use mcp_control_plane.Execution.{registry}

module _ (env : Env) (rpc_id : Value) where
  -- `tool_name not in TOOLS`: a list or a dict cannot be hashed; `none` is a name that is not there.
  unfoldable pub registered : Value → Result (Option String)
  registered (str s) = ok (if contains registry s then some s else none)
  registered (arr vs) = raise type_error
  registered (obj fs) = raise type_error
  registered _ = ok none

  unfoldable pub after_lookup : Agent → ToolCallContext → Option String → M Response
  unfolding invalid_param forbidden evaluate_policy enforce
  after_lookup agent c none = pure (
      invalid_param env rpc_id "name"
        (concat ("unknown tool '" ∷ format env c.tool_name ∷ "'" ∷ [])))
  after_lookup agent c (some name) =
      if not (contains agent.allowed_tools name)
      then pure (forbidden env rpc_id agent name)
      else do decision ← evaluate_policy env c; enforce env rpc_id c name decision

  -- The environment is read here for an attribute of the request's span, before the name is looked up.
  unfoldable pub after_intercept : Agent → Result ToolCallContext → M Response
  unfolding infer_environment registered after_lookup invalid_param
  after_intercept agent (raise (missing_param name message)) =
      pure (invalid_param env rpc_id name message)
  after_intercept agent (raise e) = throw e
  after_intercept agent (ok c) = do
    lift (infer_environment c.arguments)
    name ← lift (registered c.tool_name)
    after_lookup agent c name

  unfoldable pub tools_call : Value → Agent → M Response
  unfolding intercept_tool_call after_intercept
  tools_call params agent tr =
      let (r, tr') = intercept_tool_call env params agent tr in after_intercept agent r tr'

-- `[name for name in TOOLS if name in agent.allowed_tools]`
unfoldable pub listed : Agent → List String → List Value
listed agent [] = []
listed agent (name ∷ names) =
    let rest = listed agent names in
    if contains agent.allowed_tools name then record_of (("name", str name) ∷ []) ∷ rest else rest

abbrev pub is_text : Value → String → Bool
is_text (str s) t = s == t
is_text _ t = false

-- the part of `mcp` behind the parsing of the body
unfoldable pub mcp_call : Env → Agent → Fields → M Response
unfolding tools_call listed
mcp_call env agent body =
    let rpc_id = or_null (get body "id") in
    let method = or_null (get body "method") in
    let params = or_else (or_null (get body "params")) (obj end) in
    if not (truthy method)
    then pure
        (json_response 400 (rpc_error rpc_id (minus 32600) "Invalid Request: missing method" none))
    else if is_text method "tools/list"
    then pure (
        json_response 200
          (rpc_result rpc_id (record_of (("tools", list_of (listed agent registry)) ∷ []))))
    else if is_text method "tools/call"
    then tools_call env rpc_id params agent
    else pure (
        json_response 404 (
          rpc_error rpc_id (minus 32601) (concat ("Method not found: " ∷ format env method ∷ []))
            none))

-- the handler of POST /mcp, for the agent that `authenticate` has found
unfoldable pub mcp : Env → Agent → Body → M Response
unfolding mcp_call
mcp env agent not_json = pure (json_response 400 (rpc_error null (minus 32700) "Parse error" none))
mcp env agent undecodable = throw value_error
mcp env agent (json (obj body)) = mcp_call env agent body
mcp env agent (json _) =
    pure (json_response 400 (rpc_error null (minus 32600) "Invalid Request" none))
