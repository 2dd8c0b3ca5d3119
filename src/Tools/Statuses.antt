-- ===== src/Tools/Statuses.antt =====
-- app/tools/ under app/main.py: every error type of an executor has an HTTP status, so that POST /mcp answers
-- with the executors as its tools.
use mcp_control_plane.Prelude.{ℕ, String, ◌≡◌, true, Option, List, arith, contains}
use mcp_control_plane.Value.{Value, Fields}
use mcp_control_plane.World.{Result, ok, Trace, Env, refused}
use mcp_control_plane.Interceptor.{Agent}
use mcp_control_plane.Execution.{error_type_status}
use mcp_control_plane.App.{Site, post_mcp, serve}
use mcp_control_plane.Http.{Body, Response}
use mcp_control_plane.Traces.Raising.{passes}
use mcp_control_plane.Mediation.Serving.{Services, Serving, known_status}
use mcp_control_plane.Mediation.Readable.{readable}
use mcp_control_plane.Mediation.Answered.{Renderable, serve_answered}
use mcp_control_plane.Tools.Backend.{Backends}
use mcp_control_plane.Tools.Registry.{call_executor, reply_of, tool_reply}
use mcp_control_plane.Tools.Errors.{error_types, is_known}
use mcp_control_plane.Tools.HttpErrors.{call_executor-Known}

reply-Known :
    (b : Backends) (r : Result Value) (t m : String)
    → passes is_known r ≡ true
    → reply_of b r ≡ refused t m
    → contains error_types t ≡ true
unfolding reply_of
reply-Known b r t m h e = ground (arith, h, e)

module _ (b : Backends) (tr : Trace) (name : String) (arguments : Fields) (t m : String) where
  types_known : tool_reply b tr name arguments ≡ refused t m → contains error_types t ≡ true
  unfolding tool_reply
  types_known e =
      reply-Known b (call_executor b name arguments tr).0 t m
        ((call_executor-Known b arguments name).at tr) e

  -- An executor that refuses a call with an ExecutorError, whichever tool and arguments and whatever its
  -- backends answer, gives an error type that `_ERROR_TYPE_STATUS` has a status for.
  pub tool_reply-status :
      tool_reply b tr name arguments ≡ refused t m → (n : ℕ) × (error_type_status t ≡ ok n)
  tool_reply-status e = known_status t (types_known e)

module _ (env : Env) (b : Backends) where
  executors-Serving : Services env → env.tool ≡ tool_reply b → Serving env
  executors-Serving s e = record {
    services = s;
    types = λ tr name arguments t m h. types_known b tr name arguments t m (cc);
  }

  -- With the thirteen executors as the tools, POST /mcp is answered, through authentication and rate limiting:
  -- whatever the key, what happened before and what the executors' backends answer, where Postgres and Redis take
  -- and answer what they are sent and the policy engine fails or answers with an object whose `result`, if any, is
  -- an object, and what the handler answers can be rendered as JSON; unless the body is no text, its `params` is true and no object, or its call's name is a list or an
  -- object, or the call's namespace is true and no text.
  pub executors_answered :
      (site : Site) (keys : List (String × Agent)) (body : Body) (api_key : Option String)
      (tr : Trace)
      → Services env
      → env.tool ≡ tool_reply b
      → readable body ≡ true
      → Renderable env body
      → (resp : Response) × ((serve env site keys
            (record { api_key = api_key; route = post_mcp body })
            tr).0
          ≡ ok resp)
  executors_answered site keys body api_key tr s e h shown =
      serve_answered env (executors-Serving s e) site keys body api_key tr h shown
