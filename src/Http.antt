-- ===== src/Http.antt =====
-- The requests and responses of the gateway, and the JSON-RPC bodies that app/main.py,
-- app/middleware/auth.py and app/middleware/rate_limit.py build.
use mcp_control_plane.Prelude.{ℕ, String, Option, none, some, List, [], ◌∷◌}
use mcp_control_plane.World.{Result}
use mcp_control_plane.Value.{ℤ, Value, int, str, record_of}

-- What `await request.json()` meets: a JSONDecodeError, bytes that are no text (a UnicodeDecodeError),
-- or a value.
pub data Body : Type 0 where
  not_json undecodable : Body
  json : Value → Body

-- What a response streams behind its headers: nothing; the text of an NDJSON export, or the exception that
-- ends it; the events of an agent.
pub data Stream : Type 0 where
  no_stream : Stream
  ndjson_text : Result String → Stream
  agent_events : String → Stream

-- The body of a streaming response is null.
pub record Response : Type 0 where
  pub status : ℕ
  pub body : Value
  pub headers : List (String × String)
  pub stream : Stream

abbrev pub json_response : ℕ → Value → Response
json_response status body = record {
  status = status;
  body = body;
  headers = [];
  stream = no_stream;
}

-- `_rpc_result`
abbrev pub rpc_result : Value → Value → Value
rpc_result rpc_id result =
    record_of (("jsonrpc", str "2.0") ∷ ("id", rpc_id) ∷ ("result", result) ∷ [])

abbrev error_fields : ℤ → String → Option Value → List (String × Value)
error_fields code message none = ("code", int code) ∷ ("message", str message) ∷ []
error_fields code message (some details) =
    ("code", int code) ∷ ("message", str message) ∷ ("data", details) ∷ []

-- `_rpc_error`
abbrev pub rpc_error : Value → ℤ → String → Option Value → Value
rpc_error rpc_id code message details = record_of (
    ("jsonrpc", str "2.0")
    ∷ ("id", rpc_id)
    ∷ ("error", record_of (error_fields code message details))
    ∷ [])

-- `{"field": field, "error": error}`
abbrev pub field_error : String → String → Value
field_error name error = record_of (("field", str name) ∷ ("error", str error) ∷ [])
