-- ===== src/Mediation/JsonRpc.antt =====
-- What a JSON-RPC 2.0 response to a request is, and the ends of a handler that give one.
use mcp_control_plane.Prelude.{
  ℕ, ◌≤◌, String, ◌≡◌, refl, Option, none, some, List, [], arith, ◌⊎◌, inl, inr,
}
use mcp_control_plane.Value.{ℤ, Value, null, int, str, obj, Fields, get, or_null}
use mcp_control_plane.World.{pure}
use mcp_control_plane.Http.{Body, json, Response, no_stream, json_response, rpc_result, rpc_error}
use mcp_control_plane.Traces.Yields.{
  Yields, Yields-pure, Yields-if, Yields-bind, Yields-bind_with, yield_rules,
}

-- the `id` that a response must carry: that of the request, or null where there is none to read
abbrev pub request_id : Body → Value
request_id (json (obj body)) = or_null (get body "id")
request_id _ = null

-- A success carries a result and no error, under a status of 200 or 202.
abbrev pub IsSuccess : ℕ → Fields → Type 0
IsSuccess status fs =
    ((status ≡ 200) ⊎ (status ≡ 202))
    × (get fs "error" ≡ none)
    × (result : Value) × (get fs "result" ≡ some result)

-- A failure carries no result, and an error with a code and a message, under a status of 400 or more.
abbrev pub IsFailure : ℕ → Fields → Type 0
IsFailure status fs =
    (400 ≤ status)
    × (get fs "result" ≡ none)
    × (error : Fields) × (code : ℤ) × (message : String) × (get fs "error" ≡ some (obj error))
    × (get error "code" ≡ some (int code))
    × (get error "message" ≡ some (str message))

-- The response is a JSON-RPC 2.0 one, for a request with the id.
abbrev pub IsRpc : Value → Response → Type 0
IsRpc rpc_id resp =
    (fs : Fields) × (resp.body ≡ obj fs)
    × (get fs "jsonrpc" ≡ some (str "2.0"))
    × (get fs "id" ≡ some rpc_id)
    × (IsSuccess resp.status fs ⊎ IsFailure resp.status fs)

module _ {rpc_id : Value} where
  pub error-IsRpc :
      (status : ℕ) (code : ℤ) (message : String) (details : Option Value)
      (hs : List (String × String))
      → 400 ≤ status
      → IsRpc rpc_id (record {
        status = status;
        body = rpc_error rpc_id code message details;
        headers = hs;
        stream = no_stream;
      })
  error-IsRpc status code message none hs h =
      (_, refl, refl, refl, inr (h, refl, _, code, message, refl, refl, refl))
  error-IsRpc status code message (some d) hs h =
      (_, refl, refl, refl, inr (h, refl, _, code, message, refl, refl, refl))

  pub success-IsRpc :
      (status : ℕ) (result : Value)
      → (status ≡ 200) ⊎ (status ≡ 202)
      → IsRpc rpc_id (json_response status (rpc_result rpc_id result))
  success-IsRpc status result h = (_, refl, refl, refl, inl (h, refl, result, refl))

  -- the ends of a branch
  pub pure_success :
      (result : Value) → Yields (IsRpc rpc_id) (pure (json_response 200 (rpc_result rpc_id result)))
  pure_success result = Yields-pure _ (success-IsRpc 200 result (inl refl))

  pub pure_accepted :
      (result : Value) → Yields (IsRpc rpc_id) (pure (json_response 202 (rpc_result rpc_id result)))
  pure_accepted result = Yields-pure _ (success-IsRpc 202 result (inr refl))

  pub pure_plain_error :
      (status : ℕ) (code : ℤ) (message : String)
      → 400 ≤ status
      → Yields (IsRpc rpc_id) (pure (json_response status (rpc_error rpc_id code message none)))
  pure_plain_error status code message h = Yields-pure _ (error-IsRpc status code message none [] h)

  pub pure_error :
      (status : ℕ) (code : ℤ) (message : String) (details : Value)
      → 400 ≤ status
      → Yields
          (IsRpc rpc_id)
          (pure (json_response status (rpc_error rpc_id code message (some details))))
  pure_error status code message details h =
      Yields-pure _ (error-IsRpc status code message (some details) [] h)

pub bad_request : 400 ≤ 400
bad_request = omega arith

pub forbidden_status : 400 ≤ 403
forbidden_status = omega arith

pub not_found_status : 400 ≤ 404
not_found_status = omega arith

pub server_error : 400 ≤ 500
server_error = omega arith

pub ruleset rpc_rules = (
  yield_rules, pure_success, pure_accepted, pure_plain_error, pure_error, bad_request,
  forbidden_status, not_found_status, server_error,
)
