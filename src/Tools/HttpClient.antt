-- ===== src/Tools/HttpClient.antt =====
-- app/tools/tools_spec.py: `_send`, `_http_get` and `_http_post`, and the Python accesses that the HTTP
-- executors share.
use mcp_control_plane.Prelude.{
  String, Bool, false, Option, none, some, List, [], ◌∷◌, concat, not, nat_eq, ◌==◌, if◌then◌else◌,
}
use mcp_control_plane.Value.{Value, str, arr, obj, Items, nil, cons, Fields, end, field}
use mcp_control_plane.World.{
  executor_error, other_error, type_error, key_error, Result, ok, raise, M, lift, ◌>>=◌,
}
use mcp_control_plane.Json.{decimal}
use mcp_control_plane.Tools.Text.{chars}
use mcp_control_plane.Tools.Backend.{
  HttpResponse, HttpAnswer, response, timed_out, unreachable, http_crash, Backends, http_request,
}
use mcp_control_plane.Tools.Config.{get_executor_timeout}

-- what a caller of `_send` says of its request
pub record Wanted : Type 0 where
  pub not_found_message : String
  pub upstream_label : String

-- `_send`, for the way that the request ends
unfoldable pub send_result : Backends → Wanted → HttpAnswer → Result HttpResponse
unfolding get_executor_timeout
send_result b w (response r) =
    if nat_eq r.status_code 404
    then raise (executor_error "not_found" w.not_found_message)
    else if not r.is_success
    then raise (
        executor_error "upstream_error"
          (concat (w.upstream_label ∷ " error (" ∷ decimal r.status_code ∷ ")" ∷ [])))
    else ok r
send_result b w timed_out = raise (
    executor_error "executor_timeout" (
      concat (
        w.upstream_label
        ∷ " timed out after "
        ∷ b.seconds_text (get_executor_timeout b)
        ∷ "s"
        ∷ [])))
send_result b w (unreachable message) =
    raise (
      executor_error "upstream_error" (concat (w.upstream_label ∷ " unreachable: " ∷ message ∷ [])))
send_result b w (http_crash message) = raise (other_error message)

-- `_send` behind `_http_get` and `_http_post`
unfoldable pub send : Backends → Wanted → (verb url : String) → Value → Fields → M HttpResponse
unfolding http_request send_result
send b w verb url params headers = do
  answer ← http_request b verb url params headers
  lift (send_result b w answer)

unfoldable pub http_get : Backends → Wanted → String → Value → M HttpResponse
unfolding send
http_get b w url params = send b w "GET" url params end

unfoldable pub http_post : Backends → Wanted → String → Value → Fields → M HttpResponse
unfolding send
http_post b w url params headers = send b w "POST" url params headers

-- a setting that is there and not empty
abbrev pub is_set : Option String → Bool
is_set none = false
is_set (some s) = not (s == "")

abbrev pub setting : Option String → String
setting none = "None"
setting (some s) = s

abbrev values_of : Items → List Value
values_of nil = []
values_of (cons v vs) = v ∷ values_of vs

abbrev texts : List String → List Value
texts [] = []
texts (s ∷ ss) = str s ∷ texts ss

abbrev keys_of : Fields → List Value
keys_of end = []
keys_of (field k v fs) = str k ∷ keys_of fs

-- what `for x in v` runs over
unfoldable pub elements : Value → Result (List Value)
unfolding chars
elements (arr vs) = ok (values_of vs)
elements (str s) = ok (texts (chars s))
elements (obj fs) = ok (keys_of fs)
elements _ = raise type_error

abbrev first_char : List String → Result Value
first_char [] = raise key_error
first_char (c ∷ cs) = ok (str c)

-- `v[0]` of a value that is true, so not empty; a KeyError stands for any LookupError
unfoldable pub first_of_value : Value → Result Value
unfolding chars
first_of_value (arr nil) = raise key_error
first_of_value (arr (cons v vs)) = ok v
first_of_value (str s) = first_char (chars s)
first_of_value (obj fs) = raise key_error
first_of_value _ = raise type_error
