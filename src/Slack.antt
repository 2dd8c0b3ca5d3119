-- ===== src/Slack.antt =====
-- app/slack.py: the notification of a pending approval, and the check of a callback's signature.
pub mod Integer
pub mod Genuine
use Prim.Native.String
use Prim.Native.Char.{code}
use mcp_control_plane.Prelude.{
  ℕ, ◌+◌, ◌-◌, ◌*◌, ◌^◌, String, Bool, true, false, Option, none, some, List, [], ◌∷◌, ◌++◌, concat,
  ltb, ◌/◌, ◌%◌, ◌||◌, ◌&&◌, ◌==◌, if◌then◌else◌,
}
use mcp_control_plane.Value.{ℤ, pos, negsuc, Value, str, obj, record_of, list_of}
use mcp_control_plane.World.{
  type_error, overflow_error, other_error, SlackReply, delivered, slack_http_error, slack_crash,
  Env, M, pure, throw, ◌>>=◌, ◌>>◌, time_now, slack_post,
}
use mcp_control_plane.Clock.{second}
use mcp_control_plane.Interceptor.{format}
use mcp_control_plane.Approvals.{Approval}
use mcp_control_plane.Slack.Integer.{py_int}

abbrev pub replay_tolerance_seconds : ℕ
replay_tolerance_seconds = 300

abbrev button : String → String → String → String → Value
button label style action_id value = record_of (
    ("type", str "button")
    ∷ ("text", record_of (("type", str "plain_text") ∷ ("text", str label) ∷ []))
    ∷ ("style", str style)
    ∷ ("action_id", str action_id)
    ∷ ("value", str value)
    ∷ [])

abbrev summary : Env → Approval → String
summary env a = concat (
    "*Approval required*\nAgent: `"
    ∷ a.agent_id
    ∷ "` ("
    ∷ a.role
    ∷ ")\nTool: `"
    ∷ a.tool_name
    ∷ "`\nArguments: `"
    ∷ format env (obj a.arguments)
    ∷ "`\nReason: "
    ∷ a.reason
    ∷ "\nApproval ID: `"
    ∷ a.id
    ∷ "`"
    ∷ [])

unfoldable pub approval_message : Env → Approval → Value
approval_message env a = record_of (
    ("text", str (concat ("Approval required: " ∷ a.tool_name ∷ " by " ∷ a.agent_id ∷ [])))
    ∷ (
      "blocks",
      list_of (
          record_of (
            ("type", str "section")
            ∷ ("text", record_of (("type", str "mrkdwn") ∷ ("text", str (summary env a)) ∷ []))
            ∷ [])
          ∷ record_of (
              ("type", str "actions")
              ∷ (
                "elements",
                list_of (
                    button "Approve" "primary" "approve" a.id
                    ∷ button "Deny" "danger" "deny" a.id
                    ∷ []),
              )
              ∷ [])
          ∷ []),
    )
    ∷ [])

-- `except httpx.HTTPError`: no other exception is caught
abbrev caught : SlackReply → M (Unit {0})
caught delivered = pure tt
caught slack_http_error = pure tt
caught (slack_crash error) = throw (other_error error)

unfoldable pub send_approval_request : Env → Approval → M (Unit {0})
unfolding slack_post
send_approval_request env a =
    if env.slack_webhook_url == ""
    then pure tt
    else do reply ← slack_post env (approval_message env a); caught reply

-- UTF-8 of a header's characters, which are Latin-1.
unfoldable pub encode : String → List ℕ
encode String.[] = []
encode (String.◌∷◌ c s) =
    (if ltb (code c) 128 then code c ∷ [] else (192 + code c / 64) ∷ (128 + code c % 64) ∷ [])
    ++ encode s

abbrev is_ascii : String → Bool
is_ascii String.[] = true
is_ascii (String.◌∷◌ c s) = ltb (code c) 128 && is_ascii s

-- `abs(now - ts)` in microseconds
unfoldable pub age : ℕ → ℤ → ℕ
age now (pos n) = (now - n * second) + (n * second - now)
age now (negsuc n) = now + (n + 1) * second

-- An int from here on is too large to convert to a float.
float_limit : ℕ
float_limit = 2 ^ 1024 - 2 ^ 970

unfoldable pub fits_float : ℤ → Bool
unfolding float_limit
fits_float (pos n) = ltb n float_limit
fits_float (negsuc n) = ltb (n + 1) float_limit

-- The signature of a body, as Slack computes it.
unfoldable pub signature_of : Env → String → List ℕ → String
signature_of env timestamp body = concat (
    "v0="
    ∷ env.hmac_sha256 env.slack_signing_secret
        (encode "v0:" ++ (encode timestamp ++ (encode ":" ++ body)))
    ∷ [])

-- `hmac.compare_digest` refuses texts that are not ASCII.
unfoldable pub compare_digest : String → String → M Bool
compare_digest computed signature =
    if is_ascii signature then pure (computed == signature) else throw type_error

unfoldable pub check_age : Env → String → List ℕ → String → Option ℤ → M Bool
unfolding time_now age fits_float compare_digest
check_age env timestamp body signature none = pure false
check_age env timestamp body signature (some request_ts) = do
  now ← time_now env
  if fits_float request_ts
      then (if ltb (replay_tolerance_seconds * second) (age now request_ts)
          then pure false
          else compare_digest (signature_of env timestamp body) signature)
      else throw overflow_error

-- `timestamp` and `signature` are headers, absent as `none`.
unfoldable pub verify_signature : Env → Option String → List ℕ → Option String → M Bool
unfolding check_age py_int
verify_signature env none body signature = pure false
verify_signature env (some timestamp) body none = pure false
verify_signature env (some timestamp) body (some signature) =
    if timestamp == "" || (signature == "" || env.slack_signing_secret == "")
    then pure false
    else check_age env timestamp body signature (py_int timestamp)
