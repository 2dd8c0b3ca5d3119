-- ===== src/Policy.antt =====
-- app/authz/opa.py: the policy decision point.
use mcp_control_plane.Prelude.{
  String, Bool, false, Option, none, some, [], ◌∷◌, concat, if◌then◌else◌,
}
use mcp_control_plane.Value.{Value, obj, Fields, end, truthy, get, str, dict, record_of}
use mcp_control_plane.World.{
  attribute_error, Result, ok, raise, HttpReply, http_error, not_json, json, Env, M, lift, ◌>>=◌,
  opa_post, pure, ◌>>◌,
}
use mcp_control_plane.Telemetry.{add, policy_denials_total, one}
use mcp_control_plane.Interceptor.{ToolCallContext, format, to_opa_input}

pub record PolicyDecision : Type 0 where
  pub allow : Bool
  pub require_approval : Bool
  pub reason : String

-- `d.get(key, {})`
abbrev pub or_empty : Option Value → Value
or_empty none = obj end
or_empty (some v) = v

-- The body of the `try`: `none` is an error that it catches. A body that is no dict has no `.get`.
unfoldable pub opa_result : HttpReply → Result (Option Value)
opa_result http_error = ok none
opa_result not_json = ok none
opa_result (json (obj fs)) = ok (some (or_empty (get fs "result")))
opa_result (json _) = raise attribute_error

-- `bool(result.get(key, False))`
abbrev pub flag : Fields → String → Bool
flag fs key = elim (get fs key) [ none ↦ false | some v ↦ truthy v ]

abbrev pub policy_reason : Env → ToolCallContext → Bool → Bool → String
policy_reason env c require_approval allow =
    if require_approval
    then concat (
        "'"
        ∷ format env c.tool_name
        ∷ "' is a destructive action in prod and requires approval"
        ∷ [])
    else if allow
    then "allowed by OPA policy"
    else "denied by OPA policy"

unfoldable pub decision_of : Env → ToolCallContext → Option Value → Result PolicyDecision
decision_of env c none =
    ok (record { allow = false; require_approval = false; reason = "policy engine unavailable" })
decision_of env c (some (obj result)) =
    let allow = flag result "allow" in
    let require_approval = flag result "require_approval" in
    ok (record {
      allow = allow;
      require_approval = require_approval;
      reason = policy_reason env c require_approval allow;
    })
decision_of env c (some _) = raise attribute_error

-- where the policy engine cannot be asked, or neither allows the call nor holds it
unfoldable pub count_denial : ToolCallContext → PolicyDecision → M (Unit {0})
unfolding add
count_denial c decision =
    if decision.require_approval
    then pure tt
    else if decision.allow
    then pure tt
    else add policy_denials_total one
        (dict (("tool_name", c.tool_name) ∷ ("role", str c.role) ∷ []))

unfoldable pub evaluate_policy : Env → ToolCallContext → M PolicyDecision
unfolding to_opa_input opa_result decision_of opa_post count_denial
evaluate_policy env c = do
  input ← lift (to_opa_input c)
  reply ← opa_post env (record_of (("input", input) ∷ []))
  result ← lift (opa_result reply)
  decision ← lift (decision_of env c result)
  count_denial c decision
  pure decision
