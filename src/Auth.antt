-- ===== src/Auth.antt =====
-- app/middleware/auth.py: API keys and the authentication middleware.
use text.Mathlib.Text.{starts_with}
use mcp_control_plane.Prelude.{
  ℕ, String, Bool, false, Option, none, some, List, [], ◌∷◌, contains, ◌||◌, ◌==◌, if◌then◌else◌,
}
use mcp_control_plane.Value.{null, str, minus}
use mcp_control_plane.World.{M, pure}
use mcp_control_plane.Interceptor.{Agent}
use mcp_control_plane.Http.{Response, json_response, rpc_error}

abbrev pub default_rate_limit_rpm : ℕ
default_rate_limit_rpm = 60

abbrev pub public_paths : List String
public_paths = "/health/live" ∷ "/health/ready" ∷ []

abbrev pub public_path_prefixes : List String
public_path_prefixes = "/admin/approvals/" ∷ "/admin/audit" ∷ []

-- `path.startswith(prefixes)`
unfoldable pub starts_with_any : String → List String → Bool
starts_with_any path [] = false
starts_with_any path (prefix ∷ prefixes) = starts_with path prefix || starts_with_any path prefixes

unfoldable pub is_public : String → Bool
unfolding starts_with_any
is_public path = contains public_paths path || starts_with_any path public_path_prefixes

abbrev pub test_agent : Agent
test_agent = record {
  id = str "agent01";
  role = "sre1";
  allowed_tools =
      "get_pod_logs" ∷ "list_pods" ∷ "get_deployment_status" ∷ "restart_deployment"
      ∷ "scale_deployment" ∷ "read_prometheus_metrics" ∷ "exec_into_pod" ∷ "apply_k8s_manifest"
      ∷ [];
  rate_limit_rpm = default_rate_limit_rpm;
}

abbrev pub api_keys : List (String × Agent)
api_keys = ("test_key", test_agent) ∷ []

-- `API_KEYS.get(key)` of a registry
unfoldable pub find_agent : List (String × Agent) → String → Option Agent
find_agent [] key = none
find_agent ((k, agent) ∷ rest) key = if k == key then some agent else find_agent rest key

-- A missing header is the key None, which no entry has.
unfoldable pub agent_of : List (String × Agent) → Option String → Option Agent
unfolding find_agent
agent_of keys none = none
agent_of keys (some key) = find_agent keys key

abbrev pub unauthorised : Response
unauthorised = json_response 401 (rpc_error null (minus 32001) "Missing or invalid API key" none)

abbrev admitted : Option Agent → (Option Agent → M Response) → M Response
admitted none call_next = pure unauthorised
admitted (some agent) call_next = call_next (some agent)

-- The middleware: what comes next is given the agent that is left on the request, if any.
unfoldable pub authenticate :
    List (String × Agent) → String → Option String → (Option Agent → M Response) → M Response
unfolding is_public agent_of
authenticate keys path api_key call_next =
    if is_public path then call_next none else admitted (agent_of keys api_key) call_next
