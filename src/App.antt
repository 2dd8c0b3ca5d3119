-- ===== src/App.antt =====
-- app/main.py: the routes, and the middleware stack around them; app/middleware/logging.py.
pub mod Access
pub mod Logged
mod Calls
pub mod Kept
use mcp_control_plane.Prelude.{
  ℕ, String, Bool, true, Option, none, some, List, [], ◌∷◌, concat, contains, if◌then◌else◌,
}
use mcp_control_plane.Value.{Value, null, str, record_of}
use mcp_control_plane.World.{
  attribute_error, value_error, Result, ok, raise, Env, Trace, M, pure, throw, ◌>>=◌,
}
use mcp_control_plane.Interceptor.{Agent, format}
use mcp_control_plane.Http.{Body, Response, json_response, no_stream, ndjson_text, agent_events}
use mcp_control_plane.Gateway.{mcp}
use mcp_control_plane.Decisions.{DecideHttp, decide, approval_status}
use mcp_control_plane.Query.{Db}
use mcp_control_plane.AuditApi.{AuditParams, get_audit_log}
use mcp_control_plane.ExportApi.{export_audit_log_endpoint}
use mcp_control_plane.Auth.{authenticate}
use mcp_control_plane.RateLimit.{rate_limited_paths, rate_limit}

-- What the audit routes read besides: the answers of Postgres to their SELECTs, and `json.dumps`.
pub record Site : Type 0 where
  pub db : Db
  pub dumps : Value → String

-- The routes, and what each reads of a request.
pub data Route : Type 0 where
  post_mcp : Body → Route
  get_sse : Route
  post_decide : String → DecideHttp → Route
  get_status : String → Route
  get_audit : AuditParams → Route
  get_export : String → String → Route
  get_live get_ready : Route

-- the path that a route is dispatched on
abbrev pub path_of : Route → String
path_of (post_mcp body) = "/mcp"
path_of get_sse = "/mcp/sse"
path_of (post_decide approval_id request) =
    concat ("/admin/approvals/" ∷ approval_id ∷ "/decide" ∷ [])
path_of (get_status approval_id) = concat ("/admin/approvals/" ∷ approval_id ∷ "/status" ∷ [])
path_of (get_audit params) = "/admin/audit"
path_of (get_export from_text to_text) = "/admin/audit/export"
path_of get_live = "/health/live"
path_of get_ready = "/health/ready"

abbrev pub method_of : Route → String
method_of (post_mcp body) = "POST"
method_of (post_decide approval_id request) = "POST"
method_of _ = "GET"

pub record Request : Type 0 where
  pub api_key : Option String
  pub route : Route

-- The response of GET /mcp/sse: its generator subscribes to the hub under the agent's id.
unfoldable pub sse : Env → Agent → M Response
sse env agent = pure (record {
  status = 200;
  body = null;
  headers = [];
  stream = agent_events (format env agent.id);
})

abbrev health : Response
health = json_response 200 (record_of (("status", str "ok") ∷ []))

-- Handlers read `request.state.agent`, which is an AttributeError where no middleware has set it.
unfoldable pub endpoint : Env → Site → Route → Option Agent → M Response
unfolding mcp sse decide approval_status get_audit_log export_audit_log_endpoint
endpoint env site (post_mcp body) none = throw attribute_error
endpoint env site (post_mcp body) (some agent) = mcp env agent body
endpoint env site get_sse none = throw attribute_error
endpoint env site get_sse (some agent) = sse env agent
endpoint env site (post_decide approval_id request) agent = decide env approval_id request
endpoint env site (get_status approval_id) agent = approval_status env approval_id
endpoint env site (get_audit params) agent = get_audit_log env site.db params
endpoint env site (get_export from_text to_text) agent =
    export_audit_log_endpoint site.dumps site.db from_text to_text
endpoint env site get_live agent = pure health
endpoint env site get_ready agent = pure health

-- Whether a response can be built: `JSONResponse.render` is a ValueError for a NaN, an infinity or a lone surrogate.
abbrev pub is_rendered : Env → Response → Bool
is_rendered env response = elim response.stream [
  | no_stream ↦ env.renders response.body
  | ndjson_text text ↦ true
  | agent_events agent_id ↦ true
]

-- A JSON response is rendered where it is built, which is the last that a handler does.
unfoldable pub rendered : Env → M Response → M Response
rendered env m = do
  response ← m
  if is_rendered env response then pure response else throw value_error

unfoldable pub handler : Env → Site → Route → Option Agent → M Response
unfolding endpoint rendered
handler env site route agent = rendered env (endpoint env site route agent)

-- `rate_limit` reads the agent only on a limited path.
unfoldable pub limit_then : Env → Site → Request → Option Agent → M Response
unfolding handler rate_limit
limit_then env site r none =
    if contains rate_limited_paths (path_of r.route)
    then throw attribute_error
    else handler env site r.route none
limit_then env site r (some agent) =
    rate_limit env (path_of r.route) agent (handler env site r.route (some agent))

-- authenticate → rate_limit → route handler
unfoldable pub serve : Env → Site → List (String × Agent) → Request → M Response
unfolding authenticate limit_then
serve env site keys r = authenticate keys (path_of r.route) r.api_key (limit_then env site r)

-- A line of the request log, without the duration.
pub record LogLine : Type 0 where
  pub method : String
  pub path : String
  pub status : ℕ

abbrev pub line_of : Request → Result Response → List LogLine → List LogLine
line_of r (raise e) lines = lines
line_of r (ok response) lines =
    record { method = method_of r.route; path = path_of r.route; status = response.status } ∷ lines

-- `log_requests`, over the trace and the lines so far, newest first: it writes behind `call_next`, where that
-- has returned.
unfoldable pub log_requests :
    Request → M Response → Trace × List LogLine → Result Response × (Trace × List LogLine)
log_requests r call_next (tr, lines) =
    let (response, tr') = call_next tr in (response, (tr', line_of r response lines))

-- One request after the other through `log_requests` and what it wraps: the answers in order, and what they
-- leave.
unfoldable pub run_logged :
    (Request → M Response)
    → List Request
    → Trace × List LogLine
    → List (Result Response) × (Trace × List LogLine)
unfolding log_requests
run_logged server [] state = ([], state)
run_logged server (r ∷ rs) state =
    let (answer, state') = log_requests r (server r) state in
    let (answers, after) = run_logged server rs state' in (answer ∷ answers, after)

-- log_requests → authenticate → rate_limit → route handler
abbrev pub run_app :
    Env
    → Site
    → List (String × Agent)
    → List Request
    → Trace × List LogLine
    → List (Result Response) × (Trace × List LogLine)
run_app env site keys = run_logged (serve env site keys)
