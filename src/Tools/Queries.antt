-- ===== src/Tools/Queries.antt =====
-- app/tools/tools_spec.py: `read_prometheus_metrics` and the executors on tickets.
use mcp_control_plane.Prelude.{
  String, Bool, false, List, [], ◌∷◌, concat, not, ◌==◌, ◌||◌, if◌then◌else◌,
}
use mcp_control_plane.Value.{
  Value, null, str, arr, obj, nil, Fields, end, truthy, or_else, record_of,
}
use mcp_control_plane.World.{M, pure, lift, ◌>>=◌}
use mcp_control_plane.Tools.Backend.{
  Backends, shown, index, get_of, get_default, arg, validation_error, upstream_error, json_of,
}
use mcp_control_plane.Tools.HttpClient.{http_get, is_set, elements}

abbrev pub equals_text : Value → String → Bool
equals_text (str s) t = s == t
equals_text _ t = false

-- the path and the parameters of a range query or of an instant query
unfoldable pub prometheus_request : Fields → String × Value
prometheus_request arguments =
    let query = arg arguments "query" in
    if truthy (arg arguments "start")
      || (truthy (arg arguments "end") || truthy (arg arguments "step"))
    then (
      "/api/v1/query_range",
      record_of (
          ("query", query)
          ∷ ("start", arg arguments "start")
          ∷ ("end", arg arguments "end")
          ∷ ("step", arg arguments "step")
          ∷ []),
    )
    else if truthy (arg arguments "time")
    then ("/api/v1/query", record_of (("query", query) ∷ ("time", arg arguments "time") ∷ []))
    else ("/api/v1/query", record_of (("query", query) ∷ []))

unfoldable pub query_failed : Backends → Value → M Value
unfolding get_default shown
query_failed b body = do
  error ← lift (get_default body "error" (str "unknown error"))
  upstream_error (concat ("Prometheus query failed: " ∷ shown b error ∷ []))

-- the answer for the body of Prometheus, which is 200 for a failed query too
unfoldable pub prometheus_result : Backends → Value → Value → M Value
unfolding get_of get_default query_failed
prometheus_result b query body = do
  status ← lift (get_of body "status")
  if not (equals_text status "success") then query_failed b body else do
    payload ← lift (get_default body "data" (obj end))
    result_type ← lift (get_of payload "resultType")
    result ← lift (get_default payload "result" (arr nil))
    pure (record_of (("query", query) ∷ ("result_type", result_type) ∷ ("result", result) ∷ []))

unfoldable pub read_prometheus_metrics : Backends → Fields → M Value
unfolding http_get json_of prometheus_request prometheus_result
read_prometheus_metrics b arguments =
    let query = arg arguments "query" in
    let request = prometheus_request arguments in
    if not (truthy query) then validation_error "'query' is required" else do
      r ←
          http_get b
            (record {
              not_found_message = "Prometheus endpoint not found";
              upstream_label = "Prometheus";
            })
            (concat (b.prometheus_url ∷ request.0 ∷ [])) request.1
      body ← lift (json_of r)
      prometheus_result b query body

unfoldable pub open_ticket : Fields → M Value
open_ticket arguments = pure (record_of (("status", str "success") ∷ []))

-- `(d.get(key) or {}).get(name)`
unfoldable pub nested_get : Value → (key name : String) → M Value
unfolding get_of
nested_get d key name = do inner ← lift (get_of d key); lift (get_of (or_else inner (obj end)) name)

-- the summary of the first assignee that is there, or None
unfoldable pub first_assignee : List Value → M Value
unfolding get_of index
first_assignee [] = pure null
first_assignee (a ∷ rest) = do
  assignee ← lift (get_of a "assignee")
  if truthy assignee then lift (index assignee "summary") else first_assignee rest

unfoldable pub incident_result : Value → M Value
unfolding index get_of nested_get get_default elements first_assignee
incident_result incident = do
  id ← lift (index incident "id")
  status ← lift (get_of incident "status")
  title ← lift (get_of incident "title")
  priority ← nested_get incident "priority" "summary"
  urgency ← lift (get_of incident "urgency")
  created_at ← lift (get_of incident "created_at")
  assignments ← lift (get_default incident "assignments" (arr nil))
  listed ← lift (elements assignments)
  assigned_to ← first_assignee listed
  last_activity ← lift (get_of incident "last_status_change_at")
  pure (
      record_of (
        ("system", str "pagerduty")
        ∷ ("ticket_id", id)
        ∷ ("status", status)
        ∷ ("title", title)
        ∷ ("severity", or_else priority urgency)
        ∷ ("created_at", created_at)
        ∷ ("assigned_to", assigned_to)
        ∷ ("last_activity", last_activity)
        ∷ ("notes_count", null)
        ∷ []))

unfoldable pub read_pagerduty_incident : Backends → Value → M Value
unfolding http_get shown json_of index incident_result
read_pagerduty_incident b ticket_id =
    if not (is_set b.pagerduty_api_token)
    then upstream_error "PagerDuty is not configured (PAGERDUTY_API_TOKEN)"
    else do
      r ←
          http_get b
            (record {
              not_found_message =
                  concat ("PagerDuty incident '" ∷ shown b ticket_id ∷ "' not found" ∷ []);
              upstream_label = "PagerDuty";
            })
            (concat (b.pagerduty_url ∷ "/incidents/" ∷ shown b ticket_id ∷ [])) null
      body ← lift (json_of r)
      incident ← lift (index body "incident")
      incident_result incident

unfoldable pub issue_result : Value → Value → M Value
unfolding get_of nested_get
issue_result ticket_id fields = do
  status ← nested_get fields "status" "name"
  title ← lift (get_of fields "summary")
  severity ← nested_get fields "priority" "name"
  created_at ← lift (get_of fields "created")
  assigned_to ← nested_get fields "assignee" "emailAddress"
  last_activity ← lift (get_of fields "updated")
  notes_count ← nested_get fields "comment" "total"
  pure (
      record_of (
        ("system", str "jira")
        ∷ ("ticket_id", ticket_id)
        ∷ ("status", status)
        ∷ ("title", title)
        ∷ ("severity", severity)
        ∷ ("created_at", created_at)
        ∷ ("assigned_to", assigned_to)
        ∷ ("last_activity", last_activity)
        ∷ ("notes_count", notes_count)
        ∷ []))

unfoldable pub read_jira_issue : Backends → Value → M Value
unfolding http_get shown json_of index issue_result
read_jira_issue b ticket_id =
    if b.jira_url == "" || (not (is_set b.jira_user) || not (is_set b.jira_api_token))
    then upstream_error "Jira is not configured (JIRA_URL/JIRA_USER/JIRA_API_TOKEN)"
    else do
      r ←
          http_get b
            (record {
              not_found_message = concat ("Jira issue '" ∷ shown b ticket_id ∷ "' not found" ∷ []);
              upstream_label = "Jira";
            })
            (concat (b.jira_url ∷ "/rest/api/2/issue/" ∷ shown b ticket_id ∷ [])) null
      body ← lift (json_of r)
      fields ← lift (index body "fields")
      issue_result ticket_id fields

unfoldable pub read_ticket : Backends → Fields → M Value
unfolding read_pagerduty_incident read_jira_issue
read_ticket b arguments =
    let system = arg arguments "system" in
    let ticket_id = arg arguments "ticket_id" in
    if not (equals_text system "pagerduty" || equals_text system "jira") || not (truthy ticket_id)
    then validation_error "'system' (pagerduty|jira) and 'ticket_id' are required"
    else if equals_text system "pagerduty"
    then read_pagerduty_incident b ticket_id
    else read_jira_issue b ticket_id
