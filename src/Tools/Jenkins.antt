-- ===== src/Tools/Jenkins.antt =====
-- app/tools/tools_spec.py: the executors on Jenkins jobs.
use mcp_control_plane.Prelude.{
  ℕ, ◌+◌, ◌*◌, String, none, some, List, [], ◌∷◌, concat, not, ltb, nat_eq, ◌==◌, if◌then◌else◌,
}
use mcp_control_plane.Value.{
  pos, Value, null, int, str, arr, obj, Fields, end, field, truthy, or_else, record_of, opt_str,
  nil,
}
use mcp_control_plane.World.{
  attribute_error, other_error, value_error, type_error, Result, ok, raise, M, pure, throw, lift,
  ◌>>=◌, ◌>>◌,
}
use mcp_control_plane.Clock.{isoformat}
use mcp_control_plane.Tools.Text.{split_slash, join}
use mcp_control_plane.Tools.Backend.{
  Backends, HttpAnswer, response, timed_out, unreachable, http_crash, shown, index, get_of,
  get_default, arg, arg_or, validation_error, upstream_error, json_of, http_request,
}
use mcp_control_plane.Tools.HttpClient.{http_get, http_post, elements}
use mcp_control_plane.Tools.Pods.{require_reason}

-- `"/job/" + "/job/".join(job_name.split("/"))`; `.split` is there on a str alone.
unfoldable pub job_path : Value → Result String
unfolding split_slash join
job_path (str s) = ok (concat ("/job/" ∷ join "/job/" (split_slash s) ∷ []))
job_path _ = raise attribute_error

-- the first millisecond of the year 10000
abbrev year_10000 : ℕ
year_10000 = 253402300800000

-- `_epoch_ms_to_iso`
unfoldable pub epoch_ms_to_iso : Backends → Value → Result Value
unfolding isoformat
epoch_ms_to_iso b null = ok null
epoch_ms_to_iso b (int (pos n)) =
    if ltb n year_10000
    then ok (str (isoformat (n * 1000)))
    else elim (b.other_iso (int (pos n))) [ none ↦ raise value_error | some s ↦ ok (str s) ]
epoch_ms_to_iso b v = elim (b.other_iso v) [ none ↦ raise value_error | some s ↦ ok (str s) ]

-- `v + w`
unfoldable pub add_values : Backends → Value → Value → Result Value
add_values b (int (pos m)) (int (pos n)) = ok (int (pos (m + n)))
add_values b v w = elim (b.sum_of v w) [ none ↦ raise type_error | some t ↦ ok t ]

-- `timestamp_ms + duration_ms if timestamp_ms is not None and duration_ms else None`
unfoldable pub finished_ms : Backends → (timestamp_ms duration_ms : Value) → Result Value
unfolding add_values
finished_ms b null duration_ms = ok null
finished_ms b timestamp_ms duration_ms =
    let total = add_values b timestamp_ms duration_ms in
    if truthy duration_ms then total else ok null

-- the user that caused a build, or the cause's description
unfoldable pub cause_text : Value → M Value
unfolding get_of get_default
cause_text cause = do
  user ← lift (get_of cause "userId")
  if truthy user then pure user else lift (get_default cause "shortDescription" (str "unknown"))

-- the text of the first cause, or what is found later
unfoldable pub cause_or : M Value → List Value → M Value
unfolding cause_text
cause_or later [] = later
cause_or later (cause ∷ causes) = cause_text cause

-- the first cause of the first action that has one
unfoldable pub first_cause : List Value → M Value
unfolding get_default elements cause_or
first_cause [] = pure (str "unknown")
first_cause (action ∷ actions) = do
  causes ← lift (get_default action "causes" (arr nil))
  listed ← lift (elements causes)
  cause_or (first_cause actions) listed

abbrev build_status : (result building : Value) → Value
build_status result building =
    or_else result (if truthy building then str "IN_PROGRESS" else str "UNKNOWN")

module _ (b : Backends) (arguments : Fields) where
  abbrev pub job_name : Value
  job_name = arg arguments "job_name"

  -- the answer for the build's JSON
  unfoldable pub build_result : Value → M Value
  unfolding get_of get_default elements first_cause finished_ms epoch_ms_to_iso
  build_result build = do
    actions ← lift (get_default build "actions" (arr nil))
    listed ← lift (elements actions)
    triggered_by ← first_cause listed
    timestamp_ms ← lift (get_of build "timestamp")
    duration_ms ← lift (get_of build "duration")
    finished ← lift (finished_ms b timestamp_ms duration_ms)
    number ← lift (get_of build "number")
    result ← lift (get_of build "result")
    building ← lift (get_of build "building")
    started_at ← lift (epoch_ms_to_iso b timestamp_ms)
    finished_at ← lift (epoch_ms_to_iso b finished)
    url ← lift (get_of build "url")
    pure (
        record_of (
          ("job_name", job_name)
          ∷ ("build_number", number)
          ∷ ("status", build_status result building)
          ∷ ("duration_ms", duration_ms)
          ∷ ("started_at", started_at)
          ∷ ("finished_at", finished_at)
          ∷ ("triggered_by", triggered_by)
          ∷ ("url", url)
          ∷ []))

  unfoldable pub get_jenkins_job_status : M Value
  unfolding job_path http_get shown json_of build_result
  get_jenkins_job_status =
      if not (truthy job_name)
      then validation_error "'job_name' is required"
      else if b.jenkins_url == ""
      then upstream_error "Jenkins is not configured (JENKINS_URL)"
      else do
        let build_number = arg_or arguments "build_number" (str "lastBuild")
        path ← lift (job_path job_name)
        r ←
            http_get b
              (record {
                not_found_message = concat (
                    "Jenkins job '"
                    ∷ shown b job_name
                    ∷ "' build '"
                    ∷ shown b build_number
                    ∷ "' not found"
                    ∷ []);
                upstream_label = "Jenkins";
              })
              (concat (b.jenkins_url ∷ path ∷ "/" ∷ shown b build_number ∷ "/api/json" ∷ [])) null
        build ← lift (json_of r)
        build_result build

-- A header's name is a text; a list or a dict is no key of a dict, and httpx refuses any other value.
abbrev pub header : (name v : Value) → Result Fields
header (str s) v = ok (field s v end)
header _ v = raise type_error

unfoldable pub crumb_fields : Value → M Fields
unfolding index
crumb_fields issued = do
  name ← lift (index issued "crumbRequestField")
  crumb ← lift (index issued "crumb")
  lift (header name crumb)

unfoldable pub crumb_of : HttpAnswer → M Fields
unfolding json_of crumb_fields
crumb_of (response r) =
    if not (nat_eq r.status_code 200)
    then pure end
    else do issued ← lift (json_of r); crumb_fields issued
crumb_of timed_out = pure end
crumb_of (unreachable message) = pure end
crumb_of (http_crash message) = throw (other_error message)

-- `_jenkins_crumb`
unfoldable pub jenkins_crumb : Backends → M Fields
unfolding http_request crumb_of
jenkins_crumb b = do
  answer ← http_request b "GET" (concat (b.jenkins_url ∷ "/crumbIssuer/api/json" ∷ [])) null end
  crumb_of answer

unfoldable pub trigger_jenkins_job : Backends → Fields → M Value
unfolding require_reason job_path jenkins_crumb http_post shown
trigger_jenkins_job b arguments =
    let job_name = arg arguments "job_name" in
    if not (truthy job_name) then validation_error "'job_name' is required" else do
      require_reason arguments
      if b.jenkins_url == "" then upstream_error "Jenkins is not configured (JENKINS_URL)" else do
        path ← lift (job_path job_name)
        crumb ← jenkins_crumb b
        r ←
            http_post b
              (record {
                not_found_message =
                    concat ("Jenkins job '" ∷ shown b job_name ∷ "' not found" ∷ []);
                upstream_label = "Jenkins";
              })
              (concat (b.jenkins_url ∷ path ∷ "/buildWithParameters" ∷ []))
              (or_else (arg arguments "parameters") (obj end)) crumb
        pure (
            record_of (
              ("status", str "triggered")
              ∷ ("job_name", job_name)
              ∷ ("build_number", null)
              ∷ ("queue_item_url", opt_str r.location)
              ∷ ("message", str "Build queued. Use get_jenkins_job_status to poll for completion.")
              ∷ []))
