-- ===== src/Tools/Pods.antt =====
-- app/tools/tools_spec.py: the executors on pods, and `_require_reason`.
use mcp_control_plane.Prelude.{
  ℕ, ◌+◌, ◌-◌, ◌/◌, String, Bool, true, false, Option, none, some, List, [], ◌∷◌, concat, leb, ltb,
  nat_eq, not, ◌==◌, ◌||◌, ◌&&◌, if◌then◌else◌, length,
}
use mcp_control_plane.Value.{
  ℤ, pos, minus, Value, null, bool, int, str, arr, Items, nil, cons, Fields, end, field, truthy,
  or_else, record_of, list_of, opt_str,
}
use mcp_control_plane.World.{attribute_error, Result, ok, raise, M, pure, lift, ◌>>=◌, ◌>>◌}
use mcp_control_plane.Clock.{second, utc_stamp}
use mcp_control_plane.Json.{decimal}
use mcp_control_plane.Tools.Text.{text_length, strip, take_chars, count_lines}
use mcp_control_plane.Tools.Backend.{
  ContainerStatus, Pod, Backends, shown, arg, arg_or, validation_error, utc_now,
}
use mcp_control_plane.Tools.Config.{timeout_value, get_executor_timeout}
use mcp_control_plane.Tools.KubeClient.{load_config, k8s_run}

-- `.strip()` is there on a str alone.
abbrev stripped : Value → Result String
stripped (str s) = ok (strip s)
stripped _ = raise attribute_error

unfoldable pub reason_of : Fields → Result String
unfolding strip
reason_of arguments = stripped (or_else (arg arguments "reason") (str ""))

-- `_require_reason`
unfoldable pub require_reason : Fields → M String
unfolding reason_of text_length
require_reason arguments = do
  reason ← lift (reason_of arguments)
  if not (leb 10 (text_length reason) && leb (text_length reason) 500)
      then validation_error "'reason' is required and must be 10-500 characters"
      else pure reason

-- a keyword argument that is passed on if it is true
abbrev pub when_true : String → Value → Fields → Fields
when_true key v rest = if truthy v then field key v rest else rest

unfoldable pub pod_label : Backends → (pod_name namespace : Value) → String
unfolding shown
pod_label b pod_name namespace =
    concat ("pod '" ∷ shown b pod_name ∷ "' in namespace '" ∷ shown b namespace ∷ "'" ∷ [])

module _ (b : Backends) (arguments : Fields) where
  abbrev pub namespace : Value
  namespace = arg arguments "namespace"

  abbrev pub pod_name : Value
  pod_name = arg arguments "pod_name"

  -- the keyword arguments behind the name and the namespace
  unfoldable pub log_options : Fields
  log_options = when_true "container" (arg arguments "container") (
      if truthy (arg arguments "since_seconds")
      then field "since_seconds" (arg arguments "since_seconds") end
      else field "tail_lines" (arg_or arguments "tail_lines" (int (pos 100))) end)

  unfoldable pub log_result : String → Value
  unfolding count_lines
  log_result logs = record_of (
      ("namespace", namespace)
      ∷ ("pod_name", pod_name)
      ∷ ("container", arg arguments "container")
      ∷ ("lines_returned", int (pos (count_lines logs)))
      ∷ ("logs", str logs)
      ∷ [])

  unfoldable pub get_pod_logs : M Value
  unfolding load_config k8s_run pod_label log_options log_result
  get_pod_logs =
      if not (truthy namespace) || not (truthy pod_name)
      then validation_error "'namespace' and 'pod_name' are required"
      else do
        load_config b
        logs ←
            k8s_run b b.pod_log "read_namespaced_pod_log" (pod_label b pod_name namespace)
              (field "name" pod_name (field "namespace" namespace log_options))
        pure (log_result logs)

-- `sum(1 for s in statuses if s.ready)`
unfoldable pub ready_count : List ContainerStatus → ℕ
ready_count [] = 0
ready_count (s ∷ ss) = let rest = ready_count ss in if s.ready then 1 + rest else rest

-- `sum(s.restart_count for s in statuses)`
unfoldable pub restarts : List ContainerStatus → ℕ
restarts [] = 0
restarts (s ∷ ss) = s.restart_count + restarts ss

abbrev statuses_of : Option (List ContainerStatus) → List ContainerStatus
statuses_of none = []
statuses_of (some ss) = ss

-- `int((now - created).total_seconds())`, which cuts off towards 0
unfoldable pub age_seconds : ℕ → ℕ → ℤ
age_seconds now created =
    let late = (created - now) / second in
    if leb created now
    then pos ((now - created) / second)
    else if nat_eq late 0
    then pos 0
    else minus late

abbrev pod_age : ℕ → Option ℕ → Value
pod_age now none = null
pod_age now (some created) = int (age_seconds now created)

unfoldable pub pod_row : ℕ → Pod → Value
unfolding ready_count restarts age_seconds
pod_row now pod =
    let statuses = statuses_of pod.container_statuses in
    record_of (
      ("name", str pod.name)
      ∷ (
        "ready",
        str (concat (decimal (ready_count statuses) ∷ "/" ∷ decimal (length statuses) ∷ [])),
      )
      ∷ ("status", opt_str pod.phase)
      ∷ ("restarts", int (pos (restarts statuses)))
      ∷ ("age_seconds", pod_age now pod.creation_timestamp)
      ∷ [])

unfoldable pub pod_rows : ℕ → List Pod → List Value
unfolding pod_row
pod_rows now [] = []
pod_rows now (pod ∷ pods) = pod_row now pod ∷ pod_rows now pods

unfoldable pub list_pods : Backends → Fields → M Value
unfolding load_config k8s_run shown utc_now pod_rows
list_pods b arguments =
    let namespace = arg arguments "namespace" in
    if not (truthy namespace) then validation_error "'namespace' is required" else do
      load_config b
      pods ←
          k8s_run b b.pod_list "list_namespaced_pod"
            (concat ("pods in namespace '" ∷ shown b namespace ∷ "'" ∷ []))
            (field "namespace" namespace (
              when_true "label_selector" (arg arguments "label_selector")
                (when_true "field_selector" (arg arguments "field_selector") end)))
      now ← utc_now b
      pure (record_of (("namespace", namespace) ∷ ("pods", list_of (pod_rows now pods)) ∷ []))

abbrev pub exec_output_max_chars : ℕ
exec_output_max_chars = 4000

abbrev all_texts : Items → Bool
all_texts nil = true
all_texts (cons (str s) vs) = not (s == "") && all_texts vs
all_texts (cons _ vs) = false

-- a list that is not empty, of texts that are not empty
unfoldable pub is_command : Value → Bool
is_command (arr nil) = false
is_command (arr (cons v vs)) = all_texts (cons v vs)
is_command _ = false

unfoldable pub exec_result : Backends → Fields → String → ℕ → Value
unfolding text_length take_chars get_executor_timeout utc_stamp
exec_result b arguments output now =
    let truncated = ltb exec_output_max_chars (text_length output) in
    record_of (
      ("status", str "executed")
      ∷ ("namespace", arg arguments "namespace")
      ∷ ("pod_name", arg arguments "pod_name")
      ∷ ("container", arg arguments "container")
      ∷ ("command", arg arguments "command")
      ∷ ("output", str (if truncated then take_chars exec_output_max_chars output else output))
      ∷ ("output_truncated", bool truncated)
      ∷ ("timeout_seconds", timeout_value b)
      ∷ ("executed_at", str (utc_stamp now))
      ∷ [])

unfoldable pub exec_into_pod : Backends → Fields → M Value
unfolding is_command require_reason load_config k8s_run pod_label utc_now exec_result
exec_into_pod b arguments =
    let namespace = arg arguments "namespace" in
    let pod_name = arg arguments "pod_name" in
    let command = arg arguments "command" in
    if not (truthy namespace) || not (truthy pod_name)
    then validation_error "'namespace' and 'pod_name' are required"
    else if not (is_command command)
    then validation_error "'command' is required and must be a non-empty list of strings"
    else do
      require_reason arguments
      load_config b
      output ←
          k8s_run b b.pod_exec "connect_get_namespaced_pod_exec" (pod_label b pod_name namespace) (
            field "name" pod_name (
              field "namespace" namespace (
                field "command" command (
                  field "stderr" (bool true) (
                    field "stdin" (bool false) (
                      field "stdout" (bool true) (
                        field "tty" (bool false)
                          (when_true "container" (arg arguments "container") end))))))))
      now ← utc_now b
      pure (exec_result b arguments output now)
