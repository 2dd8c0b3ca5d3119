-- ===== src/Tools/Terraform.antt =====
-- app/tools/tools_spec.py: `query_terraform_plan`.
use mcp_control_plane.Prelude.{String, List, [], ◌∷◌, concat, not, ◌||◌, if◌then◌else◌}
use mcp_control_plane.Value.{
  pos, Value, null, int, str, obj, Fields, end, truthy, or_else, record_of,
}
use mcp_control_plane.World.{M, pure, lift, ◌>>=◌}
use mcp_control_plane.Tools.Backend.{
  Backends, HttpResponse, shown, index, get_of, get_default, arg, validation_error, upstream_error,
  json_of,
}
use mcp_control_plane.Tools.HttpClient.{http_get, is_set, setting, first_of_value}

-- `_http_get` of a Terraform Cloud path
unfoldable pub tfc_get : Backends → (path not_found_message : String) → Value → M HttpResponse
unfolding http_get
tfc_get b path not_found_message params =
    http_get b
      (record { not_found_message = not_found_message; upstream_label = "Terraform Cloud" })
      (concat (b.tfc_url ∷ path ∷ [])) params

-- `(run.get("relationships", {}).get("plan", {}).get("data") or {}).get("id")`
unfoldable pub plan_id_of : Value → M Value
unfolding get_of get_default
plan_id_of run = do
  relationships ← lift (get_default run "relationships" (obj end))
  plan ← lift (get_default relationships "plan" (obj end))
  data_of_plan ← lift (get_of plan "data")
  lift (get_of (or_else data_of_plan (obj end)) "id")

-- the counts of a plan's changes
unfoldable pub changes_of : Value → M Value
unfolding index get_default
changes_of plan_data = do
  attributes ← lift (index plan_data "attributes")
  add ← lift (get_default attributes "resource-additions" (int (pos 0)))
  change ← lift (get_default attributes "resource-changes" (int (pos 0)))
  destroy ← lift (get_default attributes "resource-destructions" (int (pos 0)))
  pure (record_of (("add", add) ∷ ("change", change) ∷ ("destroy", destroy) ∷ []))

-- the plan's data and its changes; both None if the run has no plan yet
unfoldable pub plan_of : Backends → Value → M (Value × Value)
unfolding tfc_get shown changes_of json_of index
plan_of b plan_id = if not (truthy plan_id) then pure (null, null) else do
  plan_resp ←
      tfc_get b (concat ("/plans/" ∷ shown b plan_id ∷ []))
        (concat ("plan '" ∷ shown b plan_id ∷ "' not found" ∷ [])) null
  body ← lift (json_of plan_resp)
  plan_data ← lift (index body "data")
  changes ← changes_of plan_data
  pure (plan_data, changes)

module _ (b : Backends) (arguments : Fields) where
  abbrev pub workspace : Value
  workspace = arg arguments "workspace"

  abbrev full_plan : Value → List (String × Value)
  full_plan plan_data =
      if truthy (arg arguments "include_full_plan") then ("full_plan", plan_data) ∷ [] else []

  -- from the latest run on
  unfoldable pub run_result_of : Value → M Value
  unfolding index plan_id_of plan_of get_of get_default
  run_result_of run = do
    attrs ← lift (index run "attributes")
    plan_id ← plan_id_of run
    (plan_data, changes) ← plan_of b plan_id
    run_id ← lift (index run "id")
    status ← lift (get_of attrs "status")
    created_at ← lift (get_of attrs "created-at")
    triggered_by ← lift (get_default attrs "trigger-reason" (str "unknown"))
    pure (
        record_of (
          ("workspace", workspace)
          ∷ ("run_id", run_id)
          ∷ ("status", status)
          ∷ ("created_at", created_at)
          ∷ ("triggered_by", triggered_by)
          ∷ ("changes", changes)
          ∷ full_plan plan_data))

  -- the requests for the workspace and its latest run
  unfoldable pub latest_run : M Value
  unfolding tfc_get json_of index shown run_result_of first_of_value
  latest_run = do
    ws_resp ←
        tfc_get b
          (concat ("/organizations/" ∷ setting b.tfc_org ∷ "/workspaces/" ∷ shown b workspace ∷ []))
          (concat ("Terraform Cloud workspace '" ∷ shown b workspace ∷ "' not found" ∷ [])) null
    ws_body ← lift (json_of ws_resp)
    ws_data ← lift (index ws_body "data")
    workspace_id ← lift (index ws_data "id")
    runs_resp ←
        tfc_get b (concat ("/workspaces/" ∷ shown b workspace_id ∷ "/runs" ∷ []))
          (concat ("no runs found for workspace '" ∷ shown b workspace ∷ "'" ∷ []))
          (record_of (("page[size]", int (pos 1)) ∷ []))
    runs_body ← lift (json_of runs_resp)
    runs ← lift (index runs_body "data")
    if not (truthy runs)
        then pure (
            record_of (
              ("workspace", workspace)
              ∷ ("run_id", null)
              ∷ ("status", str "no_runs")
              ∷ ("changes", null)
              ∷ []))
        else do run ← lift (first_of_value runs); run_result_of run

  unfoldable pub query_terraform_plan : M Value
  unfolding latest_run
  query_terraform_plan =
      if not (truthy workspace)
      then validation_error "'workspace' is required"
      else if not (is_set b.tfc_token) || not (is_set b.tfc_org)
      then upstream_error "Terraform Cloud is not configured (TFC_TOKEN/TFC_ORG)"
      else latest_run
