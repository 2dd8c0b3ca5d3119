-- ===== src/Tools/Registry.antt =====
-- app/main.py: the table `TOOLS` of the executors, and how a call of one ends.
use mcp_control_plane.Prelude.{String, ◌==◌, if◌then◌else◌}
use mcp_control_plane.Value.{Value, Fields}
use mcp_control_plane.World.{
  executor_error, key_error, Result, ok, raise, M, throw, Trace, ToolReply, returned, refused,
  crashed,
}
use mcp_control_plane.Tools.Backend.{Backends}
use mcp_control_plane.Tools.Pods.{get_pod_logs, list_pods, exec_into_pod}
use mcp_control_plane.Tools.Deployments.{
  get_deployment_status, restart_deployment, scale_deployment,
}
use mcp_control_plane.Tools.Manifest.{apply_k8s_manifest}
use mcp_control_plane.Tools.Terraform.{query_terraform_plan}
use mcp_control_plane.Tools.Jenkins.{trigger_jenkins_job, get_jenkins_job_status}
use mcp_control_plane.Tools.Queries.{read_prometheus_metrics, open_ticket, read_ticket}

-- `TOOLS[tool_name](arguments)`
unfoldable pub call_executor : Backends → String → Fields → M Value
unfolding get_pod_logs list_pods exec_into_pod get_deployment_status restart_deployment
    scale_deployment apply_k8s_manifest query_terraform_plan trigger_jenkins_job
    get_jenkins_job_status read_prometheus_metrics open_ticket read_ticket
call_executor b name arguments =
    if name == "list_pods"
    then list_pods b arguments
    else if name == "get_pod_logs"
    then get_pod_logs b arguments
    else if name == "get_deployment_status"
    then get_deployment_status b arguments
    else if name == "restart_deployment"
    then restart_deployment b arguments
    else if name == "scale_deployment"
    then scale_deployment b arguments
    else if name == "exec_into_pod"
    then exec_into_pod b arguments
    else if name == "apply_k8s_manifest"
    then apply_k8s_manifest b arguments
    else if name == "query_terraform_plan"
    then query_terraform_plan b arguments
    else if name == "trigger_jenkins_job"
    then trigger_jenkins_job b arguments
    else if name == "get_jenkins_job_status"
    then get_jenkins_job_status b arguments
    else if name == "read_prometheus_metrics"
    then read_prometheus_metrics b arguments
    else if name == "open_ticket"
    then open_ticket arguments
    else if name == "read_ticket"
    then read_ticket b arguments
    else throw key_error

-- the way that an executor ends, as `_execute_tool` tells it apart
unfoldable pub reply_of : Backends → Result Value → ToolReply
reply_of b (ok v) = returned v
reply_of b (raise (executor_error error_type message)) = refused error_type message
reply_of b (raise e) = crashed (b.exception_text e)

-- the executors as the function of `Env` that answers for them
unfoldable pub tool_reply : Backends → Trace → String → Fields → ToolReply
unfolding call_executor reply_of
tool_reply b tr name arguments = reply_of b (call_executor b name arguments tr).0
