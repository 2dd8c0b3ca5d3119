-- ===== src/Gateway/Responses.antt =====
-- app/main.py: the bodies with which the handler of POST /mcp answers a `tools/call`.
use mcp_control_plane.Prelude.{ℕ, String, false, some, [], ◌∷◌, concat}
use mcp_control_plane.Value.{Value, bool, int, str, minus, pos, record_of, list_of}
use mcp_control_plane.World.{Env}
use mcp_control_plane.Interceptor.{Agent, format}
use mcp_control_plane.Approvals.{Approval}
use mcp_control_plane.Http.{Response, json_response, rpc_result, rpc_error, field_error}

module _ (env : Env) (rpc_id : Value) where
  unfoldable pub invalid_param : String → String → Response
  invalid_param name error =
      json_response 400
        (rpc_error rpc_id (minus 32602) "Invalid params" (some (field_error name error)))

  unfoldable pub forbidden : Agent → String → Response
  forbidden agent name = json_response 403 (
      rpc_error rpc_id (minus 32003) "Forbidden" (
        some (
          record_of (
            ("field", str "name")
            ∷ (
              "error",
              str (
                  concat (
                    "agent '"
                    ∷ format env agent.id
                    ∷ "' is not allowed to call '"
                    ∷ name
                    ∷ "'"
                    ∷ [])),
            )
            ∷ ("policy_decision", str "forbidden")
            ∷ []))))

  unfoldable pub approval_pending : Approval → Response
  approval_pending approval = json_response 202 (
      rpc_result rpc_id (
        record_of (
          (
            "content",
            list_of (
                record_of (
                  ("type", str "text")
                  ∷ (
                    "text",
                    str (
                        concat (
                          "This action requires human approval. Approval request sent to Slack. Approval ID: "
                          ∷ approval.id ∷ [])),
                  )
                  ∷ [])
                ∷ []),
          )
          ∷ ("isError", bool false)
          ∷ (
            "_meta",
            record_of (
                ("approval_id", str approval.id)
                ∷ ("approval_status", str "pending")
                ∷ ("expires_at", int (pos approval.expires_at))
                ∷ ("poll_url", str (concat ("/admin/approvals/" ∷ approval.id ∷ "/status" ∷ [])))
                ∷ []),
          )
          ∷ [])))

  unfoldable pub denied_by_policy : String → Response
  denied_by_policy reason = json_response 403 (
      rpc_error rpc_id (minus 32603) "Tool call denied by policy"
        (some (record_of (("reason", str reason) ∷ ("policy_decision", str "deny") ∷ []))))

  unfoldable pub executor_failed : ℕ → String → String → String → Response
  executor_failed status message reason error_type = json_response status (
      rpc_error rpc_id (minus 32603) message (
        some (
          record_of (
            ("reason", str reason)
            ∷ ("error_type", str error_type)
            ∷ ("policy_decision", str "allow")
            ∷ []))))
