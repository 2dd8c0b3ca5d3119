-- ===== src/ExportApi.antt =====
-- app/main.py: GET /admin/audit/export. `json.dumps` of a row is a parameter. The handler has answered when the
-- rows are read: a failure of the SELECT ends the body, under a status of 200.
use mcp_control_plane.Prelude.{String, List, [], ◌∷◌, concat}
use mcp_control_plane.Value.{Value, null}
use mcp_control_plane.World.{Result, ok, raise, M, lift, ◌>>=◌}
use mcp_control_plane.Http.{Response, ndjson_text}
use mcp_control_plane.Query.{Db}
use mcp_control_plane.AuditApi.{parsed, export_audit_log}

module _ (dumps : Value → String) where
  -- the chunks of the generator, put together
  unfoldable pub streamed : List Value → String
  streamed [] = ""
  streamed (row ∷ rows) = concat (dumps row ∷ "\n" ∷ streamed rows ∷ [])

  abbrev pub text_of : Result (List Value) → Result String
  unfolding streamed
  text_of (ok rows) = ok (streamed rows)
  text_of (raise e) = raise e

  unfoldable pub export_audit_log_endpoint : Db → String → String → M Response
  unfolding export_audit_log
  export_audit_log_endpoint db from_text to_text = do
    since ← lift (parsed (db.fromisoformat from_text))
    until ← lift (parsed (db.fromisoformat to_text))
    λ tr. (
      ok (record {
        status = 200;
        body = null;
        headers = [];
        stream = ndjson_text (text_of (export_audit_log db since until tr).0);
      }),
      tr,
    )
