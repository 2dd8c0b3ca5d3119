-- ===== src/Export.antt =====
-- scripts/export_audit_to_s3.py: the daily export of the audit log. `json.dumps` of a row is a parameter; the
-- clock stands at least a day past the epoch.
pub mod Days
use mcp_control_plane.Prelude.{
  ℕ, ◌-◌, ◌*◌, ◌/◌, String, Bool, Option, none, some, List, [], ◌∷◌, concat, ◌==◌, if◌then◌else◌,
}
use mcp_control_plane.Value.{Value, pos}
use mcp_control_plane.World.{key_error, throw, Env, M, pure, time_now, ◌>>=◌}
use mcp_control_plane.Clock.{second, date_text}
use mcp_control_plane.Query.{Db}
use mcp_control_plane.Tools.Text.{join}
use mcp_control_plane.AuditApi.{export_audit_log}

abbrev pub day : ℕ
day = 86400 * second

-- `_prior_utc_day`, at a time
unfoldable pub prior_utc_day : ℕ → ℕ × ℕ
prior_utc_day now = (now / day * day - day, now / day * day)

-- What is put into S3.
pub record Upload : Type 0 where
  pub bucket : String
  pub key : String
  pub body : String

-- what is put, if there is anything to put
unfoldable pub upload_of : String → ℕ → String → Option Upload
unfolding date_text
upload_of bucket since body =
    if body == ""
    then none
    else some (record {
      bucket = bucket;
      key = concat ("audit-log/" ∷ date_text since ∷ ".ndjson" ∷ []);
      body = body;
    })

abbrev last_newline : List Value → String
last_newline [] = ""
last_newline (row ∷ rows) = "\n"

module _ (dumps : Value → String) where
  lines_of : List Value → List String
  lines_of [] = []
  lines_of (row ∷ rows) = dumps row ∷ lines_of rows

  -- `"\n".join(lines) + ("\n" if lines else "")`
  unfoldable pub ndjson : List Value → String
  unfolding join lines_of
  ndjson rows = concat (join "\n" (lines_of rows) ∷ last_newline rows ∷ [])

  -- `_collect_ndjson`
  unfoldable pub collect_ndjson : Db → ℕ × ℕ → M String
  unfolding export_audit_log ndjson
  collect_ndjson db window = do
    rows ← export_audit_log db (pos window.0) (pos window.1)
    pure (ndjson rows)

  abbrev export_to : Env → Db → Option String → M (Option Upload)
  export_to env db none = throw key_error
  export_to env db (some bucket) = do
    now ← time_now env
    let window = prior_utc_day now
    body ← collect_ndjson db window
    pure (upload_of bucket window.0 body)

  -- `main`, for the setting of the bucket
  unfoldable pub export_day : Env → Db → Option String → M (Option Upload)
  unfolding time_now prior_utc_day collect_ndjson upload_of
  export_day env db bucket = export_to env db bucket
