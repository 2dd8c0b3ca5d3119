-- ===== src/Tests/Exports.antt =====
-- The exports of two days, with a row that was created at the midnight between them.
use mcp_control_plane.Prelude.{◌+◌, ◌*◌, String, none, List, [], ◌∷◌, length}
use mcp_control_plane.Value.{Value, pos}
use mcp_control_plane.World.{Env, answered}
use mcp_control_plane.Integrity.{StoredRow}
use mcp_control_plane.Query.{Db, Param, time}
use mcp_control_plane.Export.{day}
use mcp_control_plane.Export.Days.{rows_inside}
use mcp_control_plane.Tests.Fixtures.{allowed_env, denied_row}

-- a clock that steps a day with each effect
abbrev daily : Env
daily = record allowed_env { now = λ tr. (2 + length tr) * day }

abbrev at_midnight : StoredRow
at_midnight = record { seq = 1; row = record denied_row { created_at = 2 * day } }

abbrev selected : List Param → List StoredRow
selected (time (pos since) ∷ time (pos until) ∷ []) = rows_inside (since, until) (at_midnight ∷ [])
selected _ = []

abbrev db : Db
db = record {
  count = λ sql ps. answered 1;
  fetch = λ sql ps. answered (selected ps);
  hash_at = λ seq. answered none;
  fromisoformat = λ s. none;
}

abbrev dumps : Value → String
dumps v = "{}"
