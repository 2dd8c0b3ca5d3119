-- ===== src/Export/Days.antt =====
-- scripts/export_audit_to_s3.py: what the exports of two days, one after the other, hold.
use mcp_control_plane.Prelude.{ℕ, ◌/◌, ◌*◌, ◌-◌, ◌≡◌, Bool, List, [], ◌∷◌, leb, ◌&&◌, if◌then◌else◌}
use mcp_control_plane.Value.{Value, pos}
use mcp_control_plane.World.{answered}
use mcp_control_plane.Integrity.{StoredRow}
use mcp_control_plane.Query.{Db, time}
use mcp_control_plane.AuditApi.{export_query}

-- The row was created in the window, both ends included.
abbrev pub inside : ℕ × ℕ → StoredRow → Bool
inside window r = leb window.0 r.row.created_at && leb r.row.created_at window.1

abbrev pub rows_inside : ℕ × ℕ → List StoredRow → List StoredRow
rows_inside window [] = []
rows_inside window (r ∷ table) =
    let rest = rows_inside window table in if inside window r then r ∷ rest else rest

-- Postgres answers the export's SELECT with the rows of the table that it asks for.
pub record WindowHonoured (db : Db) (table : List StoredRow) : Type 0 where
  pub selects :
      (since until : ℕ)
      → db.fetch export_query (time (pos since) ∷ time (pos until) ∷ [])
        ≡ answered (rows_inside (since, until) table)

-- the start of the day of a time, in microseconds past the epoch
abbrev pub midnight : ℕ → ℕ
midnight now = now / 86400000000 * 86400000000

-- The day before the day of a time: the day has 86,400 seconds.
abbrev pub day_before : ℕ → ℕ × ℕ
day_before now = (midnight now - 86400000000, midnight now)
