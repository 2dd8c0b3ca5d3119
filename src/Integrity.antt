-- ===== src/Integrity.antt =====
-- app/audit.py: `verify_rows`. The answers of `SELECT row_hash FROM audit_log WHERE seq = $1` are an argument.
pub mod Chain
pub mod Kept
pub mod Table
pub mod Verdicts
pub mod Broken
pub mod Blind
pub mod Collision
use mcp_control_plane.Prelude.{
  ℕ, ◌+◌, ◌-◌, String, Bool, true, false, Option, none, some, List, [], ◌∷◌, nat_eq, leb, ◌==◌,
  if◌then◌else◌,
}
use mcp_control_plane.World.{AuditRow, Env, Reply, answered, failed, Result, ok, raise, db_error}
use mcp_control_plane.Clock.{isoformat}
use mcp_control_plane.Audit.{genesis_hash, row_hash_of}

-- A row as Postgres gives it, with its number. `args` and `result_summary` are what `_decode_jsonb` reads back,
-- which need not be what was written: jsonb reorders keys, and writes numbers without an exponent.
pub record StoredRow : Type 0 where
  pub seq : ℕ
  pub row : AuditRow
  pub open row use *

pub data Verdict : Type 0 where
  pass : Verdict
  fail : ℕ → Verdict

-- the hash that a row must have after a given one
unfoldable pub expected_hash : Env → String → AuditRow → String
expected_hash env prev_hash r =
    row_hash_of env prev_hash r.id r.agent_id r.tool_name r.args r.result_summary
      (isoformat r.created_at)

-- what a row adds to the verdict on the rows behind it
abbrev pub verdict_of : Reply Bool → ℕ → Result Verdict → Result Verdict
verdict_of failed seq rest = raise db_error
verdict_of (answered true) seq rest = rest
verdict_of (answered false) seq rest = ok (fail seq)

module _ (env : Env) (hash_at : ℕ → Reply (Option String)) where
  -- the hash that a row is chained to, or none if its predecessor is missing
  unfoldable pub prev_hash_of : ℕ → Reply (Option String)
  prev_hash_of seq = if nat_eq seq 1 then answered (some genesis_hash) else hash_at (seq - 1)

  -- whether the SELECT of the predecessor is answered, and a row then has the hash that it must have
  unfoldable pub row_ok : StoredRow → Reply Bool
  unfolding prev_hash_of
  row_ok r = elim (prev_hash_of r.seq) [
    | failed ↦ failed
    | answered none ↦ answered false
    | answered (some prev_hash) ↦ answered (expected_hash env prev_hash r.row == r.row_hash)
  ]

  -- the loop, over rows in the order of their seq
  unfoldable pub verify_sorted : List StoredRow → Result Verdict
  verify_sorted [] = ok pass
  verify_sorted (r ∷ rs) = let rest = verify_sorted rs in verdict_of (row_ok r) r.seq rest

-- `sorted(rows, key=lambda r: r["seq"])`
unfoldable pub insert_by_seq : StoredRow → List StoredRow → List StoredRow
insert_by_seq r [] = r ∷ []
insert_by_seq r (q ∷ qs) =
    let rest = insert_by_seq r qs in if leb r.seq q.seq then r ∷ q ∷ qs else q ∷ rest

unfoldable pub sorted : List StoredRow → List StoredRow
unfolding insert_by_seq
sorted [] = []
sorted (r ∷ rs) = insert_by_seq r (sorted rs)

unfoldable pub verify_rows : Env → (ℕ → Reply (Option String)) → List StoredRow → Result Verdict
unfolding verify_sorted sorted row_ok
verify_rows env hash_at rows = verify_sorted env hash_at (sorted rows)
