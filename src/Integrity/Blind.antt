-- ===== src/Integrity/Blind.antt =====
-- What the hash of a row does not cover.
use mcp_control_plane.Prelude.{
  ℕ, String, ◌≡◌, refl, Option, List, [], ◌∷◌, leb, Bool-cases, inl, inr,
}
use mcp_control_plane.Value.{Value}
use mcp_control_plane.World.{Env, Reply}
use mcp_control_plane.Integrity.{
  StoredRow, expected_hash, row_ok, verify_sorted, insert_by_seq, sorted, verify_rows,
}

-- The columns that are not hashed.
pub record Unhashed : Type 0 where
  pub role : String
  pub policy_decision : Value
  pub approval_id : Option String
  pub result_status : String
  pub duration_ms : Option ℕ
  pub otel_trace_id : Option String

-- a row with these columns overwritten
abbrev pub overwritten : (StoredRow → Unhashed) → StoredRow → StoredRow
overwritten edit r = record {
  seq = r.seq;
  row = record r.row {
    role = (edit r).role;
    policy_decision = (edit r).policy_decision;
    approval_id = (edit r).approval_id;
    result_status = (edit r).result_status;
    duration_ms = (edit r).duration_ms;
    otel_trace_id = (edit r).otel_trace_id;
  };
}

abbrev pub tampered : (StoredRow → Unhashed) → List StoredRow → List StoredRow
tampered edit [] = []
tampered edit (r ∷ rs) = overwritten edit r ∷ tampered edit rs

module _ (env : Env) (hash_at : ℕ → Reply (Option String)) (edit : StoredRow → Unhashed) where
  row_ok-overwritten :
      (r : StoredRow) → row_ok env hash_at (overwritten edit r) ≡ row_ok env hash_at r
  unfolding row_ok expected_hash
  row_ok-overwritten r = refl

  insert-tampered :
      (r : StoredRow) (rs : List StoredRow)
      → insert_by_seq (overwritten edit r) (tampered edit rs) ≡ tampered edit (insert_by_seq r rs)
  unfolding insert_by_seq
  insert-tampered r [] = refl
  insert-tampered r (q ∷ qs) = elim (Bool-cases (leb r.seq q.seq)) [
    | inl e ↦ rw e refl
    | inr e ↦ rw (e, insert-tampered r qs) refl
  ]

  sorted-tampered : (rs : List StoredRow) → sorted (tampered edit rs) ≡ tampered edit (sorted rs)
  unfolding sorted
  sorted-tampered [] = refl
  sorted-tampered (r ∷ rs) = rw (sorted-tampered rs) (insert-tampered r (sorted rs))

  verify_sorted-tampered :
      (rs : List StoredRow)
      → verify_sorted env hash_at (tampered edit rs) ≡ verify_sorted env hash_at rs
  unfolding verify_sorted
  verify_sorted-tampered [] = refl
  verify_sorted-tampered (r ∷ rs) = rw (row_ok-overwritten r, verify_sorted-tampered rs) refl

  -- Overwriting the role, the policy decision, the approval id, the result status, the duration and the
  -- trace id of any rows of a page, in any way, does not change the verdict on the page.
  pub verify_rows-tampered :
      (page : List StoredRow)
      → verify_rows env hash_at (tampered edit page) ≡ verify_rows env hash_at page
  unfolding verify_rows
  verify_rows-tampered page = rw (sorted-tampered page) (verify_sorted-tampered (sorted page))
