-- ===== src/Integrity/Table.antt =====
-- A chained audit_log whose rows Postgres has numbered from 1 without a gap, and its verification.
use mcp_control_plane.Prelude.{
  ℕ, ◌+◌, ◌≤◌, String, ◌≡◌, refl, sym, ◌∙◌, ◌↔◌, Bool, true, ap, Option, none, some, arith, List,
  [], ◌∷◌, length, All, nat_eq, if◌then◌else◌,
}
use text.Mathlib.TextEquality.{eq_iff}
use mcp_control_plane.World.{AuditRow, Env, Reply, answered, ok}
use mcp_control_plane.Audit.{prev_or_genesis}
use mcp_control_plane.Integrity.{StoredRow, pass, expected_hash, prev_hash_of, row_ok, verify_rows}
use mcp_control_plane.Integrity.Verdicts.{verify_rows-pass_iff}
use mcp_control_plane.Integrity.Chain.{newest, IsChained}

-- the rows, newest first, with their numbers
abbrev pub numbered : List AuditRow → List StoredRow
numbered [] = []
numbered (r ∷ rs) = record { seq = length rs + 1; row = r } ∷ numbered rs

-- `SELECT row_hash FROM audit_log WHERE seq = $1`
abbrev pub hash_with_seq : List AuditRow → ℕ → Reply (Option String)
hash_with_seq [] seq = answered none
hash_with_seq (r ∷ rs) seq =
    let rest = hash_with_seq rs seq in
    if nat_eq seq (length rs + 1) then answered (some r.row_hash) else rest

newest_found : (rs : List AuditRow) → hash_with_seq rs (length rs) ≡ answered (newest rs)
newest_found [] = refl
newest_found (r ∷ rs) = ground arith

older :
    (r : AuditRow) (rs : List AuditRow) (n : ℕ)
    → n ≤ length rs
    → hash_with_seq (r ∷ rs) n ≡ hash_with_seq rs n
older r rs n h = ground arith

answered_inj : {a b : Bool} → answered a ≡ answered b → a ≡ b
answered_inj e = ground arith

module _ (env : Env) (all : List AuditRow) where
  Agrees : List AuditRow → Type 0
  Agrees rs = (n : ℕ) → n ≤ length rs → hash_with_seq all n ≡ hash_with_seq rs n

  Agrees-tail : (r : AuditRow) (rs : List AuditRow) → Agrees (r ∷ rs) → Agrees rs
  unfolding Agrees
  Agrees-tail r rs a n h = a n (omega (arith, h)) ∙ older r rs n h

  prev_found :
      (rs : List AuditRow)
      → Agrees rs
      → prev_hash_of env (hash_with_seq all) (length rs + 1)
        ≡ answered (some (prev_or_genesis (newest rs)))
  unfolding prev_hash_of Agrees
  prev_found [] a = refl
  prev_found (q ∷ qs) a =
      let e = a (length (q ∷ qs)) (omega arith) ∙ newest_found (q ∷ qs) in ground arith

  row_ok_iff :
      (r : AuditRow) (rs : List AuditRow)
      → Agrees rs
      → (row_ok env (hash_with_seq all) (record { seq = length rs + 1; row = r }) ≡ answered true)
        ↔ (r.row_hash ≡ expected_hash env (prev_or_genesis (newest rs)) r)
  unfolding row_ok
  row_ok_iff r rs a =
      let (to, back) = eq_iff (expected_hash env (prev_or_genesis (newest rs)) r) r.row_hash in
      rw (row_ok, prev_found rs a) (λ h. sym (to (answered_inj h)), λ h. ap answered (back (sym h)))

  rows_ok :
      (rs : List AuditRow)
      → Agrees rs
      → IsChained env rs
      → All (λ q. row_ok env (hash_with_seq all) q ≡ answered true) (numbered rs)
  rows_ok [] a c = tt
  rows_ok (r ∷ rs) a (h, c) =
      let b = Agrees-tail r rs a in ((row_ok_iff r rs b).1 h, rows_ok rs b c)

  rows-IsChained :
      (rs : List AuditRow)
      → Agrees rs
      → All (λ q. row_ok env (hash_with_seq all) q ≡ answered true) (numbered rs)
      → IsChained env rs
  rows-IsChained [] a c = tt
  rows-IsChained (r ∷ rs) a (h, c) =
      let b = Agrees-tail r rs a in ((row_ok_iff r rs b).0 h, rows-IsChained rs b c)

-- Verifying the complete table passes exactly if the table is chained, where Postgres has numbered the
-- rows from 1 without a gap.
pub verify_rows-numbered :
    (env : Env) (rs : List AuditRow)
    → (verify_rows env (hash_with_seq rs) (numbered rs) ≡ ok pass) ↔ IsChained env rs
unfolding Agrees
verify_rows-numbered env rs =
    let (to, back) = verify_rows-pass_iff env (hash_with_seq rs) (numbered rs) in
    (
      λ h. rows-IsChained env rs rs (λ n i. refl) (to h),
      λ c. back (rows_ok env rs rs (λ n i. refl) c),
    )
