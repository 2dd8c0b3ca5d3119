-- ===== src/Integrity/Verdicts.antt =====
-- What a verdict says of the rows.
use mcp_control_plane.Prelude.{
  ℕ, String, ◌≡◌, refl, true, false, Option, List, [], ◌∷◌, arith, All, leb, Bool-cases, inl, inr,
  ◌↔◌, ◌⊎◌, Bool, if◌then◌else◌,
}
use mcp_control_plane.World.{Env, Reply, answered, failed, ok}
use mcp_control_plane.Integrity.{
  StoredRow, pass, row_ok, verify_sorted, insert_by_seq, sorted, verify_rows,
}

pub verified_cases : (r : Reply Bool) → (r ≡ answered true) ⊎ (r ≡ answered false) ⊎ (r ≡ failed)
verified_cases (answered true) = inl refl
verified_cases (answered false) = inr (inl refl)
verified_cases failed = inr (inr refl)

module _ (P : StoredRow → Type 0) where
  pub All-insert :
      (r : StoredRow) (rs : List StoredRow) → P r → All P rs → All P (insert_by_seq r rs)
  unfolding insert_by_seq
  All-insert r [] p h = (p, tt)
  All-insert r (q ∷ qs) p h = elim (Bool-cases (leb r.seq q.seq)) [
    | inl e ↦ rw e (p, h)
    | inr e ↦ rw e (h.0, All-insert r qs p h.1)
  ]

  All-insert_back :
      (r : StoredRow) (rs : List StoredRow) → All P (insert_by_seq r rs) → P r × All P rs
  unfolding insert_by_seq
  All-insert_back r [] = λ h. (h.0, tt)
  All-insert_back r (q ∷ qs) =
      elim (leb r.seq q.seq)
        as (λ b. All P (if b then r ∷ q ∷ qs else q ∷ insert_by_seq r qs) → P r × All P (q ∷ qs)) [
          | true ↦ λ h. h
          | false ↦ λ h. let (p, t) = All-insert_back r qs h.1 in (p, (h.0, t))
        ]

  All-sorted : (rs : List StoredRow) → All P rs → All P (sorted rs)
  unfolding sorted
  All-sorted [] h = tt
  All-sorted (r ∷ rs) h = All-insert r (sorted rs) h.0 (All-sorted rs h.1)

  pub All-sorted_back : (rs : List StoredRow) → All P (sorted rs) → All P rs
  unfolding sorted
  All-sorted_back [] h = tt
  All-sorted_back (r ∷ rs) h =
      let (p, t) = All-insert_back r (sorted rs) h in (p, All-sorted_back rs t)

module _ (env : Env) (hash_at : ℕ → Reply (Option String)) where
  sorted_pass :
      (rs : List StoredRow)
      → verify_sorted env hash_at rs ≡ ok pass
      → All (λ r. row_ok env hash_at r ≡ answered true) rs
  unfolding verify_sorted
  sorted_pass [] h = tt
  sorted_pass (r ∷ rs) h = elim (verified_cases (row_ok env hash_at r)) [
    | inl e ↦ (e, sorted_pass rs (ground (arith, e, h)))
    | inr (inl e) ↦ absurd (ground (arith, e, h))
    | inr (inr e) ↦ absurd (ground (arith, e, h))
  ]

  pass_sorted :
      (rs : List StoredRow)
      → All (λ r. row_ok env hash_at r ≡ answered true) rs
      → verify_sorted env hash_at rs ≡ ok pass
  unfolding verify_sorted
  pass_sorted [] h = refl
  pass_sorted (r ∷ rs) h = rw h.0 (pass_sorted rs h.1)

  pub verify_rows-pass_iff :
      (rs : List StoredRow)
      → (verify_rows env hash_at rs ≡ ok pass) ↔ All (λ r. row_ok env hash_at r ≡ answered true) rs
  unfolding verify_rows
  verify_rows-pass_iff rs = (
    λ h. All-sorted_back _ rs (sorted_pass (sorted rs) h),
    λ h. pass_sorted (sorted rs) (All-sorted _ rs h),
  )
