-- ===== src/Integrity/Broken.antt =====
-- What a failed verdict says: the broken row with the smallest number.
use mcp_control_plane.Prelude.{
  ℕ, ◌≤◌, ◌<◌, String, ◌≡◌, true, false, Option, List, [], ◌∷◌, arith, All, leb, Bool-cases, inl,
  inr, ◌⊎◌, if◌then◌else◌,
}
use mcp_control_plane.World.{Env, Reply, answered, ok}
use mcp_control_plane.Integrity.{
  StoredRow, fail, row_ok, verify_sorted, insert_by_seq, sorted, verify_rows,
}
use mcp_control_plane.Integrity.Verdicts.{All-insert, All-sorted_back, verified_cases}

-- Some row of the list satisfies a predicate.
abbrev pub Any {ℓ} : {A : Type ℓ} → (A → Type 0) → List A → Type 0
Any P [] = ⊥
Any P (x ∷ xs) = P x ⊎ Any P xs

abbrev IsSorted : List StoredRow → Type 0
IsSorted [] = Unit
IsSorted (r ∷ rs) = All (λ q. r.seq ≤ q.seq) rs × IsSorted rs

All-above :
    (m n : ℕ) (rs : List StoredRow) → m ≤ n → All (λ q. n ≤ q.seq) rs → All (λ q. m ≤ q.seq) rs
All-above m n [] h a = tt
All-above m n (r ∷ rs) h a = (omega (arith, h, a.0), All-above m n rs h a.1)

insert_by_seq-IsSorted :
    (r : StoredRow) (rs : List StoredRow) → IsSorted rs → IsSorted (insert_by_seq r rs)
unfolding insert_by_seq
insert_by_seq-IsSorted r [] s = (tt, tt)
insert_by_seq-IsSorted r (q ∷ qs) s = elim (Bool-cases (leb r.seq q.seq)) [
  | inl e ↦ rw e ((ground (arith, e), All-above r.seq q.seq qs (ground (arith, e)) s.0), s)
  | inr e ↦ rw e (
    All-insert (λ x. q.seq ≤ x.seq) r qs (ground (arith, e)) s.0,
    insert_by_seq-IsSorted r qs s.1,
  )
]

sorted-IsSorted : (rs : List StoredRow) → IsSorted (sorted rs)
unfolding sorted
sorted-IsSorted [] = tt
sorted-IsSorted (r ∷ rs) = insert_by_seq-IsSorted r (sorted rs) (sorted-IsSorted rs)

module _ (P : StoredRow → Type 0) where
  Any-insert_back :
      (r : StoredRow) (rs : List StoredRow) → Any P (insert_by_seq r rs) → P r ⊎ Any P rs
  unfolding insert_by_seq
  Any-insert_back r [] = λ h. h
  Any-insert_back r (q ∷ qs) =
      elim (leb r.seq q.seq)
        as (λ b. Any P (if b then r ∷ q ∷ qs else q ∷ insert_by_seq r qs) → P r ⊎ Any P (q ∷ qs)) [
          | true ↦ λ h. h
          | false ↦ λ h. elim h [
            | inl p ↦ inr (inl p)
            | inr a ↦ elim (Any-insert_back r qs a) [ inl p ↦ inl p | inr b ↦ inr (inr b) ]
          ]
        ]

  Any-sorted_back : (rs : List StoredRow) → Any P (sorted rs) → Any P rs
  unfolding sorted
  Any-sorted_back [] h = h
  Any-sorted_back (r ∷ rs) h = elim (Any-insert_back r (sorted rs) h) [
    | inl p ↦ inl p
    | inr a ↦ inr (Any-sorted_back rs a)
  ]

module _ (env : Env) (hash_at : ℕ → Reply (Option String)) where
  abbrev Broken : ℕ → StoredRow → Type 0
  Broken n r = (r.seq ≡ n) × (row_ok env hash_at r ≡ answered false)

  abbrev Below : ℕ → StoredRow → Type 0
  Below n r = r.seq < n → row_ok env hash_at r ≡ answered true

  Below-All : (n : ℕ) (rs : List StoredRow) → All (λ q. n ≤ q.seq) rs → All (Below n) rs
  Below-All n [] a = tt
  Below-All n (r ∷ rs) a = (λ h. absurd (omega (arith, h, a.0)), Below-All n rs a.1)

  same_seq : (m n : ℕ) → ok (fail m) ≡ ok (fail n) → m ≡ n
  same_seq m n e = ground arith

  sorted_fail :
      (rs : List StoredRow) (n : ℕ)
      → IsSorted rs
      → verify_sorted env hash_at rs ≡ ok (fail n)
      → Any (Broken n) rs × All (Below n) rs
  unfolding verify_sorted
  sorted_fail [] n s h = absurd (ground arith)
  sorted_fail (r ∷ rs) n s h = elim (verified_cases (row_ok env hash_at r)) [
    | inl e ↦ let (a, b) = sorted_fail rs n s.1 (ground arith) in (inr a, ((λ k. e), b))
    | inr (inr e) ↦ absurd (ground (arith, e, h))
    | inr (inl e) ↦
        let q : r.seq ≡ n = ground arith in
        (
          inl (q, e),
          (
            (λ k. absurd (omega (arith, q, k))),
            Below-All n rs (All-above n r.seq rs (omega (arith, q)) s.0),
          ),
        )
  ]

  -- Where a page fails with a number, a row of the page with that number does not match its stored
  -- predecessor, or has none, and every row of the page with a smaller number matches its own.
  pub verify_rows-fail :
      (rs : List StoredRow) (n : ℕ)
      → verify_rows env hash_at rs ≡ ok (fail n)
      → Any (λ r. (r.seq ≡ n) × (row_ok env hash_at r ≡ answered false)) rs
        × All (λ r. r.seq < n → row_ok env hash_at r ≡ answered true) rs
  unfolding verify_rows
  verify_rows-fail rs n h =
      let (a, b) = sorted_fail (sorted rs) n (sorted-IsSorted rs) h in
      (Any-sorted_back (Broken n) rs a, All-sorted_back (Below n) rs b)
