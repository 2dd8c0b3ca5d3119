-- ===== src/Integrity/Collision.antt =====
-- Two logs that verify and end in the same hash: what their rows have in common, up to collisions of SHA-256.
use mcp_control_plane.Prelude.{
  String, ◌≡◌, ◌≢◌, refl, sym, ◌∙◌, ap, List, [], ◌∷◌, length, arith, eq_iff, ◌==◌, Bool-cases, ◌⊎◌,
  inl, inr,
}
use text.Mathlib.TextLemmas.{append_inj}
use Prim.Native.String.{count}
use mcp_control_plane.World.{AuditRow, Env, ok}
use mcp_control_plane.Clock.{isoformat}
use mcp_control_plane.Audit.{genesis_hash, hash_payload, row_hash_of, prev_or_genesis}
use mcp_control_plane.Integrity.{pass, expected_hash, verify_rows}
use mcp_control_plane.Integrity.Chain.{newest, IsChained}
use mcp_control_plane.Integrity.Table.{numbered, hash_with_seq, verify_rows-numbered}

-- `hexdigest()` gives 64 characters.
abbrev pub IsHexDigest : Env → Type 0
IsHexDigest env = (s : String) → count (env.sha256 s) ≡ 64

-- what is hashed for a row after a given hash
abbrev pub payload : String → AuditRow → String
payload prev_hash r =
    hash_payload prev_hash r.id r.agent_id r.tool_name r.args r.result_summary
      (isoformat r.created_at)

-- Row by row, the texts that were hashed are the same, and so are the hashes.
abbrev pub SameHashed : List AuditRow → List AuditRow → Type 0
SameHashed [] [] = Unit
SameHashed (r ∷ rs) (s ∷ ss) =
    (payload (prev_or_genesis (newest rs)) r ≡ payload (prev_or_genesis (newest ss)) s)
    × (r.row_hash ≡ s.row_hash)
    × SameHashed rs ss
SameHashed _ _ = ⊥

-- Two rows at the same place of their logs were hashed from texts that differ, to the same hash.
abbrev pub Collides : Env → List AuditRow → List AuditRow → Type 0
Collides env (r ∷ rs) (s ∷ ss) =
    let t = payload (prev_or_genesis (newest rs)) r in
    let u = payload (prev_or_genesis (newest ss)) s in
    ((t ≢ u)
      × (env.sha256 t ≡ env.sha256 u)
      × (r.row_hash ≡ env.sha256 t)
      × (s.row_hash ≡ env.sha256 u))
    ⊎ Collides env rs ss
Collides env _ _ = ⊥

digest-genesis : count genesis_hash ≡ 64
digest-genesis = refl

module _ (env : Env) (hex : IsHexDigest env) where
  chained_digest :
      (rs : List AuditRow) → IsChained env rs → count (prev_or_genesis (newest rs)) ≡ 64
  unfolding expected_hash row_hash_of
  chained_digest [] c = digest-genesis
  chained_digest (r ∷ rs) (h, c) = ap count h ∙ hex _

  same_or_not : (s t : String) → (s ≢ t) ⊎ (s ≡ t)
  same_or_not s t = elim (Bool-cases (s == t)) [
    | inl e ↦ inr ((eq_iff s t).0 e)
    | inr e ↦ inl (λ p. absurd (ground (arith, (eq_iff s t).1 p, e)))
  ]

  -- The text of a row begins with the hash before it.
  payload-prev :
      (p q : String) (r s : AuditRow) → count p ≡ count q → payload p r ≡ payload q s → p ≡ q
  unfolding hash_payload
  payload-prev p q r s h e = (append_inj e h).0

  chains-SameHashed :
      (rs ss : List AuditRow)
      → IsChained env rs
      → IsChained env ss
      → length rs ≡ length ss
      → prev_or_genesis (newest rs) ≡ prev_or_genesis (newest ss)
      → Collides env rs ss ⊎ SameHashed rs ss
  unfolding expected_hash row_hash_of
  chains-SameHashed [] [] c d l e = inr tt
  chains-SameHashed [] (s ∷ ss) c d l e = absurd (omega (arith, l))
  chains-SameHashed (r ∷ rs) [] c d l e = absurd (omega (arith, l))
  chains-SameHashed (r ∷ rs) (s ∷ ss) (h, c) (k, d) l e =
      elim (same_or_not (payload (prev_or_genesis (newest rs)) r)
        (payload (prev_or_genesis (newest ss)) s)) [
          | inl differ ↦ inl (inl (differ, sym h ∙ e ∙ k, h, k))
          | inr same ↦
              let before =
                payload-prev (prev_or_genesis (newest rs)) (prev_or_genesis (newest ss)) r s
                  (chained_digest rs c ∙ sym (chained_digest ss d)) same in
              elim (chains-SameHashed rs ss c d (omega (arith, l)) before) [
                | inl collision ↦ inl (inr collision)
                | inr rest ↦ inr (same, e, rest)
              ]
        ]

-- Where SHA-256 gives digests of 64 characters: two complete logs of equally many rows that both verify, and
-- whose newest rows have the same hash, have been hashed from the same texts, row by row, and have the same
-- hashes all along; or two rows at the same place of these logs, with the same hash, were hashed from texts
-- that differ.
pub verify_rows-SameHashed :
    (env : Env) (rs ss : List AuditRow)
    → IsHexDigest env
    → verify_rows env (hash_with_seq rs) (numbered rs) ≡ ok pass
    → verify_rows env (hash_with_seq ss) (numbered ss) ≡ ok pass
    → length rs ≡ length ss
    → newest rs ≡ newest ss
    → Collides env rs ss ⊎ SameHashed rs ss
verify_rows-SameHashed env rs ss hex p q l e =
    chains-SameHashed env hex rs ss ((verify_rows-numbered env rs).0 p)
      ((verify_rows-numbered env ss).0 q) l (ap prev_or_genesis e)
