-- ===== src/Tests/Integrity.antt =====
-- The theorems on the audit log, at the log of one request.
use mcp_control_plane.Prelude.{
  ◌⊎◌, false, ◌<◌, ◌≡◌, refl, some, none, [], ◌∷◌, List, ◌↔◌, All, true, Bool-cases, inl, inr,
  String, ◌==◌, if◌then◌else◌,
}
use mcp_control_plane.Value.{null}
use mcp_control_plane.World.{answered, ok, Env, Trace, AuditRow, inserted_row}
use mcp_control_plane.Http.{json}
use mcp_control_plane.Auth.{api_keys}
use mcp_control_plane.App.{Request, post_mcp, serve, run_app}
use mcp_control_plane.Integrity.Kept.{run_app-Chained}
use mcp_control_plane.Traces.Views.{rows}
use mcp_control_plane.Json.{decimal, dumps}
use mcp_control_plane.Clock.{isoformat}
use mcp_control_plane.Audit.{hash_payload, genesis_hash, row_hash_of}
use mcp_control_plane.Integrity.{expected_hash, StoredRow, verify_rows, row_ok, pass}
use mcp_control_plane.Integrity.Chain.{newest, IsChained, Chained, LastHashFaithful}
use mcp_control_plane.Integrity.Table.{numbered, hash_with_seq, verify_rows-numbered}
use mcp_control_plane.Integrity.Broken.{Any, verify_rows-fail}
use mcp_control_plane.Integrity.Collision.{
  IsHexDigest, Collides, SameHashed, verify_rows-SameHashed,
}
use mcp_control_plane.Integrity.Blind.{Unhashed, tampered, verify_rows-tampered}
use mcp_control_plane.Tests.Fixtures.{
  empty_site, allowed_env, newest_hash, in_prod, call_of, denied_row,
}

newest_hash-rows : (tr : Trace) → newest_hash tr ≡ newest (rows tr)
newest_hash-rows [] = refl
newest_hash-rows (inserted_row row ∷ tr) = refl
newest_hash-rows (_ ∷ tr) = newest_hash-rows tr

allowed_env-LastHashFaithful : LastHashFaithful allowed_env
allowed_env-LastHashFaithful tr o h = cc (newest_hash-rows tr)

request : Request
request = record {
  api_key = some "test_key";
  route = post_mcp (json (call_of "list_pods" in_prod));
}

log : List AuditRow
log = rows (serve allowed_env empty_site api_keys request []).1

verify_rows-numbered_example :
    (verify_rows allowed_env (hash_with_seq log) (numbered log) ≡ ok pass)
    ↔ IsChained allowed_env log
verify_rows-numbered_example = verify_rows-numbered allowed_env log

promote : StoredRow → Unhashed
promote r = record {
  role = "admin";
  policy_decision = null;
  approval_id = none;
  result_status = "denied";
  duration_ms = none;
  otel_trace_id = none;
}

verify_rows-tampered_example :
    verify_rows allowed_env (hash_with_seq log) (tampered promote (numbered log))
    ≡ verify_rows allowed_env (hash_with_seq log) (numbered log)
verify_rows-tampered_example =
    verify_rows-tampered allowed_env (hash_with_seq log) promote (numbered log)

-- a row whose predecessor is missing
abbrev orphan : StoredRow
orphan = record { seq = 2; row = denied_row }

verify_rows-fail_example :
    Any
      (λ r. (r.seq ≡ 2) × (row_ok allowed_env (hash_with_seq []) r ≡ answered false))
      (orphan ∷ [])
    × All (λ r. r.seq < 2 → row_ok allowed_env (hash_with_seq []) r ≡ answered true) (orphan ∷ [])
unfolding verify_rows
verify_rows-fail_example = verify_rows-fail allowed_env (hash_with_seq []) (orphan ∷ []) 2 refl

abbrev other_text : String
other_text = "another"

abbrev other_digest : String
other_digest = "1111111111111111111111111111111111111111111111111111111111111111"

-- An environment whose hash gives 64 characters, one text's apart from all others'.
abbrev split : String → String
split s = if s == other_text then other_digest else genesis_hash

abbrev split_env : Env
split_env = record allowed_env { sha256 = split }

abbrev one_row : List AuditRow
one_row = record denied_row { row_hash = genesis_hash } ∷ []

abbrev same_row : List AuditRow
same_row = record denied_row { role = "admin"; row_hash = genesis_hash } ∷ []

split-IsHexDigest : IsHexDigest split_env
split-IsHexDigest s = elim (Bool-cases (s == other_text)) [ inl e ↦ rw e refl | inr e ↦ rw e refl ]

verify_rows-SameHashed_example : Collides split_env one_row same_row ⊎ SameHashed one_row same_row
unfolding verify_rows expected_hash row_hash_of hash_payload decimal dumps isoformat
verify_rows-SameHashed_example =
    verify_rows-SameHashed split_env one_row same_row split-IsHexDigest refl refl refl refl

run_app-Chained_example :
    Chained allowed_env
      (run_app allowed_env empty_site api_keys (request ∷ request ∷ []) ([], [])).1.0
run_app-Chained_example =
    run_app-Chained allowed_env empty_site api_keys (request ∷ request ∷ []) [] []
      allowed_env-LastHashFaithful tt
