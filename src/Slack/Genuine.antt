-- ===== src/Slack/Genuine.antt =====
-- What a verified signature says of a callback.
use mcp_control_plane.Prelude.{
  ℕ, ◌+◌, ◌*◌, ◌≤◌, ◌<◌, String, ◌≡◌, ◌≢◌, refl, true, Option, none, some, List, arith, eq_iff,
}
use mcp_control_plane.Value.{ℤ}
use mcp_control_plane.World.{Env, Trace, ok}
use mcp_control_plane.Clock.{second}
use mcp_control_plane.Slack.{verify_signature, signature_of, age, check_age}
use mcp_control_plane.Slack.Integer.{py_int}
use mcp_control_plane.Traces.{Keeps}
use mcp_control_plane.Traces.Views.{runs}

-- Both headers are there; the timestamp is an integer at most 300 seconds away from the clock's time; the
-- secret is set, and the signature is that of "v0:", the timestamp, ":" and the body.
pub record Genuine (env : Env) (now : ℕ) (timestamp : Option String) (body : List ℕ)
    (signature : Option String) : Type 0 where
  pub stamp : String
  pub stamped : timestamp ≡ some stamp
  pub seconds : ℤ
  pub read : py_int stamp ≡ some seconds
  pub fresh : age now seconds ≤ 300 * second
  pub secret : env.slack_signing_secret ≢ ""
  pub signed : signature ≡ some (signature_of env stamp body)

module _ (env : Env) where
  check_age-Genuine :
      (t : String) (body : List ℕ) (s : String) (o : Option ℤ) (tr : Trace)
      → py_int t ≡ o
      → env.slack_signing_secret ≢ ""
      → (check_age env t body s o tr).0 ≡ ok true
      → Genuine env (env.now tr) (some t) body (some s)
  unfolding check_age
  check_age-Genuine t body s none tr p n h = absurd (ground arith)
  check_age-Genuine t body s (some z) tr p n h = record {
    stamp = t;
    stamped = refl;
    seconds = z;
    read = p;
    fresh = ground arith;
    secret = n;
    signed = ground (arith, eq_iff (signature_of env t body) s);
  }

  -- A callback is verified only if both headers are there, the timestamp reads as an integer at most 300
  -- seconds away from the clock's time, the secret is set, and the signature is that of "v0:", the
  -- timestamp, ":" and the body.
  pub verify_signature-Genuine :
      (timestamp : Option String) (body : List ℕ) (signature : Option String) (tr : Trace)
      → (verify_signature env timestamp body signature tr).0 ≡ ok true
      → Genuine env (env.now tr) timestamp body signature
  unfolding verify_signature
  verify_signature-Genuine none body signature tr h = absurd (ground arith)
  verify_signature-Genuine (some t) body none tr h = absurd (ground arith)
  verify_signature-Genuine (some t) body (some s) tr h =
      check_age-Genuine t body s (py_int t) tr refl
        (ground (arith, eq_iff env.slack_signing_secret "")) (ground arith)

  -- A callback that is verified once is not verified, with the same headers and body, at any time more
  -- than 600 seconds later.
  pub verify_signature_replay :
      (timestamp : Option String) (body : List ℕ) (signature : Option String) (tr later : Trace)
      → (verify_signature env timestamp body signature tr).0 ≡ ok true
      → env.now tr + 600 * second < env.now later
      → (verify_signature env timestamp body signature later).0 ≢ ok true
  unfolding age
  verify_signature_replay timestamp body signature tr later h late h' =
      let g = verify_signature-Genuine timestamp body signature tr h in
      let g' = verify_signature-Genuine timestamp body signature later h' in
      ground (arith, g.stamped, g'.stamped, g.read, g'.read, g.fresh, g'.fresh)

  pub verify_signature-runs :
      (timestamp : Option String) (body : List ℕ) (signature : Option String)
      → Keeps runs (verify_signature env timestamp body signature)
  unfolding verify_signature
  verify_signature-runs none body signature = record { at = λ tr. refl }
  verify_signature-runs (some t) body none = record { at = λ tr. refl }
  verify_signature-runs (some t) body (some s) = record { at = λ tr. ground arith }
