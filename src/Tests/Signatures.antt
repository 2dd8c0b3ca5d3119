-- ===== src/Tests/Signatures.antt =====
-- The theorems on Slack's callbacks at a concrete one, whose HMAC is taken to be "00".
use mcp_control_plane.Prelude.{
  ◌+◌, ◌*◌, length, ◌≢◌, refl, true, some, [], ◌∷◌, arith, Option, String,
}
use mcp_control_plane.World.{Env, Trace, ok, read_clock}
use mcp_control_plane.Approvals.{
  create_pending_approval, decide_approval, approval_key, of_dict, asdict,
}
use mcp_control_plane.Slack.{verify_signature, signature_of}
use mcp_control_plane.Slack.Genuine.{Genuine, verify_signature-Genuine, verify_signature_replay}
use mcp_control_plane.Decisions.{DecideHttp, decide, decide_payload, after_decision, resume, report}
use mcp_control_plane.Mediation.Resumed.{Resumed, decide-Resumed}
use mcp_control_plane.Mediation.Settled.{Settled, decide-Settled}
use mcp_control_plane.Http.{Response, json_response}
use mcp_control_plane.Value.{str, record_of}
use mcp_control_plane.Json.{decimal}
use mcp_control_plane.Tests.Fixtures.{held_env, in_prod}

abbrev stamp : Option String
stamp = some "1700000000"

abbrev signature : Option String
signature = some "v0=00"

verify_signature-Genuine_example : Genuine held_env 1700000000000000 stamp [] signature
unfolding verify_signature signature_of
verify_signature-Genuine_example = verify_signature-Genuine held_env stamp [] signature [] refl

-- a clock that runs off
fast : Env
fast = record held_env { now = λ tr. 1700000000000000 + length tr * 700000000 }

verify_signature_replay_example :
    (verify_signature fast stamp [] signature (read_clock ∷ [])).0 ≢ ok true
unfolding verify_signature signature_of fast
verify_signature_replay_example =
    verify_signature_replay fast stamp [] signature [] (read_clock ∷ []) refl (omega arith)

callback : DecideHttp
callback = record { timestamp = stamp; body = []; signature = signature }

abbrev after_hold : Trace
after_hold =
    (create_pending_approval held_env "agent01" "sre1" "scale_deployment" in_prod "wait" []).1

decide-Resumed_example :
    Resumed held_env "uuid-1" callback after_hold (decide held_env "uuid-1" callback after_hold).1
decide-Resumed_example = decide-Resumed held_env "uuid-1" callback after_hold

abbrev approved_answer : Response
approved_answer =
    json_response 200 (record_of (("approval_id", str "uuid-1") ∷ ("status", str "approved") ∷ []))

decide-Settled_example :
    Settled held_env "uuid-1"
      (held_env.parse_decision [])
      after_hold
      (decide held_env "uuid-1" callback after_hold).1
unfolding callback decide verify_signature signature_of decide_payload decide_approval
    after_decision resume report create_pending_approval approval_key decimal of_dict asdict
decide-Settled_example = decide-Settled held_env "uuid-1" callback after_hold approved_answer refl
