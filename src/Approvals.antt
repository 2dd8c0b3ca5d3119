-- ===== src/Approvals.antt =====
-- app/approvals.py: the pending-approval store in Redis.
-- `json.dumps` and `json.loads` are the identity on values; a time is written as the integer of its
-- microseconds. A stored value of another type than this code writes, which `Approval(**d)` does not check, is
-- a TypeError here.
pub mod RoundTrip
pub mod Lifecycle
pub mod Store
pub mod Once
pub mod Held
use mcp_control_plane.Prelude.{
  ℕ, ◌+◌, ◌*◌, String, Option, none, some, [], ◌∷◌, concat, ltb, not, ◌==◌, ◌&&◌, Bool, true, List,
  contains, if◌then◌else◌,
}
use mcp_control_plane.Value.{
  pos, minus, Value, null, int, str, obj, Fields, end, field, get, record_of, opt_str,
}
use mcp_control_plane.World.{
  type_error, Result, ok, raise, ex, keepttl, Env, M, pure, lift, ◌>>=◌, ◌>>◌, time_now, redis_get,
  redis_set,
}
use mcp_control_plane.Clock.{second}
use mcp_control_plane.Telemetry.{
  add, approval_requests_total, approvals_pending, approval_decision_duration_ms, by_tool, one,
  elapsed_between,
}

abbrev pub approval_ttl_seconds : ℕ
approval_ttl_seconds = 15 * 60

pub record Approval : Type 0 where
  pub id : String
  pub agent_id : String
  pub role : String
  pub tool_name : String
  pub arguments : Fields
  pub reason : String
  pub status : String
  pub requested_at : ℕ
  pub expires_at : ℕ
  pub decided_by : Option String
  pub decided_at : Option ℕ

unfoldable pub approval_key : String → String
approval_key approval_id = concat ("approval:" ∷ approval_id ∷ [])

abbrev time_value : Option ℕ → Value
time_value none = null
time_value (some t) = int (pos t)

unfoldable pub asdict : Approval → Value
asdict a = record_of (
    ("id", str a.id)
    ∷ ("agent_id", str a.agent_id)
    ∷ ("role", str a.role)
    ∷ ("tool_name", str a.tool_name)
    ∷ ("arguments", obj a.arguments)
    ∷ ("reason", str a.reason)
    ∷ ("status", str a.status)
    ∷ ("requested_at", int (pos a.requested_at))
    ∷ ("expires_at", int (pos a.expires_at))
    ∷ ("decided_by", opt_str a.decided_by)
    ∷ ("decided_at", time_value a.decided_at)
    ∷ [])

-- the parameters of `Approval`
abbrev approval_fields : List String
approval_fields =
    "id" ∷ "agent_id" ∷ "role" ∷ "tool_name" ∷ "arguments" ∷ "reason" ∷ "status" ∷ "requested_at"
    ∷ "expires_at" ∷ "decided_by" ∷ "decided_at" ∷ []

abbrev only_fields : Fields → Bool
only_fields end = true
only_fields (field k v fs) = contains approval_fields k && only_fields fs

-- Readers of the arguments of `Approval(**d)`: the last two have a default, None.
abbrev str_of : Option Value → Result String
str_of (some (str s)) = ok s
str_of _ = raise type_error

abbrev obj_of : Option Value → Result Fields
obj_of (some (obj fs)) = ok fs
obj_of _ = raise type_error

abbrev time_of : Option Value → Result ℕ
time_of (some (int (pos t))) = ok t
time_of _ = raise type_error

abbrev opt_str_of : Option Value → Result (Option String)
opt_str_of none = ok none
opt_str_of (some null) = ok none
opt_str_of (some (str s)) = ok (some s)
opt_str_of _ = raise type_error

abbrev opt_time_of : Option Value → Result (Option ℕ)
opt_time_of none = ok none
opt_time_of (some null) = ok none
opt_time_of (some (int (pos t))) = ok (some t)
opt_time_of _ = raise type_error

abbrev then_with : {A B : Type 0} → Result A → (A → Result B) → Result B
then_with (ok a) f = f a
then_with (raise e) f = raise e

-- `Approval(**json.loads(raw))`, for the keys in any order: a key that is missing or unknown is a TypeError.
unfoldable pub of_dict : Value → Result Approval
of_dict (obj d) =
    if not (only_fields d)
    then raise type_error
    else then_with (str_of (get d "id")) λ id. then_with (str_of (get d "agent_id")) λ agent_id.
      then_with (str_of (get d "role")) λ role. then_with (str_of (get d "tool_name")) λ tool_name.
        then_with (obj_of (get d "arguments")) λ arguments.
          then_with (str_of (get d "reason")) λ reason.
            then_with (str_of (get d "status")) λ status.
              then_with (time_of (get d "requested_at")) λ requested_at.
                then_with (time_of (get d "expires_at")) λ expires_at.
                  then_with (opt_str_of (get d "decided_by")) λ decided_by.
                    then_with (opt_time_of (get d "decided_at")) λ decided_at. ok (record {
                      id = id;
                      agent_id = agent_id;
                      role = role;
                      tool_name = tool_name;
                      arguments = arguments;
                      reason = reason;
                      status = status;
                      requested_at = requested_at;
                      expires_at = expires_at;
                      decided_by = decided_by;
                      decided_at = decided_at;
                    })
of_dict _ = raise type_error

-- the record that `create_pending_approval` builds
unfoldable pub pending_approval :
    Env → (agent_id role tool_name : String) → Fields → String → ℕ → String → Approval
pending_approval env agent_id role tool_name arguments reason now id = record {
  id = id;
  agent_id = agent_id;
  role = role;
  tool_name = tool_name;
  arguments = arguments;
  reason = reason;
  status = "pending";
  requested_at = now;
  expires_at = now + approval_ttl_seconds * second;
  decided_by = none;
  decided_at = none;
}

-- `uuid.uuid4()`
abbrev pub fresh_id : Env → M String
fresh_id env tr = pure (env.new_uuid tr) tr

unfoldable pub create_pending_approval :
    Env → (agent_id role tool_name : String) → Fields → String → M Approval
unfolding time_now redis_set pending_approval add
create_pending_approval env agent_id role tool_name arguments reason = do
  now ← time_now env
  id ← fresh_id env
  let approval = pending_approval env agent_id role tool_name arguments reason now id
  redis_set env (approval_key id) (asdict approval) (ex approval_ttl_seconds)
  add approval_requests_total one (by_tool tool_name)
  add approvals_pending one (by_tool tool_name)
  pure approval

abbrev loaded : Option Value → Result (Option Approval)
loaded none = ok none
loaded (some raw) = elim (of_dict raw) [ ok a ↦ ok (some a) | raise e ↦ raise e ]

unfoldable pub get_approval : Env → String → M (Option Approval)
unfolding redis_get
get_approval env approval_id = do raw ← redis_get env (approval_key approval_id); lift (loaded raw)

pub data DecideOutcome : Type 0 where
  decided not_found already_decided : DecideOutcome

abbrev pub decided_status : String → String
decided_status decision = if decision == "approve" then "approved" else "denied"

-- the part of `decide_approval` behind the two tests on the record and the one on the clock
unfoldable pub resolve :
    Env → String → String → String → Approval → M (Option Approval × DecideOutcome)
unfolding time_now redis_set add
resolve env approval_id decision decided_by approval = do
  now ← time_now env
  let resolved = record approval {
    status = decided_status decision;
    decided_by = some decided_by;
    decided_at = some now;
  }
  redis_set env (approval_key approval_id) (asdict resolved) keepttl
  add approvals_pending (minus 1) (by_tool approval.tool_name)
  add approval_decision_duration_ms (elapsed_between now approval.requested_at)
      (by_tool approval.tool_name)
  pure (some resolved, decided)

unfoldable pub decide_found :
    Env → String → String → String → Option Approval → M (Option Approval × DecideOutcome)
unfolding time_now resolve
decide_found env approval_id decision decided_by none = pure (none, not_found)
decide_found env approval_id decision decided_by (some approval) =
    if not (approval.status == "pending") then pure (some approval, already_decided) else do
      now ← time_now env
      if ltb approval.expires_at now
          then pure (some approval, not_found)
          else resolve env approval_id decision decided_by approval

unfoldable pub decide_approval :
    Env → String → String → String → M (Option Approval × DecideOutcome)
unfolding get_approval decide_found
decide_approval env approval_id decision decided_by = do
  approval ← get_approval env approval_id
  decide_found env approval_id decision decided_by approval
