-- ===== src/Approvals/Store.antt =====
-- What Redis promises about GET and SET, against the writes in the trace.
use mcp_control_plane.Prelude.{String, ◌≡◌, Option, none, some, [], ◌∷◌, ◌==◌, if◌then◌else◌}
use mcp_control_plane.Value.{Value}
use mcp_control_plane.World.{Env, Trace, set_key, answered}
use mcp_control_plane.Approvals.{Approval, asdict, approval_key}
use mcp_control_plane.Approvals.RoundTrip.{of_dict-asdict}
use mcp_control_plane.Approvals.Lifecycle.{Resolves}

-- the value of the newest SET of a key
abbrev pub last_set : Trace → String → Option Value
last_set [] key = none
last_set (set_key k v e ∷ tr) key = if k == key then some v else last_set tr key
last_set (_ ∷ tr) key = last_set tr key

-- A GET that finds a value finds that of the newest SET. (It may find none: the key may have expired.)
pub record KvFaithful (env : Env) : Type 0 where
  pub newest :
      (tr : Trace) (key : String) (v : Value)
      → env.kv_get tr key ≡ answered (some v)
      → last_set tr key ≡ some v

pub same_approval : (a b : Approval) → some (asdict a) ≡ some (asdict b) → a ≡ b
same_approval a b e = cc (of_dict-asdict a, of_dict-asdict b)

-- A decided call is the one that was stored.
pub Resolves-before :
    (env : Env) (approval_id decision decided_by : String) (tr : Trace) (stored a : Approval)
    → KvFaithful env
    → last_set tr (approval_key approval_id) ≡ some (asdict stored)
    → (r : Resolves env approval_id decision decided_by tr a) → r.before ≡ stored
Resolves-before env approval_id decision decided_by tr stored a f s r =
    let found = f.newest tr (approval_key approval_id) r.raw r.stored in
    cc (of_dict-asdict stored, r.read, found, s)
