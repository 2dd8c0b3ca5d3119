-- ===== src/Approvals/RoundTrip.antt =====
-- What Redis holds of an approval gives the approval back.
use mcp_control_plane.Prelude.{◌≡◌, arith}
use mcp_control_plane.World.{ok}
use mcp_control_plane.Approvals.{Approval, asdict, of_dict}

-- Reading the dict that an approval is written as gives the approval back, whatever its fields.
pub of_dict-asdict : (a : Approval) → of_dict (asdict a) ≡ ok a
unfolding of_dict asdict
of_dict-asdict a = ground arith
