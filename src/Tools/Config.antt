-- ===== src/Tools/Config.antt =====
-- app/tools/config.py: the timeout of every downstream call.
use mcp_control_plane.Prelude.{◌*◌, Bool, true, false, none, some, ltb, if◌then◌else◌}
use mcp_control_plane.Value.{ℤ, pos, negsuc, Value, float}
use mcp_control_plane.Clock.{second}
use mcp_control_plane.Tools.Backend.{Seconds, finite, infinity, minus_infinity, nan, Backends}

abbrev pub default_timeout_seconds : Seconds
default_timeout_seconds = finite (pos (10 * second))

abbrev pub max_timeout_seconds : Seconds
max_timeout_seconds = finite (pos (30 * second))

abbrev pub one_second : Seconds
one_second = finite (pos (1 * second))

int_less : ℤ → ℤ → Bool
int_less (pos m) (pos n) = ltb m n
int_less (pos m) (negsuc n) = false
int_less (negsuc m) (pos n) = true
int_less (negsuc m) (negsuc n) = ltb n m

-- `x < y` of two floats; with a nan it is false.
unfoldable pub less : Seconds → Seconds → Bool
unfolding int_less
less nan y = false
less x nan = false
less infinity y = false
less x minus_infinity = false
less minus_infinity y = true
less x infinity = true
less (finite a) (finite b) = int_less a b

-- `max(1.0, min(value, MAX_TIMEOUT_SECONDS))`; each keeps its first argument if none is beyond it.
unfoldable pub clamped : Seconds → Seconds
unfolding less
clamped value =
    let low = if less max_timeout_seconds value then max_timeout_seconds else value in
    if less one_second low then low else one_second

unfoldable pub get_executor_timeout : Backends → Seconds
unfolding clamped
get_executor_timeout b = elim (b.executor_timeout_seconds) [
  | none ↦ default_timeout_seconds
  | some raw ↦ elim (b.float_of raw) [ none ↦ default_timeout_seconds | some value ↦ clamped value ]
]

-- the timeout as a JSON value; it is not zero
abbrev pub timeout_value : Backends → Value
timeout_value b = float false (b.seconds_text (get_executor_timeout b))
