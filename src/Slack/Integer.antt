-- ===== src/Slack/Integer.antt =====
-- `int(s)` of a header value: surrounding whitespace, a sign, decimal digits with single underscores
-- between them, at most 4300 digits; anything else is a ValueError (`none`).
use Prim.Native.Char.{code}
use mcp_control_plane.Prelude.{
  ℕ, zero, suc, ◌+◌, ◌-◌, ◌*◌, String, Bool, false, Option, none, some, List, [], ◌∷◌, leb, nat_eq,
  ◌&&◌, ◌||◌, if◌then◌else◌,
}
use mathlib.Core.List.{reverse}
use mcp_control_plane.Value.{ℤ, pos, negsuc}

codes : String → List ℕ
codes String.[] = []
codes (String.◌∷◌ c s) = code c ∷ codes s

is_digit : ℕ → Bool
is_digit c = leb b'0' c && leb c b'9'

is_space : ℕ → Bool
is_space c = leb 9 c && leb c 13 || (nat_eq c 32 || (nat_eq c 0x85 || nat_eq c 0xa0))

skip_space : List ℕ → List ℕ
skip_space [] = []
skip_space (c ∷ cs) = let rest = skip_space cs in if is_space c then rest else c ∷ cs

-- `after` says that the last character was a digit, `count` how many there were.
digits_from : Bool → ℕ → ℕ → List ℕ → Option ℕ
unfolding is_digit
digits_from after count acc [] = if after && leb count 4300 then some acc else none
digits_from after count acc (c ∷ cs) =
    let rest =
      digits_from (is_digit c) (if is_digit c then count + 1 else count)
        (if is_digit c then acc * 10 + (c - b'0') else acc) cs in
    if is_digit c || (nat_eq c b'_' && after) then rest else none

negated : Option ℕ → Option ℤ
negated none = none
negated (some zero) = some (pos 0)
negated (some (suc n)) = some (negsuc n)

plain : Option ℕ → Option ℤ
plain none = none
plain (some n) = some (pos n)

signed : List ℕ → Option ℤ
unfolding digits_from negated plain
signed [] = none
signed (c ∷ cs) =
    if nat_eq c b'-'
    then negated (digits_from false 0 0 cs)
    else if nat_eq c b'+'
    then plain (digits_from false 0 0 cs)
    else plain (digits_from false 0 0 (c ∷ cs))

unfoldable pub py_int : String → Option ℤ
unfolding codes skip_space is_space signed
py_int s = signed (reverse (skip_space (reverse (skip_space (codes s)))))
