-- ===== src/Tools/Text.antt =====
-- The methods of str that the executors use: `strip`, `splitlines`, `split`, slices and `len`, by code
-- points.
use Prim.Native.Char.{code}
use mcp_control_plane.Prelude.{
  ℕ, zero, suc, String, Bool, true, false, List, [], ◌∷◌, leb, nat_eq, ◌&&◌, ◌||◌, concat,
  if◌then◌else◌,
}

-- `len(s)`
unfoldable pub text_length : String → ℕ
text_length String.[] = 0
text_length (String.◌∷◌ c s) = suc (text_length s)

-- `str.isspace` of a character
unfoldable pub is_blank : ℕ → Bool
is_blank c =
    leb 9 c && leb c 13
    || (leb 28 c && leb c 32
        || (nat_eq c 0x85
            || (nat_eq c 0xa0
                || (nat_eq c 0x1680
                    || (leb 0x2000 c && leb c 0x200a
                        || (nat_eq c 0x2028
                            || (nat_eq c 0x2029
                                || (nat_eq c 0x202f || (nat_eq c 0x205f || nat_eq c 0x3000)))))))))

unfoldable pub lstrip : String → String
unfolding is_blank
lstrip String.[] = ""
lstrip (String.◌∷◌ c s) = let rest = lstrip s in if is_blank (code c) then rest else String.◌∷◌ c s

is_empty : String → Bool
is_empty String.[] = true
is_empty (String.◌∷◌ c s) = false

-- A character goes if it is a blank and nothing is left behind it.
unfoldable pub rstrip : String → String
unfolding is_blank is_empty
rstrip String.[] = ""
rstrip (String.◌∷◌ c s) =
    let rest = rstrip s in if is_blank (code c) && is_empty rest then "" else String.◌∷◌ c rest

unfoldable pub strip : String → String
unfolding lstrip rstrip
strip s = rstrip (lstrip s)

-- `s[:n]`
unfoldable pub take_chars : ℕ → String → String
take_chars zero s = ""
take_chars (suc n) String.[] = ""
take_chars (suc n) (String.◌∷◌ c s) = String.◌∷◌ c (take_chars n s)

ends_line : ℕ → Bool
ends_line c =
    leb 10 c && leb c 13
    || (leb 28 c && leb c 30 || (nat_eq c 0x85 || (nat_eq c 0x2028 || nat_eq c 0x2029)))

-- The lines that are still to come; `begun` says that one has begun, `after_cr` that the last character
-- was a carriage return, whose line a newline does not end again.
lines_from : (begun after_cr : Bool) → String → ℕ
unfolding ends_line
lines_from begun after_cr String.[] = if begun then 1 else 0
lines_from begun after_cr (String.◌∷◌ c s) =
    let skipped = lines_from false false s in
    let ended = lines_from false (nat_eq (code c) 13) s in
    let inside = lines_from true false s in
    if after_cr && nat_eq (code c) 10
    then skipped
    else if ends_line (code c)
    then suc ended
    else inside

-- `len(s.splitlines())`
unfoldable pub count_lines : String → ℕ
unfolding lines_from
count_lines s = lines_from false false s

-- a character in front of the first part
push_char : Prim.Native.Char.Char → List String → List String
push_char c [] = String.◌∷◌ c "" ∷ []
push_char c (p ∷ ps) = String.◌∷◌ c p ∷ ps

-- `s.split("/")`
unfoldable pub split_slash : String → List String
unfolding push_char
split_slash String.[] = "" ∷ []
split_slash (String.◌∷◌ c s) =
    let rest = split_slash s in if nat_eq (code c) b'/' then "" ∷ rest else push_char c rest

-- `sep.join(parts)`
unfoldable pub join : String → List String → String
join sep [] = ""
join sep (p ∷ []) = p
join sep (p ∷ (q ∷ ps)) = concat (p ∷ sep ∷ join sep (q ∷ ps) ∷ [])

-- the texts of the single characters, as a loop over a str gives them
unfoldable pub chars : String → List String
chars String.[] = []
chars (String.◌∷◌ c s) = String.◌∷◌ c "" ∷ chars s
