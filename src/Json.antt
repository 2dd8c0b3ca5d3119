-- ===== src/Json.antt =====
-- `json.dumps(v, sort_keys=True)` of the standard library, as app/audit.py calls it: ", " and ": "
-- between the parts, keys in code point order at every level, all but printable ASCII escaped.
use Prim.Native.Char.{code}
use Prim.Native.String
use Prim.Native.String.{compare}
use Prim.Native.Nat.{Ordering}
use mcp_control_plane.Prelude.{
  ℕ, zero, suc, ◌+◌, ◌-◌, ◌/◌, ◌%◌, String, Bool, true, false, List, [], ◌∷◌, ltb, leb, nat_eq,
  concat, ◌&&◌, if◌then◌else◌,
}
use mcp_control_plane.Value.{
  ℤ, pos, negsuc, Value, null, bool, int, float, str, arr, obj, Items, nil, cons, Fields, end,
  field,
}

digit : ℕ → List String → String
digit n [] = ""
digit zero (d ∷ ds) = d
digit (suc n) (d ∷ ds) = digit n ds

abbrev digit_texts : List String
digit_texts =
    "0" ∷ "1" ∷ "2" ∷ "3" ∷ "4" ∷ "5" ∷ "6" ∷ "7" ∷ "8" ∷ "9" ∷ "a" ∷ "b" ∷ "c" ∷ "d" ∷ "e" ∷ "f"
    ∷ []

-- `acc` follows the digits of `n`; the fuel is a bound on their number.
decimal_from : ℕ → ℕ → String → String
decimal_from zero n acc = acc
decimal_from (suc f) n acc =
    let longer = String.◌++◌ (digit (n % 10) digit_texts) acc in
    let rest = decimal_from f (n / 10) longer in if ltb n 10 then longer else rest

unfoldable pub decimal : ℕ → String
unfolding decimal_from digit
decimal n = decimal_from (n + 1) n ""

int_text : ℤ → String
unfolding decimal
int_text (pos n) = decimal n
int_text (negsuc n) = String.◌++◌ "-" (decimal (n + 1))

hex4 : ℕ → String
unfolding digit
hex4 n = concat (
    "\\u"
    ∷ digit (n / 4096 % 16) digit_texts
    ∷ digit (n / 256 % 16) digit_texts
    ∷ digit (n / 16 % 16) digit_texts
    ∷ digit (n % 16) digit_texts
    ∷ [])

escape_code : ℕ → String → String
unfolding hex4
escape_code n plain =
    if nat_eq n 34
    then "\\\""
    else if nat_eq n 92
    then "\\\\"
    else if nat_eq n 10
    then "\\n"
    else if nat_eq n 13
    then "\\r"
    else if nat_eq n 9
    then "\\t"
    else if nat_eq n 8
    then "\\b"
    else if nat_eq n 12
    then "\\f"
    else if leb 32 n && leb n 126
    then plain
    else if leb n 0xffff
    then hex4 n
    else String.◌++◌ (hex4 (0xd800 + (n - 0x10000) / 1024)) (hex4 (0xdc00 + (n - 0x10000) % 1024))

escape : String → String
unfolding escape_code
escape String.[] = ""
escape (String.◌∷◌ c s) = String.◌++◌ (escape_code (code c) (String.◌∷◌ c String.[])) (escape s)

quoted : String → String
unfolding escape
quoted s = concat ("\"" ∷ escape s ∷ "\"" ∷ [])

comes_first : Ordering → Bool
comes_first Ordering.gt = false
comes_first _ = true

-- Members stand in the order of their keys; a dict has no key twice.
insert_member : String → String → List (String × String) → List (String × String)
insert_member k v [] = (k, v) ∷ []
insert_member k v ((j, w) ∷ ms) =
    if comes_first (compare k j) then (k, v) ∷ (j, w) ∷ ms else (j, w) ∷ insert_member k v ms

separated : List String → String
separated [] = ""
separated (s ∷ []) = s
separated (s ∷ t ∷ ss) = concat (s ∷ ", " ∷ separated (t ∷ ss) ∷ [])

members : List (String × String) → List String
members [] = []
members ((k, v) ∷ ms) = concat (quoted k ∷ ": " ∷ v ∷ []) ∷ members ms

unfoldable mutual
  unfolding int_text quoted insert_member comes_first separated members

  pub dumps : Value → String
  dumps null = "null"
  dumps (bool true) = "true"
  dumps (bool false) = "false"
  dumps (int z) = int_text z
  dumps (float zero_float text) = text
  dumps (str s) = quoted s
  dumps (arr vs) = concat ("[" ∷ separated (dumps_items vs) ∷ "]" ∷ [])
  dumps (obj fs) = concat ("{" ∷ separated (members (dumps_fields fs)) ∷ "}" ∷ [])

  pub dumps_items : Items → List String
  dumps_items nil = []
  dumps_items (cons v vs) = dumps v ∷ dumps_items vs

  pub dumps_fields : Fields → List (String × String)
  dumps_fields end = []
  dumps_fields (field k v fs) = insert_member k (dumps v) (dumps_fields fs)
