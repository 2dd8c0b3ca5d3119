-- ===== src/Value.antt =====
-- The values that `request.json()` and `json.loads` give: Python's None, bool, int, float, str, list
-- and dict, and the few operations on them that app/ uses. A dict is its items in insertion order.
use mcp_control_plane.Prelude.{
  ℕ, ◌-◌, String, Bool, true, false, not, Option, none, some, List, [], ◌∷◌, nat_eq, ◌==◌,
  if◌then◌else◌,
}

-- `negsuc n` is -(n + 1).
pub data ℤ : Type 0 where
  pos : ℕ → ℤ
  negsuc : ℕ → ℤ

abbrev pub is_zero : ℤ → Bool
is_zero (pos n) = nat_eq n 0
is_zero (negsuc n) = false

-- -n, for a positive n
abbrev pub minus : ℕ → ℤ
minus n = negsuc (n - 1)

-- Of a float the code asks whether it is zero, and its text (its `repr`).
mutual
  pub data Value : Type 0 where
    null : Value
    bool : Bool → Value
    int : ℤ → Value
    float : Bool → String → Value
    str : String → Value
    obj : Fields → Value
    arr : Items → Value

  pub data Fields : Type 0 where
    field : String → Value → Fields → Fields
    end : Fields

  pub data Items : Type 0 where
    nil : Items
    cons : Value → Items → Items

-- `bool(v)`; the flag of a float says that it is zero.
abbrev pub truthy : Value → Bool
truthy null = false
truthy (bool b) = b
truthy (int z) = not (is_zero z)
truthy (float zero_float text) = not zero_float
truthy (str s) = not (s == "")
truthy (arr nil) = false
truthy (arr (cons v vs)) = true
truthy (obj end) = false
truthy (obj (field k v fs)) = true

-- `d.get(key)`, with no default
abbrev pub get : Fields → String → Option Value
get end key = none
get (field k v fs) key = if k == key then some v else get fs key

-- `None` and a missing key read alike.
abbrev pub or_null : Option Value → Value
or_null none = null
or_null (some v) = v

-- `v or w`
abbrev pub or_else : Value → Value → Value
or_else v w = if truthy v then v else w

-- dict and list displays
abbrev pub dict : List (String × Value) → Fields
dict [] = end
dict ((k, v) ∷ kvs) = field k v (dict kvs)

abbrev pub record_of : List (String × Value) → Value
record_of kvs = obj (dict kvs)

abbrev pub items : List Value → Items
items [] = nil
items (v ∷ vs) = cons v (items vs)

abbrev pub list_of : List Value → Value
list_of vs = arr (items vs)

abbrev pub opt_str : Option String → Value
opt_str none = null
opt_str (some s) = str s
