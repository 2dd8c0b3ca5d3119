-- ===== src/Query/Filters.antt =====
-- The WHERE clause of the audit query against the filters that were asked for.
use mcp_control_plane.Prelude.{
  ℕ, ◌+◌, ◌-◌, ◌≤◌, String, ◌≡◌, refl, Bool, true, false, ◌&&◌, Option, none, some, arith, List, [],
  ◌∷◌, ◌++◌, length, length-append, All, leb, nat_eq, ◌==◌, if◌then◌else◌,
}
use mcp_control_plane.Value.{ℤ, pos, negsuc}
use mcp_control_plane.World.{AuditRow}
use mcp_control_plane.Query.{
  Param, text, time, Condition, Clause, AuditFilters, add_condition, add_text, add_time,
  collect_filters,
}

-- the value of a placeholder; the first is $1
abbrev pub param_at : List Param → ℕ → Option Param
param_at [] n = none
param_at (p ∷ ps) n = let rest = param_at ps (n - 1) in if nat_eq n 1 then some p else rest

-- the column of a row
abbrev pub column_of : AuditRow → String → Option Param
column_of r column =
    if column == "agent_id"
    then some (text r.agent_id)
    else if column == "tool_name"
    then some (text r.tool_name)
    else if column == "result_status"
    then some (text r.result_status)
    else if column == "created_at"
    then some (time (pos r.created_at))
    else none

-- `a ≤ b` of times
abbrev no_later : ℤ → ℤ → Bool
no_later (pos a) (pos b) = leb a b
no_later (pos a) (negsuc b) = false
no_later (negsuc a) (pos b) = true
no_later (negsuc a) (negsuc b) = leb b a

abbrev compares : String → Option Param → Option Param → Bool
compares op (some (text a)) (some (text b)) = op == "=" && a == b
compares op (some (time a)) (some (time b)) =
    if op == ">=" then no_later b a else if op == "<=" then no_later a b else false
compares op _ _ = false

-- What Postgres makes of a condition, for a row and the bound parameters.
unfoldable pub holds : AuditRow → List Param → Condition → Bool
holds r ps c = compares c.operator (column_of r c.column) (param_at ps c.index)

unfoldable pub all_hold : AuditRow → List Param → List Condition → Bool
unfolding holds
all_hold r ps [] = true
all_hold r ps (c ∷ cs) = holds r ps c && all_hold r ps cs

-- A row is one that the filters ask for: each filter that is given, and no empty text, is met.
abbrev pub text_matches : Option String → String → Bool
text_matches none v = true
text_matches (some s) v = if s == "" then true else v == s

abbrev pub since_matches : Option ℤ → ℕ → Bool
since_matches none t = true
since_matches (some since) t = no_later since (pos t)

abbrev pub until_matches : Option ℤ → ℕ → Bool
until_matches none t = true
until_matches (some until) t = no_later (pos t) until

abbrev pub matches : AuditFilters → AuditRow → Bool
matches f r =
    text_matches f.agent_id r.agent_id
    && (text_matches f.tool r.tool_name
        && (text_matches f.result_status r.result_status
            && (since_matches f.since r.created_at && until_matches f.until r.created_at)))

-- The placeholders of the conditions are numbered within the parameters.
abbrev Numbered : Clause → Type 0
Numbered c = All (λ x. (1 ≤ x.index) × (x.index ≤ length c.params)) c.conditions

param_at-append :
    (ps qs : List Param) (n : ℕ) → 1 ≤ n → n ≤ length ps → param_at (ps ++ qs) n ≡ param_at ps n
param_at-append [] qs n h k = absurd (omega (arith, h, k))
param_at-append (p ∷ ps) qs n h k = ground (arith, param_at-append ps qs (n - 1))

param_at_last : (ps : List Param) (p : Param) → param_at (ps ++ (p ∷ [])) (length ps + 1) ≡ some p
param_at_last [] p = refl
param_at_last (q ∷ ps) p = ground (arith, param_at_last ps p)

all_hold-append :
    (r : AuditRow) (ps qs : List Param) (cs : List Condition)
    → All (λ x. (1 ≤ x.index) × (x.index ≤ length ps)) cs
    → all_hold r (ps ++ qs) cs ≡ all_hold r ps cs
unfolding all_hold
all_hold-append r ps qs [] h = refl
all_hold-append r ps qs (c ∷ cs) h =
    rw (param_at-append ps qs c.index h.0.0 h.0.1, all_hold-append r ps qs cs h.1) refl

all_hold_snoc :
    (r : AuditRow) (ps : List Param) (cs : List Condition) (c : Condition)
    → all_hold r ps (cs ++ (c ∷ [])) ≡ (all_hold r ps cs && holds r ps c)
unfolding all_hold
all_hold_snoc r ps [] c = ground arith
all_hold_snoc r ps (x ∷ xs) c = ground (arith, all_hold_snoc r ps xs c)

module _ (r : AuditRow) where
  -- the rows that a clause lets through
  abbrev pub admits : Clause → Bool
  admits c = all_hold r c.params c.conditions

  -- A condition is added: the numbers stay in range, and the rows are those that meet it besides.
  abbrev Adds : Clause → Clause → Bool → Type 0
  Adds c d b = Numbered d × (admits d ≡ (admits c && b))

  Numbered-more :
      (ps qs : List Param) (cs : List Condition)
      → All (λ x. (1 ≤ x.index) × (x.index ≤ length ps)) cs
      → All (λ x. (1 ≤ x.index) × (x.index ≤ length (ps ++ qs))) cs
  Numbered-more ps qs [] h = tt
  Numbered-more ps qs (c ∷ cs) h =
      ((h.0.0, omega (arith, h.0.1, length-append ps qs)), Numbered-more ps qs cs h.1)

  All-snoc :
      (P : Condition → Type 0) (cs : List Condition) (c : Condition)
      → All P cs
      → P c
      → All P (cs ++ (c ∷ []))
  All-snoc P [] c h p = (p, tt)
  All-snoc P (x ∷ xs) c h p = (h.0, All-snoc P xs c h.1 p)

  add_condition-Adds :
      (column operator : String) (v : Param) (c : Clause)
      → Numbered c
      → Adds c (add_condition column operator v c) (compares operator (column_of r column) (some v))
  unfolding add_condition holds
  add_condition-Adds column operator v c n = (
    All-snoc _ c.conditions _ (Numbered-more c.params (v ∷ []) c.conditions n)
        (omega arith, omega (arith, length-append c.params (v ∷ []))),
    rw
        (
          all_hold_snoc r (c.params ++ (v ∷ [])) c.conditions
              (record { column = column; operator = operator; index = length c.params + 1 }),
          all_hold-append r c.params (v ∷ []) c.conditions n,
          param_at_last c.params v,
        )
        refl,
  )

  add_text-Adds :
      (column value : String) (o : Option String) (c : Clause)
      → column_of r column ≡ some (text value)
      → Numbered c
      → Adds c (add_text column o c) (text_matches o value)
  unfolding add_text
  add_text-Adds column value none c e n = (n, ground arith)
  add_text-Adds column value (some s) c e n =
      ground (arith, add_condition-Adds column "=" (text s) c n)

  add_since-Adds :
      (o : Option ℤ) (c : Clause)
      → Numbered c
      → Adds c (add_time ">=" o c) (since_matches o r.created_at)
  unfolding add_time
  add_since-Adds none c n = (n, ground arith)
  add_since-Adds (some t) c n = add_condition-Adds "created_at" ">=" (time t) c n

  add_until-Adds :
      (o : Option ℤ) (c : Clause)
      → Numbered c
      → Adds c (add_time "<=" o c) (until_matches o r.created_at)
  unfolding add_time
  add_until-Adds none c n = (n, ground arith)
  add_until-Adds (some t) c n = add_condition-Adds "created_at" "<=" (time t) c n

  all_five :
      (x1 x2 x3 x4 x5 a b c d e : Bool)
      → x1 ≡ (true && a)
      → x2 ≡ (x1 && b)
      → x3 ≡ (x2 && c)
      → x4 ≡ (x3 && d)
      → x5 ≡ (x4 && e)
      → x5 ≡ (a && (b && (c && (d && e))))
  all_five x1 x2 x3 x4 x5 a b c d e h1 h2 h3 h4 h5 = ground arith

  collected :
      (f : AuditFilters) → Numbered (collect_filters f) × (admits (collect_filters f) ≡ matches f r)
  unfolding collect_filters all_hold
  collected f =
      let c0 : Clause = record { conditions = []; params = [] } in
      let c1 = add_text "agent_id" f.agent_id c0 in
      let c2 = add_text "tool_name" f.tool c1 in
      let c3 = add_text "result_status" f.result_status c2 in
      let c4 = add_time ">=" f.since c3 in
      let (n1, a1) = add_text-Adds "agent_id" r.agent_id f.agent_id c0 refl tt in
      let (n2, a2) = add_text-Adds "tool_name" r.tool_name f.tool c1 refl n1 in
      let (n3, a3) = add_text-Adds "result_status" r.result_status f.result_status c2 refl n2 in
      let (n4, a4) = add_since-Adds f.since c3 n3 in
      let (n5, a5) = add_until-Adds f.until c4 n4 in
      (n5, all_five _ _ _ _ _ _ _ _ _ _ a1 a2 a3 a4 a5)

-- Whatever filters are asked for, the conditions that are built, with the parameters that are bound, let
-- through exactly the rows that meet each filter that is given, where a text filter that is empty counts as
-- not given.
pub collect_filters-matches :
    (f : AuditFilters) (r : AuditRow)
    → all_hold r (collect_filters f).params (collect_filters f).conditions ≡ matches f r
collect_filters-matches f r = (collected r f).1
