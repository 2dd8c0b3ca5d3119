-- ===== src/Tools/Bounded.antt =====
-- app/tools/config.py and the output of `exec_into_pod`: what is cut to its bounds.
use Prim.Native.String
use Prim.Native.String.append
use text.Mathlib.TextLemmas.{append-nil}
use mcp_control_plane.Prelude.{
  ℕ, zero, suc, ◌*◌, ◌≤◌, String, ◌≡◌, refl, ap, ◌∙◌, ◌<◌, ◌≢◌, ◌↔◌, Bool, true, false, Option,
  none, some, arith, ltb, inl, inr, Option-cases, Bool-cases, ltb→lt,
}
use mcp_control_plane.Value.{ℤ, pos, negsuc, str, bool, Fields}
use mcp_control_plane.Clock.{second}
use mcp_control_plane.Tools.Text.{text_length, take_chars}
use mcp_control_plane.Tools.Backend.{Backends, Seconds, finite, infinity, minus_infinity, nan}
use mcp_control_plane.Tools.Config.{clamped, get_executor_timeout, less}
use mcp_control_plane.Tools.Pods.{exec_result}
use mcp_control_plane.Tools.Footprint.{entry}

abbrev Bounded : Seconds → Type 0
Bounded s = (n : ℕ) × (s ≡ finite (pos n)) × (second ≤ n) × (n ≤ 30 * second)

finite-Bounded : (z : ℤ) → Bounded (clamped (finite z))
unfolding clamped less
finite-Bounded (pos n) = elim (Bool-cases (ltb (30 * second) n)) [
  | inl e ↦ (30 * second, ground (arith, e), omega arith, omega arith)
  | inr e ↦ elim (Bool-cases (ltb second n)) [
    | inl f ↦ (n, ground (arith, e, f), ground (arith, f), ground (arith, e))
    | inr f ↦ (second, ground (arith, e, f), omega arith, omega arith)
  ]
]
finite-Bounded (negsuc n) = (second, ground arith, omega arith, omega arith)

clamped-Bounded : (s : Seconds) → Bounded (clamped s)
unfolding clamped less
clamped-Bounded (finite z) = finite-Bounded z
clamped-Bounded infinity = (30 * second, refl, omega arith, omega arith)
clamped-Bounded minus_infinity = (second, refl, omega arith, omega arith)
clamped-Bounded nan = (second, refl, omega arith, omega arith)

read-Bounded :
    (b : Backends) (raw : String) (o : Option Seconds)
    → b.executor_timeout_seconds ≡ some raw
    → b.float_of raw ≡ o
    → Bounded (get_executor_timeout b)
unfolding get_executor_timeout
read-Bounded b raw none e f = rw (e, f) (10 * second, refl, omega arith, omega arith)
read-Bounded b raw (some v) e f = rw (e, f) (clamped-Bounded v)

-- Whatever the setting is, missing, no number, an infinity or not a number included, the timeout of a
-- downstream call is a finite number of seconds from 1 to 30.
pub get_executor_timeout-Bounded :
    (b : Backends)
    → (n : ℕ) × (get_executor_timeout b ≡ finite (pos n)) × (second ≤ n) × (n ≤ 30 * second)
unfolding get_executor_timeout
get_executor_timeout-Bounded b = elim (Option-cases (b.executor_timeout_seconds)) [
  | inl e ↦ rw e (10 * second, refl, omega arith, omega arith)
  | inr (raw, e) ↦ read-Bounded b raw (b.float_of raw) e refl
]

drop_chars : ℕ → String → String
drop_chars zero s = s
drop_chars (suc n) String.[] = ""
drop_chars (suc n) (String.◌∷◌ c s) = drop_chars n s

take-drop : (n : ℕ) (s : String) → String.◌++◌ (take_chars n s) (drop_chars n s) ≡ s
unfolding take_chars drop_chars
take-drop zero s = append.nil s
take-drop (suc n) String.[] = append.nil ""
take-drop (suc n) (String.◌∷◌ c s) =
    append.cons c (take_chars n s) (drop_chars n s) ∙ ap (String.◌∷◌ c) (take-drop n s)

something_left : (n : ℕ) (s : String) → n < text_length s → drop_chars n s ≢ ""
unfolding text_length drop_chars
something_left zero String.[] h = absurd (omega (arith, h))
something_left zero (String.◌∷◌ c s) h = λ e. cc
something_left (suc n) String.[] h = absurd (omega (arith, h))
something_left (suc n) (String.◌∷◌ c s) h = something_left n s (omega (arith, h))

text_length-take : (n : ℕ) (s : String) → text_length (take_chars n s) ≤ n
unfolding take_chars text_length
text_length-take zero s = ground arith
text_length-take (suc n) String.[] = ground arith
text_length-take (suc n) (String.◌∷◌ c s) = ground (arith, text_length-take n s)

full_length-take : (n : ℕ) (s : String) → n < text_length s → text_length (take_chars n s) ≡ n
unfolding take_chars text_length
full_length-take zero s h = ground arith
full_length-take (suc n) String.[] h = absurd (omega (arith, h))
full_length-take (suc n) (String.◌∷◌ c s) h =
    ground (arith, full_length-take n s (omega (arith, h)))

-- The output of a command comes back whole, or cut to its first 4000 characters exactly, and flagged as
-- truncated exactly if some of it is missing.
pub exec_result-output :
    (b : Backends) (arguments : Fields) (output : String) (now : ℕ)
    → (kept rest : String) × (cut : Bool) × (entry
          (some (exec_result b arguments output now))
          "output"
        ≡ some (str kept))
      × (entry (some (exec_result b arguments output now)) "output_truncated" ≡ some (bool cut))
      × (String.◌++◌ kept rest ≡ output)
      × (text_length kept ≤ 4000)
      × (cut ≡ true → text_length kept ≡ 4000)
      × ((cut ≡ true) ↔ (rest ≢ ""))
unfolding exec_result
exec_result-output b arguments output now = elim (Bool-cases (ltb 4000 (text_length output))) [
  | inl e ↦ (
    take_chars 4000 output,
    drop_chars 4000 output,
    true,
    rw e refl,
    rw e refl,
    take-drop 4000 output,
    text_length-take 4000 output,
    (λ h. full_length-take 4000 output (ltb→lt 4000 (text_length output) e)),
    ((λ h. something_left 4000 output (ltb→lt 4000 (text_length output) e)), λ h. refl),
  )
  | inr e ↦ (
    output,
    "",
    false,
    rw e refl,
    rw e refl,
    append-nil output,
    ground (arith, e),
    (λ h. absurd (ground (arith, h))),
    ((λ h. absurd (ground (arith, h))), λ h. absurd (h refl)),
  )
]
