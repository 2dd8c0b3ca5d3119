-- ===== src/Sse/Queues.antt =====
-- The lists of queues and what the queues hold.
use mcp_control_plane.Prelude.{
  ℕ, zero, suc, ◌+◌, ◌≤◌, ◌<◌, ◌≡◌, refl, ◌∙◌, Bool, false, Option, none, some, List, [], ◌∷◌, ◌++◌,
  arith, nat_eq, if◌then◌else◌, length, inl, inr, Bool-cases,
}
use mcp_control_plane.Value.{Value}
use mcp_control_plane.Sse.Hub.{SseMessage, took, remove, put_all}
use mcp_control_plane.Sse.Spec.{message_for, advanced, get_elem?}

abbrev pub once : Bool → ℕ
once b = if b then 1 else 0

-- how often a queue is in a list
abbrev pub count : ℕ → List ℕ → ℕ
count q [] = 0
count q (p ∷ qs) = once (nat_eq p q) + count q qs

pub count-append :
    (q : ℕ) (qs : List ℕ) (p : ℕ) → count q (qs ++ (p ∷ [])) ≡ count q qs + once (nat_eq p q)
count-append q [] p = omega arith
count-append q (r ∷ qs) p = omega (arith, count-append q qs p)

-- A queue that is in the list can be taken out of it, once.
pub remove-count :
    (q : ℕ) (qs : List ℕ)
    → 0 < count q qs
    → (left : List ℕ) × (remove q qs ≡ some left)
      × ((p : ℕ) → count p qs ≡ once (nat_eq q p) + count p left)
unfolding remove
remove-count q [] h = absurd (omega (arith, h))
remove-count q (r ∷ qs) h = elim (Bool-cases (nat_eq r q)) [
  | inl e ↦ (qs, rw e refl, λ p. ground (arith, e))
  | inr e ↦
      let (left, f, k) = remove-count q qs (ground (arith, e, h)) in
      (r ∷ left, rw (e, f) refl, λ p. ground (arith, k p))
]

pub put_all-none :
    (qs : List ℕ) (event : Value) (held : ℕ → List Value) (q : ℕ)
    → count q qs ≡ 0
    → put_all qs event held q ≡ held q
unfolding put_all
put_all-none [] event held q h = refl
put_all-none (p ∷ qs) event held q h =
    let e : nat_eq q p ≡ false = ground (arith, h) in
    put_all-none qs event (λ r. if nat_eq r p then held r ++ (event ∷ []) else held r) q
      (omega (arith, h))
    ∙ rw e refl

pub put_all-one :
    (qs : List ℕ) (event : Value) (held : ℕ → List Value) (q : ℕ)
    → count q qs ≡ 1
    → put_all qs event held q ≡ held q ++ (event ∷ [])
unfolding put_all
put_all-one [] event held q h = absurd (omega (arith, h))
put_all-one (p ∷ qs) event held q h =
    let step : ℕ → List Value = λ r. if nat_eq r p then held r ++ (event ∷ []) else held r in
    elim (Bool-cases (nat_eq q p)) [
      | inl e ↦ put_all-none qs event step q (ground (arith, e, h)) ∙ rw e refl
      | inr e ↦ put_all-one qs event step q (ground (arith, e, h)) ∙ rw e refl
    ]

abbrev pub drop : ℕ → List Value → List Value
drop zero vs = vs
drop (suc n) [] = []
drop (suc n) (v ∷ vs) = drop n vs

pub drop-append :
    (n : ℕ) (vs : List Value) (v : Value)
    → n ≤ length vs
    → drop n (vs ++ (v ∷ [])) ≡ drop n vs ++ (v ∷ [])
drop-append zero vs v h = refl
drop-append (suc n) [] v h = absurd (omega (arith, h))
drop-append (suc n) (w ∷ vs) v h = drop-append n vs v (omega (arith, h))

advanced-suc : (o : Option Value) (n : ℕ) → advanced o (suc n) ≡ suc (advanced o n)
advanced-suc none n = refl
advanced-suc (some v) n = refl

further_along :
    (o : Option Value) (n : ℕ) (v : Value) (vs : List Value)
    → ◌≡◌ {A = SseMessage × List Value}
        (message_for o, drop (advanced o n) vs)
        (message_for o, drop (advanced o (suc n)) (v ∷ vs))
further_along none n v vs = refl
further_along (some w) n v vs = refl

-- Taking from what is left takes the next element.
pub took-drop :
    (n : ℕ) (vs : List Value)
    → took (drop n vs) ≡ (message_for (get_elem? vs n), drop (advanced (get_elem? vs n) n) vs)
took-drop zero [] = refl
took-drop zero (v ∷ vs) = refl
took-drop (suc n) [] = refl
took-drop (suc n) (v ∷ vs) = took-drop n vs ∙ further_along (get_elem? vs n) n v vs

pub advanced-le :
    (n : ℕ) (vs : List Value) → n ≤ length vs → advanced (get_elem? vs n) n ≤ length vs
advanced-le zero [] h = omega arith
advanced-le zero (v ∷ vs) h = omega arith
advanced-le (suc n) [] h = absurd (omega (arith, h))
advanced-le (suc n) (v ∷ vs) h =
    ground (arith, advanced-le n vs (omega (arith, h)), h, advanced-suc (get_elem? vs n) n)
