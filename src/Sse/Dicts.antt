-- ===== src/Sse/Dicts.antt =====
-- The dict of the subscribers: what a key reads behind an assignment and a deletion, and that no entry is
-- empty.
use mcp_control_plane.Prelude.{
  inl, inr, Bool-cases, ℕ, String, ◌≡◌, ◌≢◌, List, [], ◌∷◌, arith, eq_iff, All, ◌==◌, if◌then◌else◌,
}
use mcp_control_plane.Sse.Hub.{Subscribers, lookup, queues_of, assign, delete, without}

pub queues_of-assign :
    (d : Subscribers) (a : String) (qs : List ℕ) (b : String)
    → queues_of (assign d a qs) b ≡ (if a == b then qs else queues_of d b)
unfolding queues_of lookup assign
queues_of-assign [] a qs b = ground arith
queues_of-assign ((k, old) ∷ d) a qs b =
    ground (arith, queues_of-assign d a qs b, eq_iff k a, eq_iff k b, eq_iff a b)

queues_of-delete :
    (d : Subscribers) (a b : String)
    → queues_of (delete d a) b ≡ (if a == b then [] else queues_of d b)
unfolding queues_of lookup delete
queues_of-delete [] a b = ground arith
queues_of-delete ((k, old) ∷ d) a b =
    ground (arith, queues_of-delete d a b, eq_iff k a, eq_iff k b, eq_iff a b)

-- No agent is kept without a queue.
abbrev pub Filled : Subscribers → Type 0
Filled = All (λ (e : String × List ℕ). e.1 ≢ [])

pub assign-Filled :
    (d : Subscribers) (a : String) (qs : List ℕ) → Filled d → qs ≢ [] → Filled (assign d a qs)
unfolding assign
assign-Filled [] a qs h n = (n, tt)
assign-Filled ((k, old) ∷ d) a qs (h, hs) n = elim (Bool-cases (k == a)) [
  | inl e ↦ rw e (n, hs)
  | inr e ↦ rw e (h, assign-Filled d a qs hs n)
]

delete-Filled : (d : Subscribers) (a : String) → Filled d → Filled (delete d a)
unfolding delete
delete-Filled [] a h = tt
delete-Filled ((k, old) ∷ d) a (h, hs) = elim (Bool-cases (k == a)) [
  | inl e ↦ rw e (delete-Filled d a hs)
  | inr e ↦ rw e (h, delete-Filled d a hs)
]

pub queues_of-without :
    (d : Subscribers) (a : String) (left : List ℕ) (b : String)
    → queues_of (without d a left) b ≡ (if a == b then left else queues_of d b)
queues_of-without d a [] b = queues_of-delete d a b
queues_of-without d a (q ∷ qs) b = queues_of-assign d a (q ∷ qs) b

pub without-Filled :
    (d : Subscribers) (a : String) (left : List ℕ) → Filled d → Filled (without d a left)
without-Filled d a [] h = delete-Filled d a h
without-Filled d a (q ∷ qs) h = assign-Filled d a (q ∷ qs) h (λ e. cc)
