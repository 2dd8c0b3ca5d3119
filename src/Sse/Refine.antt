-- ===== src/Sse/Refine.antt =====
-- The operations of app/sse_hub.py do what the hub promises.
use mcp_control_plane.Prelude.{
  ℕ, ◌≤◌, String, ◌≡◌, ◌≢◌, refl, ap, sym, ◌∙◌, true, Option, none, some, List, [], ◌∷◌, ◌++◌,
  arith, eq_iff, nat_eq, ◌==◌, length, inl, inr, Bool-cases, length-append,
}
use mcp_control_plane.Value.{Value}
use mcp_control_plane.Sse.Hub.{
  put_all, took, Hub, empty_hub, lookup, queues_of, subscribe, publish, send_next,
}
use mcp_control_plane.Sse.Spec.{
  Connection, Connections, no_connections, opened, announced, extended, due, progressed, served,
}
use mcp_control_plane.Sse.Dicts.{Filled, queues_of-assign, assign-Filled}
use mcp_control_plane.Sse.Queues.{
  once, count, count-append, put_all-none, put_all-one, drop, drop-append, took-drop, advanced-le,
}

-- how often the queue of a connection is in the list of an agent
abbrev pub listings : String → Option Connection → ℕ
listings agent none = 0
listings agent (some c) = once (c.agent == agent)

-- A queue holds the events of its connection that were not sent yet.
abbrev pub Pending : Option Connection → List Value → Type 0
Pending none held = Unit
Pending (some c) held = (held ≡ drop c.sent c.history) × (c.sent ≤ length c.history)

-- The hub stands for the open connections: a queue is in the list of the agent of its connection, once, and
-- in no other; it holds what is still to be sent; no agent without a connection is kept; and the queues that
-- are still to be made are no connection's.
pub record Represents (hub : Hub) (cs : Connections) : Type 0 where
  pub lists :
      (agent : String) (q : ℕ) → count q (queues_of hub.subscribers agent) ≡ listings agent (cs q)
  pub holds : (q : ℕ) → Pending (cs q) (hub.queues q)
  pub filled : Filled hub.subscribers
  pub fresh : (q : ℕ) → hub.made ≤ q → cs q ≡ none

pub empty_hub-Represents : Represents empty_hub no_connections
unfolding queues_of lookup
empty_hub-Represents = record {
  lists = λ agent q. refl;
  holds = λ q. tt;
  filled = tt;
  fresh = λ q h. refl;
}

snoc_filled : (qs : List ℕ) (q : ℕ) → qs ++ (q ∷ []) ≢ []
snoc_filled [] q e = cc
snoc_filled (p ∷ qs) q e = cc

kept_listed :
    (agent : String) (event : Value) (other : String) (o : Option Connection)
    → listings other o ≡ listings other (extended agent event o)
kept_listed agent event other none = refl
kept_listed agent event other (some c) = ground arith

-- A connection of the agent, and no other, has the event put on its queue.
put_held :
    (agent : String) (event : Value) (qs : List ℕ) (held : ℕ → List Value) (q : ℕ)
    (o : Option Connection)
    → count q qs ≡ listings agent o
    → Pending o (held q)
    → Pending (extended agent event o) (put_all qs event held q)
put_held agent event qs held q none k p = tt
put_held agent event qs held q (some c) k (p, n) = elim (Bool-cases (c.agent == agent)) [
  | inl e ↦
      rw (e, put_all-one qs event held q (ground (arith, e, k)), p)
        (
          sym (drop-append c.sent c.history event n),
          omega (arith, n, length-append c.history (event ∷ [])),
        )
  | inr e ↦ rw (e, put_all-none qs event held q (ground (arith, e, k))) (p, n)
]

module _ (hub : Hub) (cs : Connections) (r : Represents hub cs) where
  subscribe-lists :
      (agent other : String) (q : ℕ)
      → count q (queues_of (subscribe agent hub).1.subscribers other)
        ≡ listings other (opened hub.made agent cs q)
  unfolding subscribe
  subscribe-lists agent other q =
      let at =
        queues_of-assign hub.subscribers agent (queues_of hub.subscribers agent ++ (hub.made ∷ []))
          other in
      let more = count-append q (queues_of hub.subscribers agent) hub.made in
      let same = ap (λ d. count q d) at in
      elim (Bool-cases (nat_eq q hub.made)) [
        | inl e ↦
            let none_yet = r.fresh q (ground (arith, e)) in
            ground (arith, e, same, more, none_yet, r.lists agent q, r.lists other q)
        | inr e ↦
            ground (arith, e, same, more, r.lists agent q, r.lists other q, eq_iff agent other)
      ]

  subscribe-holds :
      (agent : String) (q : ℕ)
      → Pending (opened hub.made agent cs q) ((subscribe agent hub).1.queues q)
  unfolding subscribe
  subscribe-holds agent q = elim (Bool-cases (nat_eq q hub.made)) [
    | inl e ↦ rw e (refl, omega arith)
    | inr e ↦ rw e (r.holds q)
  ]

  pub subscribe-Represents :
      (agent : String)
      → Represents (subscribe agent hub).1 (opened (subscribe agent hub).0 agent cs)
  unfolding subscribe
  subscribe-Represents agent = record {
    lists = subscribe-lists agent;
    holds = subscribe-holds agent;
    filled = assign-Filled hub.subscribers agent _ r.filled (snoc_filled _ hub.made);
    fresh = λ q h. ground (arith, h, r.fresh q (omega (arith, h)));
  }

  publish-lists :
      (agent : String) (event : Value) (other : String) (q : ℕ)
      → count q (queues_of hub.subscribers other) ≡ listings other (announced agent event cs q)
  publish-lists agent event other q = r.lists other q ∙ kept_listed agent event other (cs q)

  pub publish-Represents :
      (agent : String) (event : Value)
      → Represents (publish agent event hub) (announced agent event cs)
  unfolding publish
  publish-Represents agent event = record {
    lists = publish-lists agent event;
    holds = λ q.
        put_held agent event (queues_of hub.subscribers agent) hub.queues q (cs q) (r.lists agent q)
          (r.holds q);
    filled = r.filled;
    fresh = λ q h. rw (r.fresh q h) refl;
  }

  next_held :
      (q : ℕ) (o : Option Connection)
      → Pending o (hub.queues q)
      → Pending (progressed o) (took (hub.queues q)).1
  next_held q none p = tt
  next_held q (some c) (p, n) =
      rw (p, took-drop c.sent c.history) (refl, advanced-le c.sent c.history n)

  progressed-listings :
      (agent : String) (o : Option Connection) → listings agent o ≡ listings agent (progressed o)
  progressed-listings agent none = refl
  progressed-listings agent (some c) = refl

  pub send_next-Represents : (q : ℕ) → Represents (send_next q hub).1 (served q cs)
  unfolding send_next
  send_next-Represents q = record {
    lists = λ agent p. elim (Bool-cases (nat_eq p q)) [
      | inl e ↦ rw e (r.lists agent p ∙ progressed-listings agent (cs p))
      | inr e ↦ rw e (r.lists agent p)
    ];
    holds = λ p. elim (Bool-cases (nat_eq p q)) [
      | inl e ↦
          let same : p ≡ q = ground (arith, e) in
          let itself : nat_eq q q ≡ true = ground arith in
          rw (same, itself) (next_held q (cs q) (r.holds q))
      | inr e ↦ rw e (r.holds p)
    ];
    filled = r.filled;
    fresh = λ p h. ground (arith, r.fresh p h);
  }

  pub send_next-due : (q : ℕ) (c : Connection) → cs q ≡ some c → (send_next q hub).0 ≡ due (some c)
  unfolding send_next
  send_next-due q c e =
      let (p, n) : Pending (some c) (hub.queues q) = rw e at (r.holds q) in
      rw (p, took-drop c.sent c.history) refl
