-- ===== src/Sse/Closing.antt =====
-- app/sse_hub.py: the `finally` of `subscribe` does what the hub promises.
use mcp_control_plane.Prelude.{
  ℕ, ◌+◌, String, ◌≡◌, refl, ap, sym, ◌∙◌, true, some, List, arith, eq_iff, nat_eq, inl, inr,
  Bool-cases, Option-cases,
}
use mcp_control_plane.World.{ok}
use mcp_control_plane.Sse.Hub.{without, remove, Hub, lookup, queues_of, unsubscribe}
use mcp_control_plane.Sse.Spec.{Connection, Connections, closed}
use mcp_control_plane.Sse.Dicts.{queues_of-without, without-Filled}
use mcp_control_plane.Sse.Queues.{once, count, remove-count}
use mcp_control_plane.Sse.Refine.{Represents, listings}

module _ (hub : Hub) (cs : Connections) (r : Represents hub cs) where
  module _ (q : ℕ) (c : Connection) (e : cs q ≡ some c) where
    own_count : count q (queues_of hub.subscribers c.agent) ≡ 1
    own_count = r.lists c.agent q ∙ ap (listings c.agent) e ∙ ground (arith, eq_iff c.agent c.agent)

    -- the hub in which the agent is left with these queues
    behind : List ℕ → Hub
    behind left = record {
      subscribers = without hub.subscribers c.agent left;
      queues = hub.queues;
      made = hub.made;
    }

    unsubscribed :
        (qs left : List ℕ)
        → lookup hub.subscribers c.agent ≡ some qs
        → remove q qs ≡ some left
        → unsubscribe c.agent q hub ≡ ok (behind left)
    unfolding unsubscribe behind
    unsubscribed qs left l f = ground (arith, l, f)

    module _ (qs left : List ℕ) (l : queues_of hub.subscribers c.agent ≡ qs)
        (k : (p : ℕ) → count p qs ≡ once (nat_eq q p) + count p left) where
      left-lists :
          (other : String) (p : ℕ)
          → count p (queues_of (without hub.subscribers c.agent left) other)
            ≡ listings other (closed q cs p)
      left-lists other p =
          let at = ap (count p) (queues_of-without hub.subscribers c.agent left other) in
          let own : count p qs ≡ listings c.agent (cs p) =
            ap (count p) (sym l) ∙ r.lists c.agent p in
          elim (Bool-cases (nat_eq p q)) [
            | inl same ↦
                let is : p ≡ q = ground (arith, same) in
                let itself : nat_eq q q ≡ true = ground arith in
                let others = ap (listings other) e in
                ground (
                  arith,
                  is,
                  itself,
                  at,
                  ap (count q) (sym l),
                  own_count,
                  k q,
                  r.lists other q,
                  others,
                  eq_iff c.agent other,
                )
            | inr other_queue ↦
                ground (arith, other_queue, at, own, k p, r.lists other p, eq_iff c.agent other)
          ]

      left-Represents : Represents (behind left) (closed q cs)
      unfolding behind
      left-Represents = record {
        lists = left-lists;
        holds = λ p. elim (Bool-cases (nat_eq p q)) [ inl s ↦ rw s tt | inr s ↦ rw s (r.holds p) ];
        filled = without-Filled hub.subscribers c.agent left r.filled;
        fresh = λ p h. ground (arith, r.fresh p h);
      }

    pub unsubscribe-Represents :
        (hub' : Hub) × (unsubscribe c.agent q hub ≡ ok hub') × Represents hub' (closed q cs)
    unfolding queues_of
    unsubscribe-Represents = elim (Option-cases (lookup hub.subscribers c.agent)) [
      | inl l ↦ absurd (ground (arith, l, own_count))
      | inr (qs, l) ↦
          let own : count q qs ≡ 1 = rw l at own_count in
          let (left, f, k) = remove-count q qs (omega (arith, own)) in
          (behind left, unsubscribed qs left l f, left-Represents qs left (rw l refl) k)
    ]
