-- ===== src/Sse/Runs.antt =====
-- Every run of the hub is as it is promised.
use mcp_control_plane.Prelude.{
  ℕ, suc, String, ◌≡◌, refl, ap, sym, ◌∙◌, Option, none, some, List, [], ◌∷◌, arith, eq_iff, inl,
  inr, Bool-cases, ◌==◌,
}
use mcp_control_plane.Value.{Value}
use mcp_control_plane.World.{Result, ok, raise}
use mcp_control_plane.Sse.Hub.{
  SseMessage, unsubscribe, Hub, empty_hub, HubStep, opens, closes, publishes, sends, Messages,
  prepend, hub_step, run_hub, subscribe, publish, send_next,
}
use mcp_control_plane.Sse.Spec.{
  opened, Connection, Served, nothing_served, promised_step, promised, promised_after, closing,
  sending, closed, with_connections,
}
use mcp_control_plane.Sse.Closing.{unsubscribe-Represents}
use mcp_control_plane.Sse.Refine.{
  Represents, empty_hub-Represents, subscribe-Represents, publish-Represents, send_next-Represents,
  send_next-due,
}

-- The hub stands for what was served, and numbers the connections alike.
record Matches (hub : Hub) (s : Served) : Type 0 where
  represents : Represents hub s.connections
  numbers : hub.made ≡ s.opened_so_far

-- Where the step or the run is one that is promised for, the hub does not raise, sends what is promised, and
-- matches again.
abbrev KeepsPromise : Result (Hub × Messages) → Option (Served × Messages) → Type 0
KeepsPromise out none = Unit
KeepsPromise out (some after) = (hub : Hub) × (out ≡ ok (hub, after.1)) × Matches hub after.0

unsubscribe-made :
    (agent : String) (q : ℕ) (hub hub' : Hub)
    → unsubscribe agent q hub ≡ ok hub'
    → hub'.made ≡ hub.made
unfolding unsubscribe
unsubscribe-made agent q hub hub' e = ground (arith, e)

module _ (hub : Hub) (s : Served) (m : Matches hub s) where
  open_number :
      (agent : String) (n : ℕ)
      → hub.made ≡ n
      → Represents (subscribe agent hub).1 (opened n agent s.connections)
  unfolding subscribe
  open_number agent n e = rw (sym e) (subscribe-Represents hub s.connections m.represents agent)

  opens-keeps :
      (agent : String) → KeepsPromise (hub_step (opens agent) hub) (promised_step (opens agent) s)
  unfolding hub_step subscribe
  opens-keeps agent = (
    (subscribe agent hub).1,
    refl,
    record {
      represents = open_number agent s.opened_so_far m.numbers;
      numbers = ap suc (m.numbers);
    },
  )

  publishes-keeps :
      (agent : String) (event : Value)
      → KeepsPromise
          (hub_step (publishes agent event) hub)
          (promised_step (publishes agent event) s)
  unfolding hub_step publish
  publishes-keeps agent event = (
    publish agent event hub,
    refl,
    record {
      represents = publish-Represents hub s.connections m.represents agent event;
      numbers = m.numbers;
    },
  )

  sends-keeps :
      (q : ℕ) (o : Option Connection)
      → s.connections q ≡ o
      → KeepsPromise (hub_step (sends q) hub) (sending o q s)
  unfolding hub_step send_next
  sends-keeps q none e = tt
  sends-keeps q (some c) e = (
    (send_next q hub).1,
    ap (λ (m : SseMessage). ok ((send_next q hub).1, (q, m) ∷ []))
        (send_next-due hub s.connections m.represents q c e),
    record {
      represents = send_next-Represents hub s.connections m.represents q;
      numbers = m.numbers;
    },
  )

  closed-keeps :
      (agent : String) (q : ℕ) (hub' : Hub)
      → unsubscribe agent q hub ≡ ok hub'
      → Represents hub' (closed q s.connections)
      → KeepsPromise
          (hub_step (closes agent q) hub)
          (some (with_connections (closed q s.connections) s, []))
  unfolding hub_step
  closed-keeps agent q hub' u r = (
    hub',
    rw u refl,
    record { represents = r; numbers = unsubscribe-made agent q hub hub' u ∙ m.numbers },
  )

  closes-keeps :
      (agent : String) (q : ℕ) (o : Option Connection)
      → s.connections q ≡ o
      → KeepsPromise (hub_step (closes agent q) hub) (closing o agent q s)
  unfolding hub_step
  closes-keeps agent q none e = tt
  closes-keeps agent q (some c) e = elim (Bool-cases (c.agent == agent)) [
    | inr f ↦ rw f tt
    | inl f ↦
        let same : c.agent ≡ agent = ground (arith, f, eq_iff c.agent agent) in
        let (hub', u, r) = unsubscribe-Represents hub s.connections m.represents q c e in
        let u' : unsubscribe agent q hub ≡ ok hub' = cc in rw f (closed-keeps agent q hub' u' r)
  ]

  step-keeps : (step : HubStep) → KeepsPromise (hub_step step hub) (promised_step step s)
  step-keeps (opens agent) = opens-keeps agent
  step-keeps (closes agent q) = closes-keeps agent q (s.connections q) refl
  step-keeps (publishes agent event) = publishes-keeps agent event
  step-keeps (sends q) = sends-keeps q (s.connections q) refl

prepend-keeps :
    (before : Messages) (out : Result (Hub × Messages)) (p : Option (Served × Messages))
    → KeepsPromise out p
    → KeepsPromise (prepend before out) (promised_after before p)
prepend-keeps before out none k = tt
prepend-keeps before out (some after) (hub, e, m) = (hub, rw e refl, m)

-- behind a step, for the promise of the further ones
after_step :
    (out : Result (Hub × Messages)) (p : Option (Served × Messages)) (steps : List HubStep)
    → KeepsPromise out p
    → ((hub : Hub) (s : Served)
        → Matches hub s
        → KeepsPromise (run_hub steps hub) (promised steps s))
    → KeepsPromise
        (elim out [ raise e ↦ raise e | ok o ↦ prepend o.1 (run_hub steps o.0) ])
        (elim p [ none ↦ none | some o ↦ promised_after o.1 (promised steps o.0) ])
after_step out none steps k ih = tt
after_step out (some after) steps (hub, e, m) ih =
    rw e (prepend-keeps after.1 (run_hub steps hub) (promised steps after.0) (ih hub after.0 m))

run-keeps :
    (steps : List HubStep) (hub : Hub) (s : Served)
    → Matches hub s
    → KeepsPromise (run_hub steps hub) (promised steps s)
unfolding run_hub promised
run-keeps [] hub s m = (hub, refl, m)
run-keeps (step ∷ steps) hub s m =
    after_step (hub_step step hub) (promised_step step s) steps (step-keeps hub s m step)
      (run-keeps steps)

-- From no connection on, every sequence of openings, closings, publications and rounds of the connections'
-- loops in which a connection closes and goes round only while it is open runs without an exception, sends
-- exactly the messages that are promised, each event that is published to a connection's agent while it is
-- open, once and in order, and a heartbeat where there is none, and leaves a hub that represents the open
-- connections: no queue of a closed one and no agent without an open one is kept.
pub run_hub-refines :
    (steps : List HubStep) (s : Served) (messages : Messages)
    → promised steps nothing_served ≡ some (s, messages)
    → (hub : Hub) × (run_hub steps empty_hub ≡ ok (hub, messages)) × Represents hub s.connections
run_hub-refines steps s messages e =
    let kept : KeepsPromise (run_hub steps empty_hub) (some (s, messages)) = rw e at (
      run-keeps steps empty_hub nothing_served
        (record { represents = empty_hub-Represents; numbers = refl })) in
    (kept.0, kept.1, kept.2.represents)
