-- ===== src/Sse/Hub.antt =====
-- app/sse_hub.py, and the loop of `GET /mcp/sse` in app/main.py. An `asyncio.Queue()` has no bound, so that a
-- `put` never waits and `publish` is one step.
use mcp_control_plane.Prelude.{
  ℕ, suc, String, Option, none, some, List, [], ◌∷◌, ◌++◌, nat_eq, ◌==◌, if◌then◌else◌,
}
use mcp_control_plane.Value.{Value}
use mcp_control_plane.World.{key_error, value_error, Result, ok, raise}

-- The dict of the subscribers, and the heap of the queues: what each holds, and how many were made. A queue
-- is the number of its making.
abbrev pub Subscribers : Type 0
Subscribers = List (String × List ℕ)

pub record Hub : Type 0 where
  pub subscribers : Subscribers
  pub queues : ℕ → List Value
  pub made : ℕ

abbrev pub empty_hub : Hub
empty_hub = record { subscribers = []; queues = λ q. []; made = 0 }

-- `_subscribers.get(agent_id)`
unfoldable pub lookup : Subscribers → String → Option (List ℕ)
lookup [] agent_id = none
lookup ((k, qs) ∷ d) agent_id = if k == agent_id then some qs else lookup d agent_id

abbrev or_empty : Option (List ℕ) → List ℕ
or_empty none = []
or_empty (some qs) = qs

-- `_subscribers.get(agent_id, [])`
unfoldable pub queues_of : Subscribers → String → List ℕ
unfolding lookup
queues_of d agent_id = or_empty (lookup d agent_id)

-- `_subscribers[agent_id] = qs`
unfoldable pub assign : Subscribers → String → List ℕ → Subscribers
assign [] agent_id qs = (agent_id, qs) ∷ []
assign ((k, old) ∷ d) agent_id qs =
    let rest = assign d agent_id qs in if k == agent_id then (k, qs) ∷ d else (k, old) ∷ rest

-- `del _subscribers[agent_id]`
unfoldable pub delete : Subscribers → String → Subscribers
delete [] agent_id = []
delete ((k, qs) ∷ d) agent_id =
    let rest = delete d agent_id in if k == agent_id then rest else (k, qs) ∷ rest

-- The entry of `subscribe`: the new queue, and the hub behind it.
unfoldable pub subscribe : String → Hub → ℕ × Hub
unfolding assign queues_of
subscribe agent_id hub = (
  hub.made,
  record {
    subscribers =
        assign hub.subscribers agent_id (queues_of hub.subscribers agent_id ++ (hub.made ∷ []));
    queues = λ q. if nat_eq q hub.made then [] else hub.queues q;
    made = suc hub.made;
  },
)

-- `list.remove(q)`, which raises ValueError if there is none
unfoldable pub remove : ℕ → List ℕ → Option (List ℕ)
remove q [] = none
remove q (p ∷ qs) =
    let rest = remove q qs in
    if nat_eq p q then some qs else elim rest [ none ↦ none | some left ↦ some (p ∷ left) ]

abbrev pub without : Subscribers → String → List ℕ → Subscribers
without d agent_id [] = delete d agent_id
without d agent_id (q ∷ qs) = assign d agent_id (q ∷ qs)

-- The `finally` of `subscribe`.
unfoldable pub unsubscribe : String → ℕ → Hub → Result Hub
unfolding lookup remove assign delete
unsubscribe agent_id q hub = elim (lookup hub.subscribers agent_id) [
  | none ↦ raise key_error
  | some qs ↦ elim (remove q qs) [
    | none ↦ raise value_error
    | some left ↦ ok (record {
      subscribers = without hub.subscribers agent_id left;
      queues = hub.queues;
      made = hub.made;
    })
  ]
]

-- `queue.put(event)` on each of the queues
unfoldable pub put_all : List ℕ → Value → (ℕ → List Value) → ℕ → List Value
put_all [] event held = held
put_all (p ∷ qs) event held =
    put_all qs event (λ q. if nat_eq q p then held q ++ (event ∷ []) else held q)

unfoldable pub publish : String → Value → Hub → Hub
unfolding put_all queues_of
publish agent_id event hub = record {
  subscribers = hub.subscribers;
  queues = put_all (queues_of hub.subscribers agent_id) event hub.queues;
  made = hub.made;
}

-- What a connection is sent: an event, or a heartbeat where none comes in time.
pub data SseMessage : Type 0 where
  approval_result : Value → SseMessage
  heartbeat : SseMessage

abbrev pub took : List Value → SseMessage × List Value
took [] = (heartbeat, [])
took (event ∷ events) = (approval_result event, events)

-- One round of the loop of `GET /mcp/sse` on its queue.
unfoldable pub send_next : ℕ → Hub → SseMessage × Hub
send_next q hub = (
  (took (hub.queues q)).0,
  record {
    subscribers = hub.subscribers;
    queues = λ p. if nat_eq p q then (took (hub.queues q)).1 else hub.queues p;
    made = hub.made;
  },
)

-- What happens to the hub: a connection opens or closes, an event is published, a connection's loop goes
-- round.
pub data HubStep : Type 0 where
  opens : String → HubStep
  closes : String → ℕ → HubStep
  publishes : String → Value → HubStep
  sends : ℕ → HubStep

abbrev pub Messages : Type 0
Messages = List (ℕ × SseMessage)

abbrev changed : Result Hub → Result (Hub × Messages)
changed (raise e) = raise e
changed (ok hub) = ok (hub, [])

unfoldable pub hub_step : HubStep → Hub → Result (Hub × Messages)
unfolding subscribe unsubscribe publish send_next
hub_step (opens agent_id) hub = ok ((subscribe agent_id hub).1, [])
hub_step (closes agent_id q) hub = changed (unsubscribe agent_id q hub)
hub_step (publishes agent_id event) hub = ok (publish agent_id event hub, [])
hub_step (sends q) hub = let (message, next) = send_next q hub in ok (next, (q, message) ∷ [])

abbrev pub prepend : Messages → Result (Hub × Messages) → Result (Hub × Messages)
prepend before (raise e) = raise e
prepend before (ok rest) = ok (rest.0, before ++ rest.1)

-- A sequence of steps, and all that the connections are sent, in the order of sending.
unfoldable pub run_hub : List HubStep → Hub → Result (Hub × Messages)
unfolding hub_step
run_hub [] hub = ok (hub, [])
run_hub (s ∷ steps) hub = elim (hub_step s hub) [
  | raise e ↦ raise e
  | ok out ↦ prepend out.1 (run_hub steps out.0)
]
