-- ===== src/Sse/Spec.antt =====
-- What the hub promises: each open connection is sent the events that are published to its agent while it is
-- open, each once and in their order.
use mcp_control_plane.Prelude.{
  ℕ, zero, suc, String, Option, none, some, List, [], ◌∷◌, ◌++◌, nat_eq, ◌==◌, if◌then◌else◌,
}
use mcp_control_plane.Value.{Value}
use mcp_control_plane.Sse.Hub.{
  SseMessage, approval_result, heartbeat, HubStep, opens, closes, publishes, sends, Messages,
}

-- An open connection: its agent, all events published to the agent since it opened, and how many of them it
-- was sent.
pub record Connection : Type 0 where
  pub agent : String
  pub history : List Value
  pub sent : ℕ

abbrev pub Connections : Type 0
Connections = ℕ → Option Connection

abbrev pub no_connections : Connections
no_connections q = none

abbrev pub opened : ℕ → String → Connections → Connections
opened q agent cs p =
    if nat_eq p q then some (record { agent = agent; history = []; sent = 0 }) else cs p

abbrev pub closed : ℕ → Connections → Connections
closed q cs p = if nat_eq p q then none else cs p

-- behind an event that is published to an agent
abbrev pub extended : String → Value → Option Connection → Option Connection
extended agent event none = none
extended agent event (some c) =
    if c.agent == agent
    then some (record { agent = c.agent; history = c.history ++ (event ∷ []); sent = c.sent })
    else some c

abbrev pub announced : String → Value → Connections → Connections
announced agent event cs p = extended agent event (cs p)

-- the element at an index, if there is one
abbrev pub get_elem? : List Value → ℕ → Option Value
get_elem? [] n = none
get_elem? (v ∷ vs) zero = some v
get_elem? (v ∷ vs) (suc n) = get_elem? vs n

abbrev pub message_for : Option Value → SseMessage
message_for none = heartbeat
message_for (some event) = approval_result event

-- The next message of a connection: the event of its history that it was not sent yet.
abbrev pub due : Option Connection → SseMessage
due none = heartbeat
due (some c) = message_for (get_elem? c.history c.sent)

abbrev pub advanced : Option Value → ℕ → ℕ
advanced none n = n
advanced (some event) n = suc n

-- behind the next message
abbrev pub progressed : Option Connection → Option Connection
progressed none = none
progressed (some c) = some (record {
  agent = c.agent;
  history = c.history;
  sent = advanced (get_elem? c.history c.sent) c.sent;
})

abbrev pub served : ℕ → Connections → Connections
served q cs p = if nat_eq p q then progressed (cs p) else cs p

-- The open connections and how many were opened.
pub record Served : Type 0 where
  pub connections : Connections
  pub opened_so_far : ℕ

abbrev pub nothing_served : Served
nothing_served = record { connections = no_connections; opened_so_far = 0 }

abbrev pub with_connections : Connections → Served → Served
with_connections cs s = record { connections = cs; opened_so_far = s.opened_so_far }

abbrev pub closing : Option Connection → String → ℕ → Served → Option (Served × Messages)
closing none agent q s = none
closing (some c) agent q s =
    if c.agent == agent then some (with_connections (closed q s.connections) s, []) else none

abbrev pub sending : Option Connection → ℕ → Served → Option (Served × Messages)
sending none q s = none
sending (some c) q s = some (with_connections (served q s.connections) s, (q, due (some c)) ∷ [])

-- A step as it is promised; a connection closes and is sent messages only while it is open, and closes under
-- the agent that opened it.
abbrev pub promised_step : HubStep → Served → Option (Served × Messages)
promised_step (opens agent) s = some (
  record {
    connections = opened s.opened_so_far agent s.connections;
    opened_so_far = suc s.opened_so_far;
  },
  [],
)
promised_step (closes agent q) s = closing (s.connections q) agent q s
promised_step (publishes agent event) s =
    some (with_connections (announced agent event s.connections) s, [])
promised_step (sends q) s = sending (s.connections q) q s

abbrev pub promised_after : Messages → Option (Served × Messages) → Option (Served × Messages)
promised_after before none = none
promised_after before (some rest) = some (rest.0, before ++ rest.1)

unfoldable pub promised : List HubStep → Served → Option (Served × Messages)
promised [] s = some (s, [])
promised (step ∷ steps) s = elim (promised_step step s) [
  | none ↦ none
  | some out ↦ promised_after out.1 (promised steps out.0)
]
