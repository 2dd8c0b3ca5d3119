-- ===== src/Mediation/Settling.antt =====
-- What follows `decide_approval` in app/main.py, against the audit log, the runs, the agent's connection and
-- the stored approvals.
use mcp_control_plane.Prelude.{
  String, ◌≡◌, ◌≢◌, refl, Option, none, some, arith, List, [], ◌∷◌, eq_iff, Bool-cases, ◌⊎◌, inl,
  inr, ◌==◌,
}
use mcp_control_plane.Value.{Value, str, obj, Fields}
use mcp_control_plane.World.{
  published, set_key, Trace, Env, ok, ToolReply, returned, refused, crashed, DecisionRequest,
}
use mcp_control_plane.Approvals.{Approval, DecideOutcome, decided, not_found, already_decided}
use mcp_control_plane.Http.{Response}
use mcp_control_plane.Decisions.{event_of, denial_reason, log_denial, resume, after_decision}
use mcp_control_plane.Traces.Views.{runs}
use mcp_control_plane.Mediation.Audited.{Entry, entries, reply_label}

-- The events that were pushed to agents, newest first.
abbrev pub pushes : Trace → List (String × Value)
pushes [] = []
pushes (published agent_id event ∷ tr) = (agent_id, event) ∷ pushes tr
pushes (_ ∷ tr) = pushes tr

-- The records that were written to Redis, newest first.
abbrev pub writes : Trace → List (String × Value)
writes [] = []
writes (set_key key v e ∷ tr) = (key, v) ∷ writes tr
writes (_ ∷ tr) = writes tr

-- The audit rows, the runs, the pushes and the writes.
abbrev pub Seen : Type 0
Seen = List Entry × (List (String × Fields) × (List (String × Value) × List (String × Value)))

abbrev pub seen : Trace → Seen
seen tr = (entries tr, (runs tr, (pushes tr, writes tr)))

abbrev settled_entry : Approval → String → Entry
settled_entry a label = record {
  agent_id = a.agent_id;
  role = a.role;
  tool_name = a.tool_name;
  args = obj a.arguments;
  result_status = label;
}

-- What is seen behind one row, one push and the given runs.
abbrev pub told :
    Approval → String → String → String → Value → List (String × Fields) → Trace → Seen
told a label status key v ran before = (
  settled_entry a label ∷ entries before,
  (ran, ((a.agent_id, event_of a status key v) ∷ pushes before, writes before)),
)

-- The denial of an approval is logged and pushed, and nothing ran.
abbrev pub Denied : DecisionRequest → Approval → Trace → Trace → Type 0
Denied p a before after =
    seen after
    ≡ told a "approval_denied" "denied" "reason" (str (denial_reason p)) (runs before) before

-- How the end of the call that an approval stands for is logged and pushed.
abbrev pub end_of : ToolReply → String × (String × (String × Value))
end_of (returned v) = ("allowed", ("approved", ("result", v)))
end_of (refused t m) = (reply_label (refused t m), ("error", ("error", str m)))
end_of (crashed m) = ("error", ("error", ("error", str m)))

-- The approved call ran, once, and its end is logged and pushed.
abbrev pub Ran : Env → Approval → Trace → Trace → Type 0
Ran env a before after =
    let (label, (status, (key, v))) = end_of (env.tool before a.tool_name a.arguments) in
    seen after ≡ told a label status key v ((a.tool_name, a.arguments) ∷ runs before) before

module _ (env : Env) (p : DecisionRequest) where
  log_denial_lem :
      (a : Approval) (tr : Trace) (resp : Response)
      → (log_denial env p a tr).0 ≡ ok resp
      → Denied p a tr (log_denial env p a tr).1
  unfolding log_denial
  log_denial_lem a tr resp h = ground (arith, h)

  resumed :
      (a : Approval) (r : ToolReply) (tr : Trace) (resp : Response)
      → env.tool tr a.tool_name a.arguments ≡ r
      → (resume env p a tr).0 ≡ ok resp
      → Ran env a tr (resume env p a tr).1
  unfolding resume
  resumed a (returned v) tr resp e h = rw e (ground (arith, e, h))
  resumed a (refused t m) tr resp e h = rw e (ground (arith, e, h))
  resumed a (crashed m) tr resp e h = rw e (ground (arith, e, h))

  -- what an answer behind a result of `decide_approval` has done
  abbrev pub Concluded : Option Approval → DecideOutcome → Trace → Trace → Type 0
  Concluded (some a) decided before after =
      ((a.status ≡ "denied") × Denied p a before after)
      ⊎ ((a.status ≢ "denied") × Ran env a before after)
  Concluded _ _ before after = seen after ≡ seen before

  pub after_decision-Concluded :
      (o : Option Approval) (out : DecideOutcome) (tr : Trace) (resp : Response)
      → (after_decision env p (o, out) tr).0 ≡ ok resp
      → Concluded o out tr (after_decision env p (o, out) tr).1
  unfolding after_decision
  after_decision-Concluded none not_found tr resp h = refl
  after_decision-Concluded (some a) not_found tr resp h = refl
  after_decision-Concluded none already_decided tr resp h = refl
  after_decision-Concluded (some a) already_decided tr resp h = refl
  after_decision-Concluded none decided tr resp h = refl
  after_decision-Concluded (some a) decided tr resp h = elim (Bool-cases (a.status == "denied")) [
    | inl d ↦
        inl ((eq_iff a.status "denied").0 d, rw d (log_denial_lem a tr resp (ground (arith, d, h))))
    | inr n ↦ inr (
      ground (arith, n, eq_iff a.status "denied"),
      rw n (resumed a (env.tool tr a.tool_name a.arguments) tr resp refl (ground (arith, n, h))),
    )
  ]
