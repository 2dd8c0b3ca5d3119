-- ===== src/Approvals/Once.antt =====
-- However often a decision is called for an approval, one call decides at most.
use mcp_control_plane.Prelude.{
  ap, ℕ, String, ◌≡◌, refl, ◌≢◌, ◌∙◌, sym, ◌+◌, ◌≤◌, Option, none, some, arith, List, [], ◌∷◌, ◌++◌,
  eq_iff, inl, inr, ◌⊎◌, All,
}
use mcp_control_plane.World.{Env, Effect, Trace, set_key, Result, ok, raise}
use mcp_control_plane.Approvals.{
  Approval, asdict, approval_key, decide_approval, DecideOutcome, decided, not_found,
  already_decided, decided_status,
}
use mcp_control_plane.Approvals.Lifecycle.{decide_approval-Resolves}
use mcp_control_plane.Approvals.Store.{last_set, KvFaithful, Resolves-before}

-- A call of `decide_approval`, and what others did since the call before.
pub record Attempt : Type 0 where
  pub others : List Effect
  pub decision : String
  pub decided_by : String

abbrev pub Untouched : String → List Effect → Type 0
Untouched key [] = Unit
Untouched key (set_key k v e ∷ es) = (k ≢ key) × Untouched key es
Untouched key (_ ∷ es) = Untouched key es

abbrev pub is_decided : Result (Option Approval × DecideOutcome) → ℕ
is_decided (ok (some a, decided)) = 1
is_decided _ = 0

-- How many calls in a row, for one id, take effect.
unfoldable pub decisions : Env → String → List Attempt → Trace → ℕ
decisions env approval_id [] tr = 0
decisions env approval_id (x ∷ xs) tr =
    let (r, tr') = decide_approval env approval_id x.decision x.decided_by (x.others ++ tr) in
    is_decided r + decisions env approval_id xs tr'

last_set-Untouched :
    (key : String) (es : List Effect) (tr : Trace)
    → Untouched key es
    → last_set (es ++ tr) key ≡ last_set tr key
last_set-Untouched key [] tr u = refl
last_set-Untouched key (set_key k v e ∷ es) tr u =
    ground (arith, eq_iff k key, last_set-Untouched key es tr u.1)
last_set-Untouched key (_ ∷ es) tr u = last_set-Untouched key es tr u

decided_status-ne-pending : (decision : String) → decided_status decision ≢ "pending"
decided_status-ne-pending decision =
    ground (arith, eq_iff "approved" "pending", eq_iff "denied" "pending")

is_decided-cases :
    (r : Result (Option Approval × DecideOutcome))
    → (is_decided r ≡ 0) ⊎ ((a : Approval) × (r ≡ ok (some a, decided)))
is_decided-cases (raise e) = inl refl
is_decided-cases (ok (none, o)) = inl refl
is_decided-cases (ok (some a, decided)) = inr (a, refl)
is_decided-cases (ok (some a, not_found)) = inl refl
is_decided-cases (ok (some a, already_decided)) = inl refl

module _ (env : Env) (approval_id : String) (faithful : KvFaithful env) where
  abbrev key : String
  key = approval_key approval_id

  record Settled (tr : Trace) : Type 0 where
    stored : Approval
    at_key : last_set tr key ≡ some (asdict stored)
    final : stored.status ≢ "pending"

  -- A call that does not decide writes nothing.
  undecided-last_set :
      (decision decided_by : String) (tr : Trace)
      → is_decided (decide_approval env approval_id decision decided_by tr).0 ≡ 0
      → last_set (decide_approval env approval_id decision decided_by tr).1 key ≡ last_set tr key
  unfolding decide_approval
  undecided-last_set decision decided_by tr h = ground arith

  decided-Settled :
      (decision decided_by : String) (tr : Trace) (a : Approval)
      → (decide_approval env approval_id decision decided_by tr).0 ≡ ok (some a, decided)
      → Settled (decide_approval env approval_id decision decided_by tr).1
  decided-Settled decision decided_by tr a h =
      let r = decide_approval-Resolves env approval_id decision decided_by tr a h in
      record {
        stored = a;
        at_key = rw r.written (ground (arith, eq_iff key key));
        final = rw r.result (decided_status-ne-pending decision);
      }

  Settled-undecided :
      (decision decided_by : String) (tr : Trace) (a : Approval)
      → Settled tr
      → (decide_approval env approval_id decision decided_by tr).0 ≡ ok (some a, decided)
      → ⊥
  Settled-undecided decision decided_by tr a s h =
      let r = decide_approval-Resolves env approval_id decision decided_by tr a h in
      let same =
        Resolves-before env approval_id decision decided_by tr s.stored a faithful s.at_key r in
      s.final (ap (λ (b : Approval). b.status) (sym same) ∙ r.pending)

  Settled-move : (tr tr' : Trace) → Settled tr → last_set tr' key ≡ last_set tr key → Settled tr'
  Settled-move tr tr' s e = record { stored = s.stored; at_key = e ∙ s.at_key; final = s.final }

  Settled-decisions :
      (xs : List Attempt) (tr : Trace)
      → All (λ x. Untouched key x.others) xs
      → Settled tr
      → decisions env approval_id xs tr ≡ 0
  unfolding decisions
  Settled-decisions [] tr u s = refl
  Settled-decisions (x ∷ xs) tr u s =
      let tr1 = x.others ++ tr in
      let s1 = Settled-move tr tr1 s (last_set-Untouched key x.others tr u.0) in
      elim (is_decided-cases (decide_approval env approval_id x.decision x.decided_by tr1).0) [
        | inl z ↦
            let s2 =
              Settled-move tr1 (decide_approval env approval_id x.decision x.decided_by tr1).1 s1
                (undecided-last_set x.decision x.decided_by tr1 z) in
            omega (arith, z, Settled-decisions xs _ u.1 s2)
        | inr (a, h) ↦ absurd (Settled-undecided x.decision x.decided_by tr1 a s1 h)
      ]

  -- Of any calls of decide_approval for one id, made one after the other, with whatever others do in
  -- between that does not write this approval's key, at most one decides, whatever the state of Redis
  -- before; a GET that finds a value is taken to find that of the newest SET.
  pub decisions-le-one :
      (xs : List Attempt) (tr : Trace)
      → All (λ x. Untouched key x.others) xs
      → decisions env approval_id xs tr ≤ 1
  unfolding decisions
  decisions-le-one [] tr u = omega arith
  decisions-le-one (x ∷ xs) tr u =
      let tr1 = x.others ++ tr in
      elim (is_decided-cases (decide_approval env approval_id x.decision x.decided_by tr1).0) [
        | inl z ↦ omega (arith, z, decisions-le-one xs _ u.1)
        | inr (a, h) ↦
            let s2 = decided-Settled x.decision x.decided_by tr1 a h in
            rw h (omega (arith, Settled-decisions xs _ u.1 s2))
      ]
