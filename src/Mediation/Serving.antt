-- ===== src/Mediation/Serving.antt =====
-- Actions that return a value, and the services with which the handling of a tool call does.
use mcp_control_plane.Prelude.{
  ℕ, String, eq_iff, ◌≡◌, refl, Bool, true, false, Option, none, some, arith, [], ◌∷◌, contains,
  if◌then◌else◌, inl, inr,
}
use mcp_control_plane.Value.{Value, Fields, obj, get}
use mcp_control_plane.World.{
  Env, Trace, Result, ok, M, pure, continue, ◌>>=◌, answered, AuditRow, Expiry, refused, HttpReply,
  SlackReply, delivered, slack_http_error, slack_crash, http_error, not_json, json, Result-cases,
}
use mcp_control_plane.Execution.{error_type_status}

-- No answer of the policy engine, one that is no JSON, or an object whose `result`, if it is there, is an
-- object.
abbrev pub usable_result : Option Value → Bool
usable_result none = true
usable_result (some (obj result)) = true
usable_result _ = false

abbrev pub usable : HttpReply → Bool
usable http_error = true
usable not_json = true
usable (json (obj body)) = usable_result (get body "result")
usable (json _) = false

-- An exception that sending to Slack lets through.
abbrev pub escapes : SlackReply → Bool
escapes delivered = false
escapes slack_http_error = false
escapes (slack_crash error) = true

-- Postgres and Redis take and answer what they are sent, the policy engine's answers are usable, and sending to
-- Slack fails with an `httpx.HTTPError` at most.
pub record Services (env : Env) : Type 0 where
  pub inserts : (tr : Trace) (row : AuditRow) → env.insert tr row ≡ true
  pub hashes : (tr : Trace) → (o : Option String) × (env.last_hash tr ≡ answered o)
  pub sets : (tr : Trace) (key : String) (v : Value) (e : Expiry) → env.kv_set tr key v e ≡ true
  pub notifies : (tr : Trace) (message : Value) → escapes (env.slack tr message) ≡ false
  pub policies : (tr : Trace) (input : Value) → usable (env.opa tr input) ≡ true

-- Besides, an executor that refuses a call gives one of the five error types.
pub record Serving (env : Env) : Type 0 where
  pub services : Services env
  pub types :
      (tr : Trace) (name : String) (arguments : Fields) (error_type message : String)
      → env.tool tr name arguments ≡ refused error_type message
      → contains
          ("validation_error" ∷ "not_found" ∷ "permission_denied" ∷ "executor_timeout"
            ∷ "upstream_error" ∷ [])
          error_type
        ≡ true

-- The action returns a value, whatever happened before.
pub record Answers {ℓ} {A : Type ℓ} (m : M A) : Type ℓ where
  pub at : (tr : Trace) → (a : A) × ((m tr).0 ≡ ok a)

module _ {ℓ} {A : Type ℓ} where
  pub Answers-pure : (a : A) → Answers (pure a)
  Answers-pure a = record { at = λ tr. (a, refl) }

  pub Answers-if : (b : Bool) (m n : M A) → Answers m → Answers n → Answers (if b then m else n)
  Answers-if true m n am an = am
  Answers-if false m n am an = an

module _ {A B : Type 0} where
  continue-Answers :
      (r : Result A) (a : A) (f : A → M B) (tr : Trace)
      → r ≡ ok a
      → ((a : A) → Answers (f a))
      → (b : B) × ((continue r f tr).0 ≡ ok b)
  continue-Answers r a f tr e af = rw e ((af a).at tr)

  pub Answers-bind :
      (m : M A) (f : A → M B) → Answers m → ((a : A) → Answers (f a)) → Answers (m >>= f)
  Answers-bind m f am af = record {
    at = λ tr. let (a, e) = am.at tr in continue-Answers (m tr).0 a f (m tr).1 e af;
  }

-- the five keys of `_ERROR_TYPE_STATUS`
pub known_status :
    (t : String)
    → contains
        ("validation_error" ∷ "not_found" ∷ "permission_denied" ∷ "executor_timeout"
          ∷ "upstream_error" ∷ [])
        t
      ≡ true
    → (n : ℕ) × (error_type_status t ≡ ok n)
unfolding error_type_status
known_status t h = elim (Result-cases (error_type_status t)) [
  | inl (n, e) ↦ (n, e)
  | inr (x, e) ↦ absurd (
      ground (
        arith,
        eq_iff "validation_error" t,
        eq_iff "not_found" t,
        eq_iff "permission_denied" t,
        eq_iff "executor_timeout" t,
        eq_iff "upstream_error" t,
        eq_iff t "validation_error",
        eq_iff t "not_found",
        eq_iff t "permission_denied",
        eq_iff t "executor_timeout",
        eq_iff t "upstream_error",
      ))
]

pub ruleset answer_rules = (Answers-pure, Answers-if, Answers-bind)
