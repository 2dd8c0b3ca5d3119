-- ===== src/World/Monad.antt =====
-- Exceptions, effects, the environment and the monad.
use mcp_control_plane.Prelude.{ℕ, String, Bool, Option, List, ◌≡◌, refl, ◌⊎◌, inl, inr}
use mcp_control_plane.Value.{ℤ, Value, Fields}

-- The exceptions that the code raises or lets through.
pub data Exn : Type 0 where
  executor_error : String → String → Exn
  missing_param : String → String → Exn
  other_error : String → Exn
  attribute_error type_error key_error value_error overflow_error redis_error db_error : Exn

pub data Result {ℓ} (A : Type ℓ) : Type ℓ where
  ok : A → Result A
  raise : Exn → Result A

-- A row of the table audit_log, without the `seq` that Postgres assigns.
-- `created_at` is in microseconds since the epoch.
pub record AuditRow : Type 0 where
  pub id : String
  pub agent_id : String
  pub role : String
  pub tool_name : String
  pub args : Value
  pub policy_decision : Value
  pub approval_id : Option String
  pub result_status : String
  pub result_summary : Value
  pub duration_ms : Option ℕ
  pub otel_trace_id : Option String
  pub row_hash : String
  pub created_at : ℕ

-- The expiry options of SET: `ex=n` (seconds) and `keepttl=True`.
pub data Expiry : Type 0 where
  ex : ℕ → Expiry
  keepttl : Expiry

pub data Effect : Type 0 where
  read_clock : Effect
  queried_opa : Value → Effect
  read_key : String → Effect
  set_key : String → Value → Expiry → Effect
  trimmed : String → ℕ → Effect
  counted : String → Effect
  added_member : String → ℕ → ℕ → Effect
  posted_slack : Value → Effect
  ran_tool : String → Fields → Effect
  inserted_row : AuditRow → Effect
  published : String → Value → Effect
  called_k8s : String → Fields → Effect
  discovered : Value → Value → Effect
  sent_http : String → String → Value → Fields → Effect
  measured : String → ℤ → Fields → Effect
  fault : Effect

abbrev pub Trace : Type 0
Trace = List Effect

-- A call of a service answers, or fails with the exception of its client library.
pub data Reply {ℓ} (A : Type ℓ) : Type ℓ where
  answered : A → Reply A
  failed : Reply A

-- httpx: an `HTTPError`, a body that is no JSON (a ValueError), or a JSON body.
pub data HttpReply : Type 0 where
  http_error not_json : HttpReply
  json : Value → HttpReply

-- How the body of an executor ends: it returns, raises `ExecutorError(error_type, message)`, or raises
-- some other exception, of which the code reads `str(exc)`.
pub data ToolReply : Type 0 where
  returned : Value → ToolReply
  refused : String → String → ToolReply
  crashed : String → ToolReply

-- `ApprovalDecisionRequest` of app/main.py, as pydantic reads it from a body.
pub record DecisionRequest : Type 0 where
  pub decision : String
  pub decided_by : String
  pub note : Option String

-- A body that pydantic refuses comes with the text of its ValidationError.
pub data DecisionBody : Type 0 where
  invalid : String → DecisionBody
  valid : DecisionRequest → DecisionBody

-- The services, and the parts of the standard library that are taken as they are: the clock
-- (microseconds), `uuid.uuid4`, SHA-256 and HMAC-SHA-256 in hex, `str(v)` of a JSON value;
-- pydantic's reading of a decision's body; and the
-- two settings of app/slack.py.
-- What `client.post` and `raise_for_status` end in: an `httpx.HTTPError`, or another exception, such as an
-- `httpx.InvalidURL`.
pub data SlackReply : Type 0 where
  delivered slack_http_error : SlackReply
  slack_crash : String → SlackReply

pub record Env : Type 0 where
  pub now : Trace → ℕ
  pub elapsed_ms : Trace → ℕ
  pub new_uuid : Trace → String
  pub trace_id : Trace → Option String
  pub sha256 : String → String
  pub hmac_sha256 : String → List ℕ → String
  pub format : Value → String
  pub renders : Value → Bool
  pub opa : Trace → Value → HttpReply
  pub kv_get : Trace → String → Reply (Option Value)
  pub kv_set : Trace → String → Value → Expiry → Bool
  pub z_trim : Trace → String → ℕ → Bool
  pub z_card : Trace → String → Reply ℕ
  pub z_first : Trace → String → Reply (Option ℕ)
  pub z_add : Trace → String → ℕ → ℕ → Bool
  pub slack_webhook_url : String
  pub slack_signing_secret : String
  pub parse_decision : List ℕ → DecisionBody
  pub slack : Trace → Value → SlackReply
  pub tool : Trace → String → Fields → ToolReply
  pub last_hash : Trace → Reply (Option String)
  pub insert : Trace → AuditRow → Bool

-- Code that may raise and has effects; what happened before a raise stays in the trace.
abbrev pub M {ℓ} : Type ℓ → Type ℓ
M A = Trace → Result A × Trace

module _ {ℓ} {A : Type ℓ} where
  abbrev pub pure : A → M A
  pure a tr = (ok a, tr)

  abbrev pub throw : Exn → M A
  throw e tr = (raise e, tr)

  abbrev pub lift : Result A → M A
  lift r tr = (r, tr)

module _ {ℓ κ} {A : Type ℓ} {B : Type κ} where
  abbrev pub continue : Result A → (A → M B) → M B
  continue (ok a) f tr = f a tr
  continue (raise e) f tr = (raise e, tr)

  infixl 5 ◌>>=◌ ◌>>◌
  abbrev pub ◌>>=◌ : M A → (A → M B) → M B
  ◌>>=◌ m f tr = let (r, tr') = m tr in continue r f tr'

  abbrev pub ◌>>◌ : M A → M B → M B
  m >> n = m >>= λ _. n

-- To split on how a call ended, and keep the equation.
pub Result-cases {ℓ} :
    {A : Type ℓ} (r : Result A) → ((a : A) × (r ≡ ok a)) ⊎ ((e : Exn) × (r ≡ raise e))
Result-cases (ok a) = inl (a, refl)
Result-cases (raise e) = inr (e, refl)

pub Reply-cases {ℓ} : {A : Type ℓ} (r : Reply A) → ((a : A) × (r ≡ answered a)) ⊎ (r ≡ failed)
Reply-cases (answered a) = inl (a, refl)
Reply-cases failed = inr refl
