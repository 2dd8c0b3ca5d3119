-- ===== src/Lib.antt =====
-- A verification library of the gateway that stands between AI agents and the tools they call: it
-- authenticates an agent, limits its rate, asks a policy engine about every tool call, holds destructive
-- calls for a human's approval over Slack, runs the tool, and writes a hash-chained audit log.
--
-- How the parts interact. A request passes app/middleware/auth.py and app/middleware/rate_limit.py before
-- it reaches its handler in app/main.py. POST /mcp reads the call (app/interceptor.py), checks that its
-- name is registered and in the agent's scope, asks the policy engine (app/authz/opa.py), and then holds
-- the call (app/approvals.py, app/slack.py), denies it or runs it; each of the three writes a row of the
-- audit log (app/audit.py). POST /admin/approvals/{id}/decide checks Slack's signature, decides a held
-- approval once, and runs the held tool or logs the denial.
--
-- The files.
--   Prelude, Value, Json, Clock: shared names, JSON values and Python's truth of them, json.dumps with
--     sorted keys, datetime.isoformat in UTC.
--   World: the monad of the handlers. A handler runs over the trace of the effects so far, newest first,
--     and ends in a value or an exception; what happened before an exception stays in the trace. The
--     services are an `Env`, functions of the whole trace, so that an answer may depend on anything that
--     happened before.
--   Interceptor: app/interceptor.py. Policy: app/authz/opa.py. Approvals: app/approvals.py. Slack:
--     app/slack.py. Audit: the writing of rows in app/audit.py. Integrity: its `verify_rows`.
--   Http, Execution, Gateway, Decisions: app/main.py, the responses, `_execute_tool`, the handler of
--     POST /mcp and the two approval endpoints. The handlers are cut into one function for each stretch of
--     code between two of their tests; the branches stand in the order of the source.
--   RateLimit: app/middleware/rate_limit.py. RateLimit/Concurrent cuts a check at its awaits, for checks
--     that overlap; Phases, Advances and Overlap bound what these let through. Auth:
--     app/middleware/auth.py. App: the routes of app/main.py, the order of the middleware around them,
--     app/middleware/logging.py, and runs of requests. Query, AuditApi, ExportApi: the query of the audit
--     log and its export, in app/audit.py and app/main.py, over a `Db` that answers the SELECTs.
--   Telemetry: the instruments of app/otel.py; what is added to them stands where the source adds it.
--   App/Kept: what every request keeps, for a property that the writing of a row keeps, which
--     Integrity/Kept and Telemetry/Counts fill in. Integrity/Collision compares two logs.
--   Tools: the executors in app/tools. Tools/Text and Tools/Backend: the methods of str, and the
--     backends with what the code reads of their objects. Tools/Config: config.py. Tools/KubeClient:
--     k8s_client.py. Tools/HttpClient, Pods, Deployments, Manifest, Terraform, Jenkins, Queries:
--     tools_spec.py. Tools/Registry: `TOOLS` of app/main.py. The other files of Tools prove: Errors,
--     HttpErrors and Statuses the error types, Footprint, Permitted, Placed, Unsent and HttpPermitted
--     the calls an executor may make, Guards and Writes when it makes them, Latest the last update of a
--     deployment, Bounded the bounds.
--   Export: scripts/export_audit_to_s3.py, and in Export/Days what the exports of two days hold.
--   Sse: app/sse_hub.py and the loop of GET /mcp/sse. Sse/Hub: the dict of subscribers over a heap of
--     queues. Sse/Spec: what is promised to each open connection. Sse/Refine, Closing and Runs: that each
--     operation, and every run, is as promised; a connection is numbered by its opening.
--   Traces: what is read off a trace, and rules for actions that leave it alone or whose values satisfy a
--     predicate. Mediation: theorems on the handlers; Mediation/JsonRpc says what a response is, and
--     Mediation/Readable which bodies are read. Tests: runs on concrete requests, and the theorems
--     at concrete inputs.
--
-- What is a parameter. Redis, Postgres, the policy engine, the Slack webhook, the clock, uuid4,
-- SHA-256, HMAC-SHA-256, str() of a JSON value, whether `JSONResponse` renders one, pydantic's reading
-- of a decision and what a tool answers are fields of `Env`; the last is `tool_reply` of Tools/Registry where a theorem is on the
-- executors. Their backends are `Backends`: the answers of the kubernetes package and of httpx, the
-- settings in the environment, and float(), str(), == and + where the code applies them to values that
-- are no texts or integers. An executor runs over a trace of its own calls; the trace of a handler has
-- the run of the tool as one effect. What a theorem needs of them is a hypothesis: `KvFaithful` (a GET
-- that finds a value finds that of the newest SET), `ZFaithful` (the clock does not run backwards,
-- ZCARD counts the members that the commands before it have left), `LastHashFaithful` (Postgres
-- answers with the hash of the newest row), `WindowHonoured` (Postgres answers the export's SELECT
-- with the rows of its window), `LimitHonoured` (to a SELECT with a LIMIT, Postgres
-- sends no more rows than that), `Renderable` (what is answered holds no NaN, infinity or lone surrogate,
-- which `JSONResponse` refuses), `IsHexDigest`
-- (SHA-256 in hex has 64 characters),
-- `Services` (writes succeed, replies of the policy engine have its documented form,
-- sending to Slack fails with an `httpx.HTTPError` at most), `Serving`
-- (besides, executors give the five error types).
--
-- Choices. A time is a natural number of microseconds, where the code has a float of seconds; the bounds that a
-- query asks for may lie before the epoch. A JSON response is rendered behind the handler, which builds it last. A record in
-- Redis is the dict that is dumped, since the code reads what it wrote. The transaction under the advisory
-- lock, which reads the newest hash and inserts a row, is one step; the handlers' other effects may be
-- interleaved with others', as the theorems on runs say. A write that fails is a `fault` in the trace. A
-- float in JSON is its printed text and whether it is true. The machine has no bounded integers, and no
-- function needs fuel: each is by recursion on its input.
--
-- Not modelled: in app/otel.py the providers and the spans, which nothing reads; the log lines but those
-- of app/middleware/logging.py, and the durations in these; in app/sse_hub.py, events lost to a
-- cancelled `queue.get` (`put` on an unbounded queue does not wait, so that a publication is one
-- step); the credentials of the executors and the caches of clients in app/tools; the set-up of
-- connections, the migrations, the Rego policies and the infrastructure. An export is streamed row by
-- row; in the model its SELECT answers at once, or fails.
pub mod Prelude
pub mod Value
pub mod World
pub mod Json
pub mod Clock
pub mod Interceptor
pub mod Policy
pub mod Approvals
pub mod Slack
pub mod Audit
pub mod Http
pub mod Execution
pub mod Gateway
pub mod Decisions
pub mod RateLimit
pub mod Auth
pub mod App
pub mod Traces
pub mod Mediation
pub mod Integrity
pub mod Sse
pub mod Query
pub mod ExportApi
pub mod AuditApi
pub mod Tools
pub mod Telemetry
pub mod Export
pub mod Tests
