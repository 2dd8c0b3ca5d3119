-- ===== src/World/Calls.antt =====
-- The calls of the services, as actions.
use mcp_control_plane.Prelude.{ℕ, String, Bool, Option, ◌∷◌, if◌then◌else◌}
use mcp_control_plane.Value.{ℤ, Value, Fields}
use mcp_control_plane.World.Monad.{
  Exn, redis_error, db_error, ok, raise, AuditRow, Expiry, Effect, read_clock, queried_opa,
  read_key, set_key, trimmed, counted, added_member, posted_slack, ran_tool, inserted_row,
  published, measured, fault, Reply, answered, failed, HttpReply, ToolReply, SlackReply, delivered,
  slack_http_error, slack_crash, Env, M,
}

-- A read is in the trace, answered or not.
asked {ℓ} : {A : Type ℓ} → Exn → Effect → Reply A → M A
asked e eff (answered a) tr = (ok a, eff ∷ tr)
asked e eff failed tr = (raise e, eff ∷ tr)

-- A write is in the trace if it took place.
written : Exn → Effect → Bool → M (Unit {0})
written e eff done tr = if done then (ok tt, eff ∷ tr) else (raise e, fault ∷ tr)

abbrev slack_effect : Value → SlackReply → Effect
slack_effect message delivered = posted_slack message
slack_effect message slack_http_error = fault
slack_effect message (slack_crash error) = fault

module _ (env : Env) where
  -- `time.time()`
  unfoldable pub time_now : M ℕ
  time_now tr = (ok (env.now tr), read_clock ∷ tr)

  unfoldable pub opa_post : Value → M HttpReply
  opa_post input tr = (ok (env.opa tr input), queried_opa input ∷ tr)

  unfoldable pub redis_get : String → M (Option Value)
  unfolding asked
  redis_get key tr = asked redis_error (read_key key) (env.kv_get tr key) tr

  unfoldable pub redis_set : String → Value → Expiry → M (Unit {0})
  unfolding written
  redis_set key v e tr = written redis_error (set_key key v e) (env.kv_set tr key v e) tr

  -- `zremrangebyscore(key, 0, hi)`
  unfoldable pub zremrangebyscore : String → ℕ → M (Unit {0})
  unfolding written
  zremrangebyscore key hi tr = written redis_error (trimmed key hi) (env.z_trim tr key hi) tr

  unfoldable pub zcard : String → M ℕ
  unfolding asked
  zcard key tr = asked redis_error (counted key) (env.z_card tr key) tr

  -- the score of `zrange(key, 0, 0, withscores=True)`
  unfoldable pub zrange_first : String → M (Option ℕ)
  unfolding asked
  zrange_first key tr = asked redis_error (counted key) (env.z_first tr key) tr

  -- the transaction of `zadd` and `expire`, for a member that is new
  unfoldable pub zadd_expire : String → ℕ → ℕ → M (Unit {0})
  unfolding written
  zadd_expire key score ttl tr =
      written redis_error (added_member key score ttl) (env.z_add tr key score ttl) tr

  -- `client.post(SLACK_WEBHOOK_URL, …)` and `raise_for_status()`
  unfoldable pub slack_post : Value → M SlackReply
  slack_post message tr =
      (ok (env.slack tr message), slack_effect message (env.slack tr message) ∷ tr)

  unfoldable pub call_tool : String → Fields → M ToolReply
  call_tool name arguments tr = (ok (env.tool tr name arguments), ran_tool name arguments ∷ tr)

  -- `fetchval` of the newest row's hash
  unfoldable pub fetch_last_hash : M (Option String)
  fetch_last_hash tr = elim (env.last_hash tr) [
    | answered h ↦ (ok h, tr)
    | failed ↦ (raise db_error, fault ∷ tr)
  ]

  unfoldable pub insert_row : AuditRow → M (Unit {0})
  unfolding written
  insert_row row tr = written db_error (inserted_row row) (env.insert tr row) tr

-- `instrument.add(amount, labels)` and `instrument.record(amount, labels)` of an instrument with a name
unfoldable pub measure : String → ℤ → Fields → M (Unit {0})
measure name amount labels tr = (ok tt, measured name amount labels ∷ tr)

-- `sse_hub.publish`
unfoldable pub publish : String → Value → M (Unit {0})
publish agent_id event tr = (ok tt, published agent_id event ∷ tr)
