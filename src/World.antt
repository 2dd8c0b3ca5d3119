-- ===== src/World.antt =====
-- What the gateway's code sees of the outside, and the monad that its handlers are written in.
-- A handler runs over the trace of what it has done so far, newest first. The services that it calls
-- (Redis, Postgres, OPA, Slack, the clock, the tools' backends) are an `Env`: functions that answer a
-- call, given the whole trace, so that an answer may depend on anything that happened before.
-- What is added to an instrument of app/otel.py is an effect; spans, and the log lines but those of
-- App, are written and never read, and no effect stands for them.
mod Monad
mod Calls
pub use Monad.*
unfoldable pub use Calls.*
