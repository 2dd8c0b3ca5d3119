-- ===== src/Integrity/Kept.antt =====
-- Every request keeps the chain of audit_log.
use mcp_control_plane.Prelude.{String, List, [], ◌∷◌}
use mcp_control_plane.World.{Env, Trace}
use mcp_control_plane.Interceptor.{Agent}
use mcp_control_plane.App.{Site, Request, serve, LogLine, log_requests, run_logged, run_app}
use mcp_control_plane.App.Kept.{Preserved, serve-Stable}
use mcp_control_plane.Traces.Views.{Logged}
use mcp_control_plane.Traces.Stable.{Keeps-Stable}
use mcp_control_plane.Integrity.Chain.{IsChained, LastHashFaithful, Chained, audit-Chained}

chain-Preserved : (env : Env) → LastHashFaithful env → Preserved env (Chained env)
chain-Preserved env lf = record {
  keeps = λ A m k. Keeps-Stable (λ (v : Logged). IsChained env v.0) m k;
  audits = audit-Chained env lf;
}

-- every request, whatever its route, its caller and its outcome
pub serve-Chained :
    (env : Env) (site : Site) (keys : List (String × Agent)) (r : Request) (tr : Trace)
    → LastHashFaithful env
    → Chained env tr
    → Chained env (serve env site keys r tr).1
serve-Chained env site keys r tr lf p =
    (serve-Stable env (Chained env) (chain-Preserved env lf) site keys r).at tr p

-- Where the rows written so far are chained, and Postgres answers the read of the newest hash with that of the
-- newest row, or fails: whatever requests the app serves, on whatever routes, in whatever order, and however they
-- end, the rows of audit_log are chained behind them: the hash of each row is that of its fields and of the
-- hash of the row before it, and the first row's is chained to the genesis hash.
pub run_app-Chained :
    (env : Env) (site : Site) (keys : List (String × Agent)) (rs : List Request) (tr : Trace)
    (lines : List LogLine)
    → LastHashFaithful env
    → Chained env tr
    → Chained env (run_app env site keys rs (tr, lines)).1.0
unfolding run_logged log_requests
run_app-Chained env site keys [] tr lines lf c = c
run_app-Chained env site keys (r ∷ rs) tr lines lf c =
    let tr' = (serve env site keys r tr).1 in
    let lines' = (log_requests r (serve env site keys r) (tr, lines)).1.1 in
    run_app-Chained env site keys rs tr' lines' lf (serve-Chained env site keys r tr lf c)
