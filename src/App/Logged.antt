-- ===== src/App/Logged.antt =====
-- app/middleware/logging.py around the stack of app/main.py: the lines of a run.
use mcp_control_plane.Prelude.{String, ◌≡◌, refl, List, [], ◌∷◌, inl, inr}
use mcp_control_plane.World.{Result-cases, Env, Trace, Result, ok, raise, M}
use mcp_control_plane.Interceptor.{Agent}
use mcp_control_plane.Http.{Response}
use mcp_control_plane.App.{Site, Request, LogLine, path_of, method_of, serve, run_logged, run_app}

-- the lines that the requests and their answers stand for, newest first, above those that are there
abbrev pub lines_of : List Request → List (Result Response) → List LogLine → List LogLine
lines_of (r ∷ rs) (ok response ∷ answers) lines = lines_of rs answers (
    record { method = method_of r.route; path = path_of r.route; status = response.status } ∷ lines)
lines_of (r ∷ rs) (raise e ∷ answers) lines = lines_of rs answers lines
lines_of _ _ lines = lines

-- A run without the log.
abbrev pub run_plain :
    (Request → M Response) → List Request → Trace → List (Result Response) × Trace
run_plain server [] tr = ([], tr)
run_plain server (r ∷ rs) tr =
    let (answer, tr') = server r tr in
    let (answers, after) = run_plain server rs tr' in (answer ∷ answers, after)

module _ (server : Request → M Response) where
  run_logged-lines :
      (rs : List Request) (tr : Trace) (lines : List LogLine)
      → let (answers, after) = run_plain server rs tr in
        run_logged server rs (tr, lines) ≡ (answers, (after, lines_of rs answers lines))
  unfolding run_logged
  run_logged-lines [] tr lines = refl
  run_logged-lines (r ∷ rs) tr lines =
      let tr' = (server r tr).1 in
      elim (Result-cases (server r tr).0) [
        | inl (resp, e) ↦
            let line : LogLine = record {
              method = method_of r.route;
              path = path_of r.route;
              status = resp.status;
            } in
            rw (run_logged, e, run_logged-lines rs tr' (line ∷ lines)) refl
        | inr (x, e) ↦ rw (run_logged, e, run_logged-lines rs tr' lines) refl
      ]

-- A run of requests answers what it would without the log, and has the same effects; and the log gains one line
-- for each request that is answered, in their order, with its method, its path and the status of its answer,
-- whichever middleware or handler gave it, and none for a request that ends in an exception.
pub run_app-lines :
    (env : Env) (site : Site) (keys : List (String × Agent)) (rs : List Request) (tr : Trace)
    (lines : List LogLine)
    → let (answers, after) = run_plain (serve env site keys) rs tr in
      run_app env site keys rs (tr, lines) ≡ (answers, (after, lines_of rs answers lines))
run_app-lines env site keys rs tr lines = run_logged-lines (serve env site keys) rs tr lines
