-- ===== src/App/Access.antt =====
-- app/main.py, app/middleware/auth.py: who reaches which route.
use text.Mathlib.TextPositions.{starts_with-append}
use text.Mathlib.TextEquality.{eq_iff}
use Prim.Native.String.{◌++◌ as append}
use mcp_control_plane.Prelude.{
  String, ◌≡◌, refl, Bool, true, false, Option, none, some, List, [], ◌∷◌, ◌⊎◌, inl, inr, arith,
  concat, Option-cases, contains, Bool-cases, ap,
}
use mcp_control_plane.World.{Env, Trace, Result, ok}
use mcp_control_plane.Interceptor.{Agent}
use mcp_control_plane.Http.{Response}
use mcp_control_plane.RateLimit.{rate_limit, rate_limited_paths}
use mcp_control_plane.Auth.{agent_of, is_public, starts_with_any, unauthorised}
use mcp_control_plane.App.{
  Site, Route, post_mcp, get_sse, post_decide, get_status, get_audit, get_export, get_live,
  get_ready, path_of, handler, serve,
}

-- the routes of agents
abbrev pub of_agents : Route → Bool
of_agents (post_mcp body) = true
of_agents get_sse = true
of_agents _ = false

approvals_public : (rest : String) → is_public (append "/admin/approvals/" rest) ≡ true
unfolding is_public starts_with_any
approvals_public rest = ground (arith, starts_with-append "/admin/approvals/" rest)

path-public : (route : Route) → of_agents route ≡ false → is_public (path_of route) ≡ true
unfolding is_public starts_with_any
path-public (post_mcp body) h = absurd (ground arith)
path-public get_sse h = absurd (ground arith)
path-public (post_decide id request) h = approvals_public (concat (id ∷ "/decide" ∷ []))
path-public (get_status id) h = approvals_public (concat (id ∷ "/status" ∷ []))
path-public (get_audit params) h = refl
path-public (get_export from_text to_text) h = refl
path-public get_live h = refl
path-public get_ready h = refl

private_path : (route : Route) → of_agents route ≡ true → is_public (path_of route) ≡ false
unfolding is_public starts_with_any
private_path (post_mcp body) h = refl
private_path get_sse h = refl
private_path (post_decide id request) h = absurd (ground arith)
private_path (get_status id) h = absurd (ground arith)
private_path (get_audit params) h = absurd (ground arith)
private_path (get_export from_text to_text) h = absurd (ground arith)
private_path get_live h = absurd (ground arith)
private_path get_ready h = absurd (ground arith)

-- No public path is a limited one.
public_unlimited :
    (path : String) → is_public path ≡ true → contains rate_limited_paths path ≡ false
unfolding is_public starts_with_any
public_unlimited path h = elim (Bool-cases (contains rate_limited_paths path)) [
  | inr e ↦ e
  | inl e ↦
      let limited : "/mcp" ≡ path = (eq_iff "/mcp" path).0 (ground (arith, e)) in
      absurd (ground (arith, ap is_public limited, h))
]

module _ (env : Env) (site : Site) (keys : List (String × Agent)) (api_key : Option String)
    (route : Route) where
  abbrev pub served : Trace → Result Response × Trace
  served = serve env site keys (record { api_key = api_key; route = route })

  pub public-served :
      of_agents route ≡ false → (tr : Trace) → served tr ≡ handler env site route none tr
  unfolding serve
  public-served h tr =
      let public = path-public route h in
      rw (serve, public, public_unlimited (path_of route) public) refl

  -- Through the middlewares, every request either is for a public route, whose handler runs as it stands and is
  -- given no agent, whatever the key; or it is for POST /mcp or GET /mcp/sse, and without a registered key the
  -- answer is the 401 and nothing at all happens, while with one the handler runs, behind `rate_limit`, for
  -- exactly the key's agent.
  pub serve-Access :
      (tr : Trace)
      → ((of_agents route ≡ false) × (served tr ≡ handler env site route none tr))
        ⊎ ((of_agents route ≡ true)
            × (((agent_of keys api_key ≡ none) × (served tr ≡ (ok unauthorised, tr)))
                ⊎ ((agent : Agent) × (agent_of keys api_key ≡ some agent)
                    × (served tr
                        ≡ rate_limit env
                            (path_of route)
                            agent
                            (handler env site route (some agent))
                            tr))))
  unfolding serve
  serve-Access tr = elim (Bool-cases (of_agents route)) [
    | inr h ↦ inl (h, public-served h tr)
    | inl h ↦
        let closed = private_path route h in
        elim (Option-cases (agent_of keys api_key)) [
          | inl e ↦ inr (h, inl (e, rw (serve, closed, e) refl))
          | inr (agent, e) ↦ inr (h, inr (agent, e, rw (serve, closed, e) refl))
        ]
  ]
