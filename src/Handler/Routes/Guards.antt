-- ===== src/Handler/Routes/Guards.antt =====
-- Which routes of cmd/main.go and handler/routes.go are behind the authentication middleware.
use mathlib.Core.Path.{subst}
use digital_ocean_assignment.Base.{
  ◌≡◌, refl, sym, ◌⊎◌, inl, inr, String, true, false, Option, none, List, [], ◌∷◌, All, eq_iff,
  arith,
}
use digital_ocean_assignment.Db.Session.{Env, World}
use digital_ocean_assignment.Service.Token.{LocalClaims, validate_access_token}
use digital_ocean_assignment.Handler.Http.{http_error, jwt_auth}
use digital_ocean_assignment.Handler.Logging.{Logger, Request, request_logger}
use digital_ocean_assignment.Handler.Routes.{
  Route, routes, Input, found, Outside, serve_route, serve,
}

abbrev pub In : Route → List Route → Type 0
In r [] = ⊥
In r (x ∷ xs) = (r ≡ x) ⊎ In r xs

-- Documented behaviour of the router: the route that it finds is one of those registered.
abbrev pub FindsRegistered : Outside → Type 0
FindsRegistered out =
    (rs : List Route) (req : Request) (r : Route) (job_id : String)
    → out.find_route rs req ≡ found r job_id
    → In r rs

-- The claims of a request whose token is valid.
abbrev pub token_claims : Outside → Request → Option LocalClaims
token_claims out req = validate_access_token out.lib (out.at 0) out.secret req.authorization

-- Every route in the group of the jobs is guarded.
abbrev IsGuarded : Route → Type 0
IsGuarded r = r.group ≡ "/jobs" → r.guarded ≡ true

All-In : (P : Route → Type 0) (rs : List Route) (r : Route) → All P rs → In r rs → P r
All-In P [] r h never = elim never [ ]
All-In P (x ∷ xs) r (h, hs) (inl e) = subst P (sym e) h
All-In P (x ∷ xs) r (h, hs) (inr more) = All-In P xs r hs more

routes-IsGuarded : All IsGuarded routes
routes-IsGuarded =
    let no_group : "" ≡ "/jobs" → false ≡ true = λ e. ground (arith, eq_iff "" "/jobs", e) in
    let jobs : "/jobs" ≡ "/jobs" → true ≡ true = λ e. refl in
    (
      no_group,
      (no_group, (no_group, (no_group, (no_group, (jobs, (jobs, (jobs, (jobs, (jobs, tt))))))))),
    )

-- A request that the router gives to the group of the jobs, and whose token is not valid, is
-- answered by 401 and makes no call of the store. The router is assumed to find none but the
-- registered routes.
pub jobs_need_token :
    (env : Env) (out : Outside) (root : Logger) (req : Request) (input : Input) (r : Route)
    (job_id : String) (w : World)
    → FindsRegistered out
    → out.find_route routes req ≡ found r job_id
    → r.group ≡ "/jobs"
    → token_claims out req ≡ none
    → (serve env out root req input w).1 ≡ http_error 401 "invalid access token" w
unfolding serve serve_route request_logger jwt_auth
jobs_need_token env out root req input r job_id w registered at jobs invalid =
    let guarded =
      All-In IsGuarded routes r routes-IsGuarded (registered routes req r job_id at) jobs in
    rw at (rw guarded (rw (jwt_auth, invalid) refl))
