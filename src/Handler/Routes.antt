-- ===== src/Handler/Routes.antt =====
-- `RegisterRoutes` of handler/routes.go and the routes of cmd/main.go. The router is go-chi, a
-- parameter: it finds the route of a request among those registered.
pub mod Guards
pub mod Worlds
pub mod Isolation
use digital_ocean_assignment.Base.{
  ℕ, String, Bool, true, false, Option, none, some, List, [], ◌∷◌, ◌++◌, map, if◌then◌else◌, ◌≡◌,
  ◌⊎◌,
}
use digital_ocean_assignment.Base.Int.{ℤ}
use digital_ocean_assignment.Base.Utf8.{Bytes}
use digital_ocean_assignment.Base.Strconv.{atoi}
use digital_ocean_assignment.Db.Session.{Env, World}
use digital_ocean_assignment.Service.Token.{Crypto, LocalClaims}
use digital_ocean_assignment.Handler.Http.{
  AuthRequest, RegisterJobRequest, UpdateJobRequest, Response, location, Served, jwt_auth,
}
use digital_ocean_assignment.Handler.Users.{health_handler, register_handler, login_handler}
use digital_ocean_assignment.Handler.Jobs.{
  create_job_handler, list_jobs_handler, get_job_handler, update_job_handler, delete_job_handler,
}
use digital_ocean_assignment.Handler.Logging.{
  Logger, Line, background, Request, Endpoint, request_logger,
}

pub data Handles : Type 0 where
  redirect swagger health register login : Handles
  create list get update delete : Handles

-- A route is guarded when its group uses the authentication middleware.
pub record Route : Type 0 where
  pub group : String
  pub method : String
  pub pattern : String
  pub guarded : Bool
  pub handles : Handles

abbrev pub on : String → String → Handles → Route
on method pattern handles = record {
  group = "";
  method = method;
  pattern = pattern;
  guarded = false;
  handles = handles;
}

abbrev pub guard : String → Route → Route
guard group r = record r { group = group; guarded = true }

-- `r.Route(group, ...)` whose body begins with `r.Use(authMiddleware)`.
abbrev pub guarded_group : String → List Route → List Route
guarded_group group routes = map (guard group) routes

-- `RegisterRoutes`.
abbrev pub register_routes : List Route
register_routes =
    on "GET" "/health" health
    ∷ on "POST" "/register" register
    ∷ on "POST" "/login" login
    ∷ guarded_group "/jobs" (
        on "POST" "/" create
        ∷ on "GET" "/" list
        ∷ on "GET" "/{jobID}" get
        ∷ on "PUT" "/{jobID}" update
        ∷ on "DELETE" "/{jobID}" delete
        ∷ [])

-- The routes of the program, those of cmd/main.go first.
abbrev pub routes : List Route
routes = on "GET" "/" redirect ∷ on "GET" "/swagger/*" swagger ∷ register_routes

-- What a handler reads of a request beside its context: the `jobID` of its path, its query and its
-- body.
pub record Input : Type 0 where
  pub job_id : String
  pub page : String
  pub page_size : String
  pub body : Bytes

-- What the router makes of a request.
pub data Match : Type 0 where
  found : Route → (job_id : String) → Match
  refused : Response → Match

-- The code outside the repository: the router, the decoder of encoding/json at the three requests,
-- the pages of swagger, crypto, the clock, and the variable JWT_SECRET.
pub record Outside : Type 0 where
  pub find_route : List Route → Request → Match
  pub decode_auth : Bytes → Option AuthRequest
  pub decode_register : Bytes → Option RegisterJobRequest
  pub decode_update : Bytes → Option UpdateJobRequest
  pub swagger_page : Request → Response
  pub lib : Crypto
  pub sha256_hex : Bytes → String
  pub at : ℕ → ℕ
  pub secret : String

module _ (env : Env) (out : Outside) where
  unfoldable pub handle : Handles → Request → Input → Endpoint
  unfolding health_handler register_handler login_handler create_job_handler list_jobs_handler
      get_job_handler update_job_handler delete_job_handler
  handle redirect req input ctx w =
      (record { status = 302; message = ""; content = location "/swagger/index.html" }, w)
  handle swagger req input ctx w = (out.swagger_page req, w)
  handle health req input ctx w = health_handler w
  handle register req input ctx w =
      register_handler env out.lib out.at out.secret (out.decode_auth input.body) w
  handle login req input ctx w =
      login_handler env out.lib out.at out.secret (out.decode_auth input.body) w
  handle create req input ctx w =
      create_job_handler env out.sha256_hex ctx.claims (out.decode_register input.body) w
  handle list req input ctx w =
      list_jobs_handler env ctx.claims (atoi input.page).0 (atoi input.page_size).0 w
  handle get req input ctx w = get_job_handler env ctx.claims input.job_id w
  handle update req input ctx w =
      update_job_handler env ctx.claims input.job_id (out.decode_update input.body) w
  handle delete req input ctx w = delete_job_handler env ctx.claims input.job_id w

  -- The handler behind the middleware of its route's group.
  unfoldable pub serve_route : Route → Request → Input → Endpoint
  unfolding handle jwt_auth
  serve_route r req input ctx w =
      if r.guarded
      then jwt_auth out.lib (out.at 0) out.secret req.authorization
          (λ claims. handle r.handles req input (record ctx { claims = claims })) w
      else handle r.handles req input ctx w

  abbrev pub serve_match : Match → Request → Input → Endpoint
  serve_match (found r job_id) req input ctx w =
      serve_route r req (record input { job_id = job_id }) ctx w
  serve_match (refused response) req input ctx w = (response, w)

  -- A request to the program of cmd/main.go: the logging middleware, the router and the handler.
  unfoldable pub serve : Logger → Request → Input → World → List Line × Served
  unfolding serve_route request_logger
  serve root req input w =
      request_logger root (λ r. serve_match (out.find_route routes r) r input) req background w
