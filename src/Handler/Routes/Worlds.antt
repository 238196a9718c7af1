-- ===== src/Handler/Routes/Worlds.antt =====
-- handler/routes.go and cmd/main.go: the session behind a request, by the handler that serves it.
use mathlib.Core.Path.{subst}
use digital_ocean_assignment.Base.{
  ◌≡◌, refl, sym, ap, inl, inr, String, Bool-cases, Option, none, some, Option-cases,
}
use digital_ocean_assignment.Base.Int.{ℤ, pos}
use digital_ocean_assignment.Base.Strconv.{atoi}
use digital_ocean_assignment.Db.Session.{Env, World}
use digital_ocean_assignment.Service.Token.{LocalClaims}
use digital_ocean_assignment.Handler.Http.{
  Served, Response, AuthRequest, RegisterJobRequest, UpdateJobRequest, jwt_auth,
}
use digital_ocean_assignment.Handler.Users.{health_handler, register_handler, login_handler}
use digital_ocean_assignment.Handler.Jobs.{
  create_job_handler, list_jobs_handler, get_job_handler, update_job_handler, delete_job_handler,
}
use digital_ocean_assignment.Handler.Jobs.Access.{jobs_need_user}
use digital_ocean_assignment.Handler.Logging.{
  Logger, Request, Context, background, request_fields, request_logger,
}
use digital_ocean_assignment.Handler.Routes.{
  Handles, redirect, swagger, health, register, login, create, list, get, update, delete, Route,
  routes, Input, Match, found, refused, Outside, handle, serve_route, serve_match, serve,
}
use digital_ocean_assignment.Handler.Routes.Guards.{token_claims}

module _ (env : Env) (out : Outside) (P : World → Type 0) (w : World) where
  -- The handlers of the jobs with these claims lead to a session with P.
  abbrev pub JobsLead : Option LocalClaims → Type 0
  JobsLead claims =
      (reg : Option RegisterJobRequest) (change : Option UpdateJobRequest) (page page_size : ℤ)
      (job_id : String)
      → P (create_job_handler env out.sha256_hex claims reg w).1
        × P (list_jobs_handler env claims page page_size w).1
        × P (get_job_handler env claims job_id w).1
        × P (update_job_handler env claims job_id change w).1
        × P (delete_job_handler env claims job_id w).1

  abbrev pub UsersLead : Type 0
  UsersLead =
      (req : Option AuthRequest)
      → P (register_handler env out.lib out.at out.secret req w).1
        × P (login_handler env out.lib out.at out.secret req w).1

  stays : (s : Served) (r : Response) → P w → s ≡ (r, w) → P s.1
  stays s r h e = subst P (sym (ap (λ x. x.1) e)) h

  JobsLead-none : P w → JobsLead none
  JobsLead-none h reg change page page_size job_id =
      let (c, l, g, u, d) =
        jobs_need_user env out.sha256_hex none reg change page page_size job_id w refl in
      (stays _ _ h c, stays _ _ h l, stays _ _ h g, stays _ _ h u, stays _ _ h d)

  handle_world :
      (h : Handles) (req : Request) (input : Input) (ctx : Context)
      → P w
      → UsersLead
      → JobsLead ctx.claims
      → P (handle env out h req input ctx w).1
  unfolding handle health_handler
  handle_world redirect req input ctx stay users jobs = stay
  handle_world swagger req input ctx stay users jobs = stay
  handle_world health req input ctx stay users jobs = stay
  handle_world register req input ctx stay users jobs = (users (out.decode_auth input.body)).0
  handle_world login req input ctx stay users jobs = (users (out.decode_auth input.body)).1
  handle_world create req input ctx stay users jobs =
      (jobs (out.decode_register input.body) none (pos 0) (pos 0) "").0
  handle_world list req input ctx stay users jobs =
      (jobs none none (atoi input.page).0 (atoi input.page_size).0 "").1
  handle_world get req input ctx stay users jobs = (jobs none none (pos 0) (pos 0) input.job_id).2
  handle_world update req input ctx stay users jobs =
      (jobs none (out.decode_update input.body) (pos 0) (pos 0) input.job_id).3
  handle_world delete req input ctx stay users jobs =
      (jobs none none (pos 0) (pos 0) input.job_id).4

  -- The claims of a valid token reach the handlers of the jobs.
  serve_route_world :
      (r : Route) (req : Request) (input : Input) (logger : Option Logger)
      → P w
      → UsersLead
      → ((claims : LocalClaims) → token_claims out req ≡ some claims → JobsLead (some claims))
      → P (serve_route env out r req input (record { logger = logger; claims = none }) w).1
  unfolding serve_route
  serve_route_world r req input logger stay users jobs = elim (Bool-cases r.guarded) [
    | inr free ↦ rw free (handle_world r.handles req input _ stay users (JobsLead-none stay))
    | inl guarded ↦ rw guarded (elim (Option-cases (token_claims out req)) [
      | inl invalid ↦ rw (jwt_auth, invalid) stay
      | inr (claims, valid) ↦
          rw (jwt_auth, valid) (handle_world r.handles req input _ stay users (jobs claims valid))
    ])
  ]

  -- What holds before a request, and after each handler that may serve it, holds after it.
  pub serve_world :
      (root : Logger) (req : Request) (input : Input)
      → P w
      → UsersLead
      → ((claims : LocalClaims) → token_claims out req ≡ some claims → JobsLead (some claims))
      → P (serve env out root req input w).1.1
  unfolding serve request_logger
  serve_world root req input stay users jobs = go (out.find_route routes req)
    where
      go :
          (m : Match)
          → P
              (serve_match env out m req input
                (record background { logger = some (request_fields root req) })
                w).1
      go (found r job_id) =
          serve_route_world r req (record input { job_id = job_id }) _ stay users jobs
      go (refused response) = stay
