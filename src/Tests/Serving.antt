-- ===== src/Tests/Serving.antt =====
-- Requests to the whole program, at concrete inputs.
use digital_ocean_assignment.Base.{
  ◌≡◌, refl, sym, ap, inl, inr, String, Bool-cases, none, some, List, [], ◌∷◌, if◌then◌else◌, ◌==◌,
  ◌&&◌, ◌*◌, ◌-◌, arith,
}
use digital_ocean_assignment.Base.Int.{pos}
use digital_ocean_assignment.Base.Utf8.{bytes}
use digital_ocean_assignment.Base.Strconv.{atoi}
use digital_ocean_assignment.Json.{marshal_int}
use digital_ocean_assignment.Service.Token.{
  LocalClaims, validate_access_token, is_space, trim_left, trim_right, after_prefix, trim_prefix,
  trim_space,
}
use digital_ocean_assignment.Handler.Http.{http_error, empty, get_user_id}
use digital_ocean_assignment.Handler.Jobs.{at_least_one, offset_of}
use digital_ocean_assignment.Handler.Jobs.Spared.{others}
use digital_ocean_assignment.Handler.Jobs.Paging.{offset_of-atoi}
use digital_ocean_assignment.Handler.Logging.{Logger, fields, Request}
use digital_ocean_assignment.Handler.Routes.{
  Route, on, guard, list, Input, Match, found, refused, Outside, serve,
}
use digital_ocean_assignment.Handler.Routes.Guards.{In, token_claims, jobs_need_token}
use digital_ocean_assignment.Handler.Routes.Isolation.{serve_spares_others}
use digital_ocean_assignment.Tests.Fixtures.{calm, start, tables}
use digital_ocean_assignment.Tests.Tokens.{small}
use digital_ocean_assignment.Tests.Requests.{reminder}

-- A router that knows no parameters: a route of a group is that of its root.
abbrev path_of : Route → String
path_of r = if r.group == "" then r.pattern else r.group

router : List Route → Request → Match
router [] req = refused (record { status = 404; message = "404 page not found"; content = empty })
router (r ∷ rs) req =
    let more = router rs req in
    if r.method == req.method && path_of r == req.path then found r "" else more

found_route : Match → Route → Route
found_route (found r job_id) other = r
found_route (refused response) other = other

router-registered :
    (rs : List Route) (req : Request) (r : Route) (job_id : String)
    → router rs req ≡ found r job_id
    → In r rs
unfolding router found_route
router-registered [] req r job_id e = ground (arith, e)
router-registered (x ∷ xs) req r job_id e =
    elim (Bool-cases (x.method == req.method && path_of x == req.path)) [
      | inl this ↦ inl (sym (ap (λ m. found_route m x) (rw this at e)))
      | inr other ↦ inr (router-registered xs req r job_id (rw other at e))
    ]

abbrev machine : Outside
machine = record {
  find_route = router;
  decode_auth = λ b. none;
  decode_register = λ b. some reminder;
  decode_update = λ b. none;
  swagger_page = λ req. record { status = 200; message = ""; content = empty };
  lib = small "ada@example.com";
  sha256_hex = λ b. "hash";
  at = λ k. 50;
  secret = "secret";
}

abbrev logger : Logger
logger = fields []

abbrev get_jobs : String → Request
get_jobs authorization = record {
  method = "GET";
  path = "/jobs";
  remote_addr = "127.0.0.1";
  authorization = authorization;
}

abbrev post_jobs : Request
post_jobs = record (get_jobs "Bearer abc") { method = "POST" }

abbrev input : Input
input = record { job_id = ""; page = "2"; page_size = ""; body = [] }

jobs_need_token_example :
    (serve calm machine logger (get_jobs "") input start).1
    ≡ http_error 401 "invalid access token" start
unfolding router validate_access_token
jobs_need_token_example =
    jobs_need_token calm machine logger (get_jobs "") input (guard "/jobs" (on "GET" "/" list)) ""
      start router-registered refl refl refl

ada_signed :
    (claims : LocalClaims)
    → token_claims machine post_jobs ≡ some claims
    → (claims.subject ≡ "ada") × (calm.uuid_in "ada" ≡ some "ada")
unfolding validate_access_token is_space trim_left trim_right after_prefix trim_prefix trim_space
ada_signed claims valid = (sym (ap get_user_id valid), refl)

serve_spares_others_example :
    others "ada" (serve calm machine logger post_jobs input start).1.1.db ≡ others "ada" tables
serve_spares_others_example =
    serve_spares_others calm machine logger post_jobs input "ada" start (λ n db. refl) (λ n. refl)
      tt ada_signed

offset_of-atoi_example :
    let size = at_least_one (pos 20) (atoi "25").0 in
    (size ≡ pos 25) × (offset_of (at_least_one (pos 1) (atoi "3").0) size ≡ pos ((3 - 1) * 25))
unfolding bytes marshal_int
offset_of-atoi_example =
    offset_of-atoi "3" "25" 3 25 refl refl (omega arith) (omega arith) (omega arith) (omega arith)
      (omega arith)
