-- ===== src/Handler/Users.antt =====
-- The handlers of the users in handler/routes.go, and the health check.
pub mod Invariant
pub mod Sessions
pub mod Accounts
pub mod Logins
use digital_ocean_assignment.Base.{
  ℕ, ◌+◌, ◌*◌, String, Bool, Option, none, some, ◌==◌, ◌||◌, not, if◌then◌else◌, Result, ok, err,
}
use digital_ocean_assignment.Db.Rows.{StoreUser}
use digital_ocean_assignment.Db.Session.{Env, World}
use digital_ocean_assignment.Db.Users.{create_user, get_user_by_email}
use digital_ocean_assignment.Service.Token.{
  Crypto, generate_access_token, generate_refresh_token, hash_password, compare_password,
}
use digital_ocean_assignment.Handler.Http.{AuthRequest, empty, tokens, Served, write_json}

-- 15*time.Minute and 7*24*time.Hour, in nanoseconds.
abbrev pub access_ttl : ℕ
access_ttl = 15 * 60 * 1000000000

abbrev pub refresh_ttl : ℕ
refresh_ttl = 7 * 24 * 3600 * 1000000000

abbrev pub lacks_credentials : AuthRequest → Bool
lacks_credentials req = req.email == "" || req.password == ""

unfoldable pub health_handler : World → Served
health_handler w = write_json 200 "ok" empty w

module _ (env : Env) (lib : Crypto) (at : ℕ → ℕ) (secret : String) where
  -- The two tokens, and the answer that holds them; `failure` answers an error of either.
  abbrev pub answer_with_tokens :
      (status : ℕ) (message failure user_id email : String) → World → Served
  answer_with_tokens status message failure user_id email w =
      elim (generate_access_token lib at secret user_id email access_ttl) [
        | none ↦ write_json 500 failure empty w
        | some access ↦
            elim (generate_refresh_token lib (λ k. at (2 + k)) secret user_id refresh_ttl) [
              | none ↦ write_json 500 failure empty w
              | some refresh ↦ write_json status message (tokens user_id access refresh) w
            ]
      ]

  abbrev pub registered : String → Result String × World → Served
  registered email (err e, w) = write_json 500 "failed to create user" empty w
  registered email (ok user_id, w) =
      answer_with_tokens 201 "registration successful" "failed to create user" user_id email w

  unfoldable pub register_handler : Option AuthRequest → World → Served
  unfolding create_user generate_access_token generate_refresh_token hash_password
  register_handler none w = write_json 400 "invalid request payload" empty w
  register_handler (some req) w =
      if lacks_credentials req
      then write_json 400 "email and password are required" empty w
      else let username = if req.username == "" then req.email else req.username in
        elim (hash_password lib req.password) [
          | none ↦ write_json 500 "failed to create user" empty w
          | some hashed ↦ registered req.email (create_user env req.email username hashed w)
        ]

  abbrev pub logged_in : AuthRequest → Result StoreUser × World → Served
  logged_in req (err e, w) = write_json 401 "invalid credentials" empty w
  logged_in req (ok user, w) =
      if not (compare_password lib user.password_hash req.password)
      then write_json 401 "invalid credentials" empty w
      else answer_with_tokens 200 "login successful" "failed to login" user.id req.email w

  unfoldable pub login_handler : Option AuthRequest → World → Served
  unfolding get_user_by_email generate_access_token generate_refresh_token compare_password
  login_handler none w = write_json 400 "invalid request payload" empty w
  login_handler (some req) w =
      if lacks_credentials req
      then write_json 400 "email and password are required" empty w
      else logged_in req (get_user_by_email env req.email w)
