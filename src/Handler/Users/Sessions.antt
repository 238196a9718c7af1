-- ===== src/Handler/Users/Sessions.antt =====
-- handler/routes.go and service/token.go: the tokens that a login answers with, at the check of middleware/jwt_auth.go.
use mathlib.Core.Path.{subst}
use digital_ocean_assignment.Base.{
  ℕ, ◌+◌, ◌*◌, ◌/◌, ◌≡◌, refl, ap, ◌∙◌, inl, inr, String, true, false, Bool-cases, Option, none,
  some, ◌==◌, ltb, arith, Result, ok, err,
}
use digital_ocean_assignment.Db.Rows.{StoreUser}
use digital_ocean_assignment.Db.Session.{Env, World}
use digital_ocean_assignment.Db.Users.{get_user_by_email}
use digital_ocean_assignment.Service.Token.{
  Crypto, VerifiesSigned, RefusesExpired, LocalClaims, nanoseconds, hs256, hs256_key,
  generate_access_token, generate_refresh_token, trim_prefix, trim_space, validate_access_token,
  compare_password,
}
use digital_ocean_assignment.Handler.Http.{
  AuthRequest, Served, tokens, empty, write_json, http_error, jwt_auth,
}
use digital_ocean_assignment.Handler.Users.{
  access_ttl, refresh_ttl, lacks_credentials, answer_with_tokens, logged_in, login_handler,
}

-- The header carries a token.
abbrev pub Carries : (authorization token : String) → Type 0
Carries authorization token =
    (trim_space (trim_prefix "Bearer" authorization) ≡ token) × ((authorization == "") ≡ false)

jwt_auth-signed :
    (lib : Crypto) (now : ℕ) (secret authorization token : String) (claims : LocalClaims)
    (next : Option LocalClaims → World → Served) (w : World)
    → VerifiesSigned lib
    → Carries authorization token
    → lib.sign hs256 secret claims ≡ some token
    → ltb now (claims.expires_at * nanoseconds) ≡ true
    → jwt_auth lib now secret authorization next w ≡ next (some claims) w
unfolding jwt_auth validate_access_token
jwt_auth-signed lib now secret authorization token claims next w verifies (bare, given) signed
      fresh =
    ground
      (arith, bare, verifies hs256 secret claims token (hs256_key secret) now signed refl fresh)

jwt_auth-expired :
    (lib : Crypto) (now : ℕ) (secret authorization token : String) (claims : LocalClaims)
    (next : Option LocalClaims → World → Served) (w : World)
    → RefusesExpired lib
    → Carries authorization token
    → lib.sign hs256 secret claims ≡ some token
    → ltb now (claims.expires_at * nanoseconds) ≡ false
    → jwt_auth lib now secret authorization next w ≡ http_error 401 "invalid access token" w
unfolding jwt_auth validate_access_token
jwt_auth-expired lib now secret authorization token claims next w refuses (bare, given) signed
      expired =
    ground
      (arith, bare, refuses hs256 secret claims token (hs256_key secret) now signed refl expired)

-- The claims of a token that is made at some readings of the clock: its times in whole seconds.
abbrev pub claims_at : (at : ℕ → ℕ) (ttl : ℕ) (subject email : String) → LocalClaims
claims_at at ttl subject email = record {
  subject = subject;
  expires_at = (at 0 + ttl) / 1000000000;
  issued_at = at 1 / 1000000000;
  email = email;
}

-- Until the second in which it expires, the access token of a user opens the handlers to that user,
-- under the email of the token. The token is assumed to be the header's, after "Bearer" and spaces.
pub access_token_admits :
    (lib : Crypto) (at : ℕ → ℕ) (now ttl : ℕ) (secret subject email authorization token : String)
    (next : Option LocalClaims → World → Served) (w : World)
    → VerifiesSigned lib
    → Carries authorization token
    → generate_access_token lib at secret subject email ttl ≡ some token
    → ltb now ((at 0 + ttl) / 1000000000 * 1000000000) ≡ true
    → jwt_auth lib now secret authorization next w ≡ next (some (claims_at at ttl subject email)) w
unfolding generate_access_token
access_token_admits lib at now ttl secret subject email authorization token next w =
    jwt_auth-signed lib now secret authorization token (claims_at at ttl subject email) next w

tokens_same :
    {a b c a' b' c' : String} → tokens a b c ≡ tokens a' b' c' → (a ≡ a') × (b ≡ b') × (c ≡ c')
tokens_same e = (cc e, cc e, cc e)

module _ (env : Env) (lib : Crypto) (at : ℕ → ℕ) (secret : String) where
  -- The two tokens of an answer, as they were signed.
  abbrev pub Signed : (id access refresh email : String) → Type 0
  Signed id access refresh email =
      (lib.sign hs256 secret (claims_at at access_ttl id email) ≡ some access)
      × (lib.sign hs256 secret (claims_at (λ k. at (2 + k)) refresh_ttl id "") ≡ some refresh)

  answer_with_tokens-Signed :
      {id access refresh : String} (status : ℕ) (message failure user_id email : String) (w : World)
      → (answer_with_tokens env lib at secret status message failure user_id email w).0.content
        ≡ tokens id access refresh
      → Signed id access refresh email
  unfolding generate_access_token generate_refresh_token
  answer_with_tokens-Signed {id} {access} {refresh} status message failure user_id email w =
      go (lib.sign hs256 secret (claims_at at access_ttl user_id email))
        (lib.sign hs256 secret (claims_at (λ k. at (2 + k)) refresh_ttl user_id "")) refl refl
    where
      go :
          (first second : Option String)
          → lib.sign hs256 secret (claims_at at access_ttl user_id email) ≡ first
          → lib.sign hs256 secret (claims_at (λ k. at (2 + k)) refresh_ttl user_id "") ≡ second
          → let end : Served = elim first [
            | none ↦ write_json 500 failure empty w
            | some a ↦ elim second [
              | none ↦ write_json 500 failure empty w
              | some r ↦ write_json status message (tokens user_id a r) w
            ]
          ] in
            end.0.content ≡ tokens id access refresh → Signed id access refresh email
      go none second e e' h = ground (arith, h)
      go (some a) none e e' h = ground (arith, h)
      go (some a) (some r) e e' h =
          let (same, first, next) = tokens_same h in
          subst (λ i. Signed i access refresh email) same (e ∙ ap some first, e' ∙ ap some next)

  logged_in-Signed :
      {id access refresh : String} (req : AuthRequest) (r : Result StoreUser × World)
      → (logged_in env lib at secret req r).0.content ≡ tokens id access refresh
      → Signed id access refresh req.email
  unfolding compare_password
  logged_in-Signed req (err e, w) h = ground (arith, h)
  logged_in-Signed req (ok user, w) h =
      elim (Bool-cases (lib.compare_password user.password_hash req.password)) [
        | inl matches ↦
            answer_with_tokens-Signed 200 "login successful" "failed to login" user.id req.email w
              (rw matches at h)
        | inr differs ↦ ground (arith, rw differs at h)
      ]

  login_handler-Signed :
      {id access refresh : String} (req : AuthRequest) (w : World)
      → (login_handler env lib at secret (some req) w).0.content ≡ tokens id access refresh
      → Signed id access refresh req.email
  unfolding login_handler
  login_handler-Signed req w h = elim (Bool-cases (lacks_credentials req)) [
    | inl lacking ↦ ground (arith, rw lacking at h)
    | inr complete ↦ logged_in-Signed req (get_user_by_email env req.email w) (rw complete at h)
  ]

-- The refresh token that a login answers with outlives the access token: when the access token has
-- expired, seven days not being over, a request with the access token is answered by 401 and one
-- with the refresh token is let through to the handlers for the same user, with no email. Each token
-- is assumed to be that of its header, after "Bearer" and spaces.
pub refresh_token_outlives :
    (env : Env) (lib : Crypto) (at : ℕ → ℕ) (now : ℕ) (secret : String) (req : AuthRequest)
    (id access refresh access_header refresh_header : String)
    (next : Option LocalClaims → World → Served) (w later : World)
    → VerifiesSigned lib
    → RefusesExpired lib
    → (login_handler env lib at secret (some req) w).0.content ≡ tokens id access refresh
    → Carries access_header access
    → Carries refresh_header refresh
    → ltb now ((at 0 + 15 * 60 * 1000000000) / 1000000000 * 1000000000) ≡ false
    → ltb now ((at 2 + 7 * 24 * 3600 * 1000000000) / 1000000000 * 1000000000) ≡ true
    → (jwt_auth lib now secret access_header next later
        ≡ http_error 401 "invalid access token" later)
      × (jwt_auth lib now secret refresh_header next later
          ≡ next
              (some (record {
                subject = id;
                expires_at = (at 2 + 7 * 24 * 3600 * 1000000000) / 1000000000;
                issued_at = at 3 / 1000000000;
                email = "";
              }))
              later)
refresh_token_outlives env lib at now secret req id access refresh access_header refresh_header next
      w later verifies refuses given carries carries' over fresh =
    let (signed, signed') = login_handler-Signed env lib at secret req w given in
    (
      jwt_auth-expired lib now secret access_header access (claims_at at access_ttl id req.email)
          next later refuses carries signed over,
      jwt_auth-signed lib now secret refresh_header refresh
          (claims_at (λ k. at (2 + k)) refresh_ttl id "") next later verifies carries' signed'
          fresh,
    )
