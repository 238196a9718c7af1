-- ===== src/Tests/Tokens.antt =====
-- The tokens, with libraries that know a single set of claims, or two.
use mathlib.Core.Path.{subst}
use digital_ocean_assignment.Base.{
  ap, ℕ, ◌≡◌, refl, String, Bool, true, Option, none, some, ◌==◌, ◌&&◌, leb, ltb, ◌*◌, sym, ◌∙◌,
  arith, eq_iff, if◌then◌else◌, Bool-cases, inl, inr,
}
use digital_ocean_assignment.Db.Session.{World, on_pool}
use digital_ocean_assignment.Db.Sql.{find}
use digital_ocean_assignment.Db.Users.{select_user, get_user_by_email}
use digital_ocean_assignment.Handler.Users.{login_handler}
use digital_ocean_assignment.Service.Token.{
  Crypto, VerifiesSigned, RefusesExpired, LocalClaims, nanoseconds, generate_access_token,
  generate_refresh_token, compare_password, is_space, trim_left, trim_right, after_prefix,
  trim_prefix, trim_space,
}
use digital_ocean_assignment.Handler.Http.{
  AuthRequest, Served, jwt_auth, write_json, http_error, empty, tokens,
}
use digital_ocean_assignment.Handler.Users.Sessions.{access_token_admits, refresh_token_outlives}
use digital_ocean_assignment.Tests.Fixtures.{calm, start}

-- Claims that expire in the second 100.
abbrev pub claims_of : (email : String) → LocalClaims
claims_of email = record { subject = "ada"; expires_at = 100; issued_at = 0; email = email }

abbrev is_hundred : ℕ → Bool
is_hundred n = leb n 100 && leb 100 n

-- Whether the library signs these claims with this key.
abbrev is_signed : (email algorithm key : String) → LocalClaims → Bool
is_signed email algorithm key claims =
    algorithm == "HS256"
    && key == "secret"
    && claims.subject == "ada"
    && is_hundred claims.expires_at
    && leb claims.issued_at 0
    && claims.email == email

-- A library that knows one token.
abbrev pub small : (email : String) → Crypto
small email = record {
  sign = λ algorithm key claims. if is_signed email algorithm key claims then some "abc" else none;
  parse = λ now keyfunc token. if token == "abc" then some (claims_of email, true) else none;
  hash_password = λ password. some password;
  compare_password = λ hashed password. hashed == password;
}

small-VerifiesSigned : (email : String) → VerifiesSigned (small email)
small-VerifiesSigned email algorithm key claims token keyfunc now signed asked fresh =
    elim (Bool-cases (is_signed email algorithm key claims)) [
      | inr unsigned ↦ ground (arith, unsigned)
      | inl ours ↦
          let named : "abc" ≡ token = ground (arith, ours) in
          let known : claims_of email ≡ claims =
            ground (arith, ours, eq_iff claims.subject "ada", eq_iff claims.email email) in
          subst (λ t. (small email).parse now keyfunc t ≡ some (claims, true)) named
            (ap (λ c. some (c, true)) known)
    ]

abbrev page : Option LocalClaims → World → Served
page claims = write_json 200 "page" empty

access_token_admits_example :
    jwt_auth (small "ada@example.com") 50 "secret" "Bearer abc" page start
    ≡ write_json 200 "page" empty start
unfolding generate_access_token is_space trim_left trim_right after_prefix trim_prefix trim_space
access_token_admits_example =
    access_token_admits (small "ada@example.com") (λ k. 0) 50 100000000000 "secret" "ada"
      "ada@example.com" "Bearer abc" "abc" page start (small-VerifiesSigned "ada@example.com")
      (refl, refl) refl refl

-- A library that knows the two tokens of a login at the start of the clock.
abbrev login_claims : LocalClaims
login_claims = record {
  subject = "ada";
  expires_at = 900;
  issued_at = 0;
  email = "ada@example.com";
}

abbrev long_claims : LocalClaims
long_claims = record { subject = "ada"; expires_at = 604800; issued_at = 0; email = "" }

abbrev same_claims : LocalClaims → LocalClaims → Bool
same_claims a b =
    a.subject == b.subject
    && leb a.expires_at b.expires_at
    && leb b.expires_at a.expires_at
    && leb a.issued_at b.issued_at
    && leb b.issued_at a.issued_at
    && a.email == b.email

same_claims_lem : (a b : LocalClaims) → same_claims a b ≡ true → a ≡ b
same_claims_lem a b h =
    let subject : a.subject ≡ b.subject = ground (arith, h, eq_iff a.subject b.subject) in
    let email : a.email ≡ b.email = ground (arith, h, eq_iff a.email b.email) in
    let expires_at : a.expires_at ≡ b.expires_at = ground (arith, h) in
    let issued_at : a.issued_at ≡ b.issued_at = ground (arith, h) in
    ground (arith, subject, email, expires_at, issued_at)

abbrev unless_expired : ℕ → LocalClaims → Option (LocalClaims × Bool)
unless_expired now claims =
    if ltb now (claims.expires_at * nanoseconds) then some (claims, true) else none

abbrev known_token : String → Option LocalClaims
known_token token =
    if token == "abc" then some login_claims else if token == "xyz" then some long_claims else none

abbrev parse_known : ℕ → Option LocalClaims → Option (LocalClaims × Bool)
parse_known now none = none
parse_known now (some claims) = unless_expired now claims

abbrev pair : Crypto
pair = record {
  sign = λ algorithm key claims.
      if same_claims claims login_claims
      then some "abc"
      else if same_claims claims long_claims
      then some "xyz"
      else none;
  parse = λ now keyfunc token. parse_known now (known_token token);
  hash_password = λ password. some password;
  compare_password = λ hashed password. hashed == password;
}

pair_parse :
    (algorithm key : String) (claims : LocalClaims) (token : String)
    (keyfunc : String → Option String) (now : ℕ)
    → pair.sign algorithm key claims ≡ some token
    → pair.parse now keyfunc token ≡ unless_expired now claims
pair_parse algorithm key claims token keyfunc now signed =
    elim (Bool-cases (same_claims claims login_claims)) [
      | inl first ↦
          let named : "abc" ≡ token = ground (arith, first) in
          subst (λ t. pair.parse now keyfunc t ≡ unless_expired now claims) named
            (ap (unless_expired now) (sym (same_claims_lem claims login_claims first)))
      | inr other ↦ elim (Bool-cases (same_claims claims long_claims)) [
        | inl second ↦
            let named : "xyz" ≡ token = ground (arith, other, second) in
            subst (λ t. pair.parse now keyfunc t ≡ unless_expired now claims) named
              (ap (unless_expired now) (sym (same_claims_lem claims long_claims second)))
        | inr neither ↦ ground (arith, other, neither)
      ]
    ]

pair-VerifiesSigned : VerifiesSigned pair
pair-VerifiesSigned algorithm key claims token keyfunc now signed asked fresh =
    pair_parse algorithm key claims token keyfunc now signed ∙ rw fresh refl

pair-RefusesExpired : RefusesExpired pair
pair-RefusesExpired algorithm key claims token keyfunc now signed asked over =
    pair_parse algorithm key claims token keyfunc now signed ∙ rw over refl

abbrev ada_login : AuthRequest
ada_login = record { email = "ada@example.com"; password = "hash"; username = "" }

ada_logged_in :
    (login_handler calm pair (λ k. 0) "secret" (some ada_login) start).0.content
    ≡ tokens "ada" "abc" "xyz"
unfolding login_handler get_user_by_email select_user find on_pool compare_password
    generate_access_token generate_refresh_token
ada_logged_in = refl

refresh_token_outlives_example :
    (jwt_auth pair 1000000000000 "secret" "Bearer abc" page start
      ≡ http_error 401 "invalid access token" start)
    × (jwt_auth pair 1000000000000 "secret" "Bearer xyz" page start
        ≡ write_json 200 "page" empty start)
unfolding is_space trim_left trim_right after_prefix trim_prefix trim_space
refresh_token_outlives_example =
    refresh_token_outlives calm pair (λ k. 0) 1000000000000 "secret" ada_login "ada" "abc" "xyz"
      "Bearer abc" "Bearer xyz" page start start pair-VerifiesSigned pair-RefusesExpired
      ada_logged_in (refl, refl) (refl, refl) refl refl
