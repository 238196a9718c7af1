-- ===== src/Service/Token.antt =====
-- service/token.go and service/auth.go. golang-jwt and bcrypt are not part of the repository: they
-- are the parameter `Crypto`.
use digital_ocean_assignment.Base.{
  ℕ, ◌+◌, ◌*◌, ◌/◌, String, Bool, true, false, Option, none, some, ◌≡◌, ◌||◌, ◌&&◌, ◌==◌, ltb, leb,
  if◌then◌else◌,
}
use Prim.Native.Char.{Char, code}
use Prim.Native.Nat.{compare, Ordering}

-- A `jwt.NumericDate` is in seconds, and the clock in nanoseconds.
pub record LocalClaims : Type 0 where
  pub subject : String
  pub expires_at : ℕ
  pub issued_at : ℕ
  pub email : String

abbrev pub nanoseconds : ℕ
nanoseconds = 1000000000

-- `jwt.NewNumericDate` cuts a time down to its second.
abbrev pub numeric_date : ℕ → ℕ
numeric_date time = time / nanoseconds

abbrev pub hs256 : String
hs256 = "HS256"

-- `sign` is `SignedString` of a token with an algorithm, a key and claims. `parse` is
-- `ParseWithClaims` at a time: it asks its function for the key of the token's algorithm, and
-- answers with the claims and `token.Valid`, or with an error.
pub record Crypto : Type 0 where
  pub sign : (algorithm key : String) → LocalClaims → Option String
  pub parse : ℕ → (String → Option String) → String → Option (LocalClaims × Bool)
  pub hash_password : String → Option String
  pub compare_password : (hashed password : String) → Bool

-- Documented behaviour of golang-jwt: a token parses, before it expires, to the claims that were
-- signed, if the function answers its algorithm with the key of the signature.
abbrev pub VerifiesSigned : Crypto → Type 0
VerifiesSigned lib =
    (algorithm key : String) (claims : LocalClaims) (token : String)
    (keyfunc : String → Option String) (now : ℕ)
    → lib.sign algorithm key claims ≡ some token
    → keyfunc algorithm ≡ some key
    → ltb now (claims.expires_at * nanoseconds) ≡ true
    → lib.parse now keyfunc token ≡ some (claims, true)

-- Documented behaviour of golang-jwt: a token that has expired is an error.
abbrev pub RefusesExpired : Crypto → Type 0
RefusesExpired lib =
    (algorithm key : String) (claims : LocalClaims) (token : String)
    (keyfunc : String → Option String) (now : ℕ)
    → lib.sign algorithm key claims ≡ some token
    → keyfunc algorithm ≡ some key
    → ltb now (claims.expires_at * nanoseconds) ≡ false
    → lib.parse now keyfunc token ≡ none

-- Documented behaviour of golang-jwt: HS256 signs with any key of bytes.
abbrev pub Signs : Crypto → Type 0
Signs lib =
    (key : String) (claims : LocalClaims)
    → (token : String) × (lib.sign hs256 key claims ≡ some token)

-- `at` gives the readings of the clock, one after the other.
module _ (lib : Crypto) (at : ℕ → ℕ) where
  unfoldable pub generate_access_token : (secret subject email : String) (ttl : ℕ) → Option String
  generate_access_token secret subject email ttl = lib.sign hs256 secret (record {
    subject = subject;
    expires_at = numeric_date (at 0 + ttl);
    issued_at = numeric_date (at 1);
    email = email;
  })

  unfoldable pub generate_refresh_token : (secret subject : String) (ttl : ℕ) → Option String
  generate_refresh_token secret subject ttl = lib.sign hs256 secret (record {
    subject = subject;
    expires_at = numeric_date (at 0 + ttl);
    issued_at = numeric_date (at 1);
    email = "";
  })

infix 50 ◌=ᶜ◌
abbrev ◌=ᶜ◌ : ℕ → ℕ → Bool
a =ᶜ b = elim (compare a b) [ Ordering.eq ↦ true | _ ↦ false ]

-- `unicode.IsSpace`.
unfoldable pub is_space : Char → Bool
is_space c =
    let n = code c in
    leb 9 n && leb n 13
    || n =ᶜ 32
    || n =ᶜ 0x85
    || n =ᶜ 0xa0
    || n =ᶜ 0x1680
    || leb 0x2000 n && leb n 0x200a
    || n =ᶜ 0x2028
    || n =ᶜ 0x2029
    || n =ᶜ 0x202f
    || n =ᶜ 0x205f
    || n =ᶜ 0x3000

-- `strings.TrimSpace`, from the left and from the right.
unfoldable pub trim_left : String → String
trim_left String.[] = ""
trim_left (String.◌∷◌ c s) = if is_space c then trim_left s else String.◌∷◌ c s

abbrev pub is_empty : String → Bool
is_empty String.[] = true
is_empty (String.◌∷◌ c s) = false

unfoldable pub trim_right : String → String
trim_right String.[] = ""
trim_right (String.◌∷◌ c s) =
    let rest = trim_right s in if is_space c && is_empty rest then "" else String.◌∷◌ c rest

unfoldable pub trim_space : String → String
unfolding trim_left trim_right is_space
trim_space s = trim_right (trim_left s)

-- What follows a prefix.
unfoldable pub after_prefix : String → String → Option String
after_prefix String.[] s = some s
after_prefix (String.◌∷◌ p ps) String.[] = none
after_prefix (String.◌∷◌ p ps) (String.◌∷◌ c s) =
    if code p =ᶜ code c then after_prefix ps s else none

-- `strings.TrimPrefix`.
unfoldable pub trim_prefix : String → String → String
unfolding after_prefix
trim_prefix prefix s = elim (after_prefix prefix s) [ none ↦ s | some rest ↦ rest ]

-- The function that picks the key: only HS256 is answered.
abbrev pub hs256_key : String → String → Option String
hs256_key secret algorithm = if algorithm == hs256 then some secret else none

abbrev pub valid_claims : Option (LocalClaims × Bool) → Option LocalClaims
valid_claims none = none
valid_claims (some (claims, false)) = none
valid_claims (some (claims, true)) = some claims

-- An error is `none`: its text is not read.
unfoldable pub validate_access_token :
    Crypto → ℕ → (secret token_string : String) → Option LocalClaims
unfolding trim_space trim_prefix
validate_access_token lib now secret token_string =
    if token_string == ""
    then none
    else valid_claims
        (lib.parse now (hs256_key secret) (trim_space (trim_prefix "Bearer" token_string)))

unfoldable pub hash_password : Crypto → String → Option String
hash_password lib password = lib.hash_password password

unfoldable pub compare_password : Crypto → (hashed_password password : String) → Bool
compare_password lib hashed_password password = lib.compare_password hashed_password password
