-- ===== src/Handler/Http.antt =====
-- The requests and the answers of handler/routes.go, `getUserID`, `writeJSON`, and the check of the
-- token in middleware/jwt_auth.go. The decoding of a body by encoding/json is a parameter: a
-- handler is given what it yields, with `none` for an error.
use digital_ocean_assignment.Base.{ℕ, String, Option, none, some, List, []}
use digital_ocean_assignment.Base.Int.{ℤ}
use digital_ocean_assignment.Base.Utf8.{Bytes}
use digital_ocean_assignment.Db.Rows.{StoreJob}
use digital_ocean_assignment.Db.Session.{World}
use digital_ocean_assignment.Service.Token.{Crypto, LocalClaims, validate_access_token}

pub record AuthRequest : Type 0 where
  pub email : String
  pub password : String
  pub username : String

pub record RegisterJobRequest : Type 0 where
  pub type : String
  pub name : String
  pub webhook_url : String
  pub version : Option ℤ
  pub max_retries : Option ℤ
  pub timeout_seconds : Option ℤ

pub record UpdateJobRequest : Type 0 where
  pub name : Option String
  pub webhook_url : Option String
  pub version : Option ℤ
  pub max_retries : Option ℤ
  pub timeout_seconds : Option ℤ

-- A job as the API shows it: a NULL error is the empty string.
pub record JobView : Type 0 where
  pub id : String
  pub type : String
  pub name : String
  pub webhook_url : String
  pub version : ℤ
  pub max_retries : ℤ
  pub timeout_seconds : ℤ
  pub state : String
  pub attempts : ℤ
  pub scheduled_at : ℕ
  pub payload : Bytes
  pub last_error : Bytes
  pub result : Option Bytes

abbrev pub nullable_string : Option Bytes → Bytes
nullable_string none = []
nullable_string (some s) = s

abbrev pub view : StoreJob → JobView
view job = record {
  id = job.id;
  type = job.type;
  name = job.name;
  webhook_url = job.webhook_url;
  version = job.version;
  max_retries = job.max_retries;
  timeout_seconds = job.timeout_seconds;
  state = job.state;
  attempts = job.attempts;
  scheduled_at = job.scheduled_at;
  payload = job.payload;
  last_error = nullable_string job.last_error;
  result = job.result;
}

-- The `Data` of an answer, the target of a redirection, or a plain text in place of an envelope: the
-- message with a newline.
pub data Content : Type 0 where
  empty : Content
  tokens : (user_id access_token refresh_token : String) → Content
  job_state : (job_id state : String) → Content
  job_view : JobView → Content
  job_views : List JobView → Content
  location : String → Content
  plain_text : Content

-- A status with its `jsonResponse`.
pub record Response : Type 0 where
  pub status : ℕ
  pub message : String
  pub content : Content

-- A handler, with the session that it works on.
abbrev pub Served : Type 0
Served = Response × World

abbrev pub write_json : ℕ → String → Content → World → Served
write_json status message content w =
    (record { status = status; message = message; content = content }, w)

-- `http.Error`.
abbrev pub http_error : ℕ → String → World → Served
http_error status message = write_json status message plain_text

-- The subject of the claims in the context, or the empty string.
abbrev pub get_user_id : Option LocalClaims → String
get_user_id none = ""
get_user_id (some claims) = claims.subject

-- `NewJWTAuth`: the next handler runs with the claims of a valid token.
unfoldable pub jwt_auth :
    Crypto
    → ℕ
    → (secret authorization : String) → (Option LocalClaims → World → Served)
    → World
    → Served
jwt_auth lib now secret authorization next w =
    elim (validate_access_token lib now secret authorization) [
      | none ↦ http_error 401 "invalid access token" w
      | some claims ↦ next (some claims) w
    ]
