-- ===== src/Db/Keys.antt =====
-- The statements of `CreateJobWithIdempotency` of db/store.go on the tables of jobs and of
-- idempotency keys (migrations/000003).
pub mod Inserts
use digital_ocean_assignment.Base.{
  ℕ, String, Bool, none, some, ◌∷◌, ◌&&◌, ◌==◌, not, any, ok, no_rows, null_value, unique_violation,
  foreign_key_violation, require, or_error, ◌>>=◌, ◌>>◌,
}
use digital_ocean_assignment.Base.Int.{pos}
use digital_ocean_assignment.Base.Utf8.{Bytes}
use digital_ocean_assignment.Db.Rows.{StoreJob, StoreIdempotencyKey, StoreCreateJobParams}
use digital_ocean_assignment.Db.Session.{Env, Stmt}
use digital_ocean_assignment.Db.Sql.{text, find, uuid, jsonb, int4}
use digital_ocean_assignment.Db.Jobs.{has_id}

-- `WHERE user_id = $1 AND request_hash = $2`.
abbrev pub is_request : String → String → StoreIdempotencyKey → Bool
is_request user_id hash key = key.user_id == user_id && key.request_hash == hash

-- SELECT job_id: a NULL cannot be scanned into a string.
unfoldable pub select_key : Env → (user_id request_hash : String) → Stmt String
select_key env user_id request_hash n db = do
  user ← uuid env user_id
  key ← or_error (find (is_request user request_hash) db.idempotency_keys) no_rows
  job_id ← or_error key.job_id null_value
  ok (job_id, db)

-- A new job is pending, with no attempts.
abbrev pub new_job : StoreCreateJobParams → (id user : String) → Bytes → ℕ → StoreJob
new_job params id user payload now = record {
  id = id;
  user_id = user;
  type = params.type;
  name = params.name;
  webhook_url = params.webhook_url;
  payload = payload;
  version = params.version;
  max_retries = params.max_retries;
  timeout_seconds = params.timeout_seconds;
  state = "pending";
  attempts = pos 0;
  scheduled_at = now;
  last_error = none;
  result = none;
  created_at = now;
  updated_at = now;
}

-- `id` is the primary key, and the user has to exist.
unfoldable pub insert_job : Env → StoreCreateJobParams → Stmt String
insert_job env params n db = do
  user ← uuid env params.user_id
  text env params.type
  text env params.name
  text env params.webhook_url
  payload ← jsonb env params.payload
  int4 params.version
  int4 params.max_retries
  int4 params.timeout_seconds
  let id = env.fresh_id n
  require (not (any (has_id id) db.jobs)) unique_violation
  require (any (λ u. u.id == user) db.users) foreign_key_violation
  ok (id, record db { jobs = new_job params id user payload (env.now n) ∷ db.jobs })

-- `expires_at` is passed in; (user_id, request_hash) is UNIQUE, and both references must exist.
abbrev pub new_key :
    (id user request_hash job method path : String) (now expires_at : ℕ) → StoreIdempotencyKey
new_key id user request_hash job method path now expires_at = record {
  id = id;
  user_id = user;
  request_hash = request_hash;
  job_id = some job;
  method = method;
  path = path;
  status_code = none;
  created_at = now;
  expires_at = expires_at;
}

unfoldable pub insert_key :
    Env → (user_id request_hash job_id method path : String) (expires_at : ℕ) → Stmt (Unit {0})
insert_key env user_id request_hash job_id method path expires_at n db = do
  user ← uuid env user_id
  text env request_hash
  job ← uuid env job_id
  text env method
  text env path
  let id = env.fresh_id n
  require (not (any (λ key. key.id == id) db.idempotency_keys)) unique_violation
  require (not (any (is_request user request_hash) db.idempotency_keys)) unique_violation
  require (any (λ u. u.id == user) db.users) foreign_key_violation
  require (any (has_id job) db.jobs) foreign_key_violation
  let row = new_key id user request_hash job method path (env.now n) expires_at
  ok (tt, record db { idempotency_keys = row ∷ db.idempotency_keys })
