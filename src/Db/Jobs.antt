-- ===== src/Db/Jobs.antt =====
-- The methods of db/store.go on the table of jobs (migrations/000002 and 000005).
use digital_ocean_assignment.Base.{
  ℕ, String, Bool, Option, none, some, List, ◌&&◌, ◌==◌, if◌then◌else◌, ok, no_rows, or_error, leb,
  not, any, false, ◌>>=◌, ◌>>◌,
}
use digital_ocean_assignment.Base.Int.{ℤ, pos, leb_ℤ, ◌+ℤ◌}
use digital_ocean_assignment.Base.Utf8.{Bytes}
use digital_ocean_assignment.Db.Rows.{StoreJob, StoreIdempotencyKey}
use digital_ocean_assignment.Db.Session.{Env, Action, Stmt, Conn, pool, on_pool, on_tx, query_row}
use digital_ocean_assignment.Db.Sql.{
  find, update, delete, order_by, page_of, uuid, nullable_jsonb, nullable_text, text, int4,
  row_count,
}

-- `WHERE id = $1`.
abbrev pub has_id : String → StoreJob → Bool
has_id id job = job.id == id

-- `WHERE id = $1 AND user_id = $2`.
abbrev pub is_owned : String → String → StoreJob → Bool
is_owned id user_id job = job.id == id && job.user_id == user_id

unfoldable pub select_job : Env → String → Stmt StoreJob
select_job env job_id n db = do
  id ← uuid env job_id
  job ← or_error (find (has_id id) db.jobs) no_rows
  ok (job, db)

unfoldable pub get_job_by_id_tx : Env → Conn → String → Action StoreJob
unfolding query_row
get_job_by_id_tx env conn job_id = query_row env conn (select_job env job_id)

unfoldable pub get_job_by_id : Env → String → Action StoreJob
unfolding get_job_by_id_tx
get_job_by_id env job_id = get_job_by_id_tx env pool job_id

-- FOR UPDATE waits for the row, and reads it.
unfoldable pub get_job_by_id_for_update_tx : Env → String → Action StoreJob
get_job_by_id_for_update_tx env job_id = on_tx env (select_job env job_id)

-- ORDER BY created_at DESC.
abbrev pub newest_first : StoreJob → StoreJob → Bool
newest_first a b = leb b.created_at a.created_at

unfoldable pub select_jobs : Env → String → ℤ → ℤ → Stmt (List StoreJob)
select_jobs env user_id limit offset n db = do
  user ← uuid env user_id
  count ← row_count limit
  skipped ← row_count offset
  let owned = delete (λ job. not (job.user_id == user)) db.jobs
  ok (page_of count skipped (order_by newest_first owned), db)

unfoldable pub list_jobs_by_user : Env → String → ℤ → ℤ → Action (List StoreJob)
list_jobs_by_user env user_id limit offset =
    on_pool env (select_jobs env user_id (if leb_ℤ limit (pos 0) then pos 20 else limit) offset)

-- SET name, webhook_url, max_retries, timeout_seconds, version, updated_at.
abbrev pub set_details :
    (name webhook_url : String)
    → (max_retries timeout_seconds version : ℤ) → ℕ
    → StoreJob
    → StoreJob
set_details name webhook_url max_retries timeout_seconds version now job = record job {
  name = name;
  webhook_url = webhook_url;
  max_retries = max_retries;
  timeout_seconds = timeout_seconds;
  version = version;
  updated_at = now;
}

unfoldable pub update_details :
    Env
    → (job_id user_id name webhook_url : String) → (max_retries timeout_seconds version : ℤ)
    → Stmt (Unit {0})
update_details env job_id user_id name webhook_url max_retries timeout_seconds version n db = do
  id ← uuid env job_id
  user ← uuid env user_id
  text env name
  text env webhook_url
  int4 max_retries
  int4 timeout_seconds
  int4 version
  let set = set_details name webhook_url max_retries timeout_seconds version (env.now n)
  ok (tt, record db { jobs = update (is_owned id user) set db.jobs })

unfoldable pub update_job_details :
    Env
    → (job_id user_id name webhook_url : String) → (max_retries timeout_seconds version : ℤ)
    → Action (Unit {0})
update_job_details env job_id user_id name webhook_url max_retries timeout_seconds version =
    on_pool env
      (update_details env job_id user_id name webhook_url max_retries timeout_seconds version)

-- `job_id` of an idempotency key references a job.
abbrev pub refers_to : String → StoreIdempotencyKey → Bool
refers_to id key = elim key.job_id [ none ↦ false | some job ↦ job == id ]

-- ON DELETE CASCADE takes the keys of the deleted job along.
unfoldable pub delete_owned : Env → (job_id user_id : String) → Stmt (Unit {0})
delete_owned env job_id user_id n db = do
  id ← uuid env job_id
  user ← uuid env user_id
  let keys = db.idempotency_keys
  ok (
    tt,
    record db {
      jobs = delete (is_owned id user) db.jobs;
      idempotency_keys =
          if any (is_owned id user) db.jobs then delete (refers_to id) keys else keys;
    },
  )

unfoldable pub delete_job : Env → (job_id user_id : String) → Action (Unit {0})
delete_job env job_id user_id = on_pool env (delete_owned env job_id user_id)

abbrev pub set_attempts : ℤ → ℕ → StoreJob → StoreJob
set_attempts attempts now job = record job { attempts = attempts; updated_at = now }

-- UPDATE … SET attempts = attempts + 1 … RETURNING attempts.
unfoldable pub increment_attempts : Env → String → Stmt ℤ
increment_attempts env job_id n db = do
  id ← uuid env job_id
  job ← or_error (find (has_id id) db.jobs) no_rows
  let attempts = job.attempts +ℤ pos 1
  int4 attempts
  ok (attempts, record db { jobs = update (has_id id) (set_attempts attempts (env.now n)) db.jobs })

unfoldable pub increment_job_attempts_tx : Env → String → Action ℤ
increment_job_attempts_tx env job_id = on_tx env (increment_attempts env job_id)

-- The same with no row returned: a missing row is no error here.
unfoldable pub bump_attempts : Env → String → Stmt (Unit {0})
bump_attempts env job_id n db = do
  id ← uuid env job_id
  elim (find (has_id id) db.jobs) [
    | none ↦ ok (tt, db)
    | some job ↦ do
      let attempts = job.attempts +ℤ pos 1
      int4 attempts
      ok (tt, record db { jobs = update (has_id id) (set_attempts attempts (env.now n)) db.jobs })
  ]

unfoldable pub increment_job_attempts : Env → String → Action (Unit {0})
increment_job_attempts env job_id = on_pool env (bump_attempts env job_id)

-- SET state, last_error, result, attempts, updated_at.
abbrev pub set_state : String → Option Bytes → Option Bytes → ℤ → ℕ → StoreJob → StoreJob
set_state state last_error result attempts now job = record job {
  state = state;
  last_error = last_error;
  result = result;
  attempts = attempts;
  updated_at = now;
}

unfoldable pub update_state :
    Env → (job_id state : String) → (last_error result : Option Bytes) → ℤ → Stmt (Unit {0})
update_state env job_id state last_error result attempts n db = do
  id ← uuid env job_id
  message ← nullable_text env last_error
  value ← nullable_jsonb env result
  int4 attempts
  ok (
    tt,
    record db {
      jobs = update (has_id id) (set_state state message value attempts (env.now n)) db.jobs;
    },
  )

unfoldable pub update_job_state_tx :
    Env → (job_id state : String) → (last_error result : Option Bytes) → ℤ → Action (Unit {0})
update_job_state_tx env job_id state last_error result attempts =
    on_tx env (update_state env job_id state last_error result attempts)

unfoldable pub update_job_state :
    Env → (job_id state : String) → (last_error result : Option Bytes) → ℤ → Action (Unit {0})
update_job_state env job_id state last_error result attempts =
    on_pool env (update_state env job_id state last_error result attempts)
