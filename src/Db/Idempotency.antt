-- ===== src/Db/Idempotency.antt =====
-- `CreateJobWithIdempotency` of db/store.go: a job, its idempotency key and its outbox event in
-- one transaction, or the job that an earlier request with the same hash has made.
pub mod Atomic
pub mod Registry
pub mod Replay
pub mod Invariant
use digital_ocean_assignment.Base.{
  ◌+◌, ◌*◌, String, Bool, true, false, none, some, [], ◌∷◌, if◌then◌else◌, Result, ok, err, no_rows,
  invalid_json, or_error,
}
use digital_ocean_assignment.Base as Base
use digital_ocean_assignment.Base.Int.{ℤ, pos, leb_ℤ}
use digital_ocean_assignment.Base.Utf8.{Bytes}
use digital_ocean_assignment.Json.{marshal_string, marshal_object}
use digital_ocean_assignment.Db.Rows.{StoreJob, StoreCreateJobParams}
use digital_ocean_assignment.Db.Session.{
  Env, Action, tx, on_tx, begin_tx, commit, defer_rollback, pure, fail, lift, ◌>>=◌, ◌>>◌,
}
use digital_ocean_assignment.Db.Jobs.{get_job_by_id_tx}
use digital_ocean_assignment.Db.Outbox.{insert_event}
use digital_ocean_assignment.Db.Keys.{select_key, insert_job, insert_key}

-- 24*time.Hour, in nanoseconds.
abbrev pub day : Base.ℕ
day = 24 * 3600 * 1000000000

-- `if n <= 0 { n = fallback }`.
abbrev pub default_to : ℤ → ℤ → ℤ
default_to fallback n = if leb_ℤ n (pos 0) then fallback else n

abbrev pub with_defaults : StoreCreateJobParams → StoreCreateJobParams
with_defaults params = record params {
  max_retries = default_to (pos 5) params.max_retries;
  timeout_seconds = default_to (pos 15) params.timeout_seconds;
  version = default_to (pos 1) params.version;
}

-- The payload of an outbox event: a map, so its keys are written in order.
unfoldable pub event_payload :
    Env → (job_id type name webhook_url : String) (payload : Bytes) → Result Bytes
event_payload env job_id type name webhook_url payload = elim (env.compact payload) [
  | none ↦ err invalid_json
  | some raw ↦ ok (
      marshal_object (
        ("job_id", marshal_string job_id)
        ∷ ("name", marshal_string name)
        ∷ ("payload", raw)
        ∷ ("type", marshal_string type)
        ∷ ("webhook_url", marshal_string webhook_url)
        ∷ []))
]

-- The path of a request that is already known.
unfoldable pub reuse_job : Env → String → Action (StoreJob × Bool)
unfolding get_job_by_id_tx commit
reuse_job env existing_job_id = do
  job ← get_job_by_id_tx env tx existing_job_id
  commit env
  pure (job, true)

-- The path of a new request.
unfoldable pub register_job :
    Env
    → (user_id request_hash method path : String) → StoreCreateJobParams
    → Action (StoreJob × Bool)
unfolding get_job_by_id_tx commit
register_job env user_id request_hash method path params = do
  job_id ← on_tx env (insert_job env (with_defaults params))
  on_tx env (λ n. insert_key env user_id request_hash job_id method path (env.now n + day) n)
  payload ←
      lift (event_payload env job_id params.type params.name params.webhook_url params.payload)
  on_tx env (
      insert_event env (record {
        aggregate_type = "job";
        aggregate_id = job_id;
        event_type = "job_created";
        payload = payload;
        published = false;
      }))
  job ← get_job_by_id_tx env tx job_id
  commit env
  pure (job, false)

-- What follows the look-up of the key.
unfoldable pub after_lookup :
    Env
    → (user_id request_hash method path : String) → StoreCreateJobParams
    → Result String
    → Action (StoreJob × Bool)
unfolding reuse_job register_job
after_lookup env user_id request_hash method path params (ok existing) = reuse_job env existing
after_lookup env user_id request_hash method path params (err no_rows) =
    register_job env user_id request_hash method path params
after_lookup env user_id request_hash method path params (err e) = fail e

unfoldable pub create_job_with_idempotency :
    Env
    → (user_id request_hash method path : String) → StoreCreateJobParams
    → Action (StoreJob × Bool)
unfolding begin_tx after_lookup
create_job_with_idempotency env user_id request_hash method path params = do
  begin_tx env
  defer_rollback λ w.
      let (found, w') = on_tx env (select_key env user_id request_hash) w in
      after_lookup env user_id request_hash method path params found w'
