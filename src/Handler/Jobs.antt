-- ===== src/Handler/Jobs.antt =====
-- The handlers of the jobs in handler/routes.go.
pub mod Access
pub mod Spared
pub mod Isolation
pub mod Repeats
pub mod Deletion
pub mod Listing
pub mod Updates
pub mod Hashes
pub mod Paging
pub mod Invariant
use digital_ocean_assignment.Base.{
  String, Bool, true, false, Option, none, some, List, map, ◌==◌, ◌||◌, not, if◌then◌else◌, Result,
  ok, err,
}
use digital_ocean_assignment.Base.Int.{ℤ, pos, negsuc, ltb_ℤ, ◌+ℤ◌, ◌*ℤ◌, wrap64}
use digital_ocean_assignment.Base.Utf8.{Bytes}
use digital_ocean_assignment.Db.Rows.{StoreJob, StoreCreateJobParams}
use digital_ocean_assignment.Db.Session.{Env, World}
use digital_ocean_assignment.Db.Jobs.{
  get_job_by_id, list_jobs_by_user, update_job_details, delete_job,
}
use digital_ocean_assignment.Db.Idempotency.{create_job_with_idempotency}
use digital_ocean_assignment.Service.JobPayload.{
  JobPayload, positive_or, new_job_payload, marshal_payload,
}
use digital_ocean_assignment.Service.Token.{LocalClaims}
use digital_ocean_assignment.Handler.Http.{
  RegisterJobRequest, UpdateJobRequest, view, empty, job_state, job_view, job_views, Served,
  write_json, get_user_id,
}

-- `ComputeIdempotencyHash` of a payload. A struct is no map, so its canonical form is what
-- `Marshal` writes; `sha256_hex` is the digest of crypto/sha256, in hexadecimal.
unfoldable pub request_hash : (Bytes → String) → JobPayload → String
request_hash sha256_hex payload = sha256_hex (marshal_payload payload)

abbrev pub job_params : String → RegisterJobRequest → JobPayload → StoreCreateJobParams
job_params user_id req payload = record {
  user_id = user_id;
  type = req.type;
  name = req.name;
  webhook_url = req.webhook_url;
  payload = marshal_payload payload;
  max_retries = payload.max_retries;
  timeout_seconds = payload.timeout_seconds;
  version = payload.version;
}

abbrev pub payload_of : RegisterJobRequest → JobPayload
payload_of req =
    new_job_payload req.type req.name req.webhook_url req.version req.max_retries
      req.timeout_seconds

abbrev pub has_required : RegisterJobRequest → Bool
has_required req = not (req.type == "" || req.name == "" || req.webhook_url == "")

-- The answer after the store has been called.
abbrev pub created : Result (StoreJob × Bool) × World → Served
created (err e, w) = write_json 500 "failed to register job" empty w
created (ok (job, true), w) = write_json 200 "job already registered" (job_state job.id job.state) w
created (ok (job, false), w) =
    write_json 202 "job registration accepted" (job_state job.id job.state) w

-- What `strconv.Atoi` leaves in the variable for a query parameter is given; its error is
-- ignored by the source.
abbrev pub at_least_one : ℤ → ℤ → ℤ
at_least_one fallback n = if ltb_ℤ n (pos 1) then fallback else n

abbrev pub offset_of : ℤ → ℤ → ℤ
offset_of page page_size = wrap64 (wrap64 (page +ℤ negsuc 0) *ℤ page_size)

abbrev pub listed : Result (List StoreJob) × World → Served
listed (err e, w) = write_json 500 "failed to list jobs" empty w
listed (ok jobs, w) = write_json 200 "jobs listed" (job_views (map view jobs)) w

-- The look-up and the check of the owner that three handlers share in form: `next` is what the
-- handler does with the user's own job.
abbrev pub with_own_job : String → (StoreJob → World → Served) → Result StoreJob × World → Served
with_own_job user_id next (err e, w) = write_json 404 "job not found" empty w
with_own_job user_id next (ok job, w) =
    if not (job.user_id == user_id) then write_json 403 "forbidden" empty w else next job w

abbrev pub is_some : {A : Type 0} → Option A → Bool
is_some none = false
is_some (some a) = true

abbrev pub has_fields : UpdateJobRequest → Bool
has_fields req =
    is_some req.name
    || is_some req.webhook_url
    || is_some req.version
    || is_some req.max_retries
    || is_some req.timeout_seconds

abbrev pub given_or : {A : Type 0} → A → Option A → A
given_or old none = old
given_or old (some new) = new

abbrev pub apply_update : UpdateJobRequest → StoreJob → StoreJob
apply_update req job = record job {
  name = given_or job.name req.name;
  webhook_url = given_or job.webhook_url req.webhook_url;
  version = positive_or job.version req.version;
  max_retries = positive_or job.max_retries req.max_retries;
  timeout_seconds = positive_or job.timeout_seconds req.timeout_seconds;
}

abbrev pub answered : String → String → Result (Unit {0}) × World → Served
answered success failed (ok _, w) = write_json 200 success empty w
answered success failed (err e, w) = write_json 500 failed empty w

-- The check that opens every handler of the jobs: `next` is the rest of the handler.
unfoldable pub with_user : Option LocalClaims → (String → World → Served) → World → Served
with_user claims next w =
    if get_user_id claims == ""
    then write_json 401 "unauthorized" empty w
    else next (get_user_id claims) w

module _ (env : Env) where
  unfoldable pub create_job :
      (Bytes → String) → Option RegisterJobRequest → (user_id : String) → World → Served
  unfolding request_hash create_job_with_idempotency
  create_job sha256_hex none user_id w = write_json 400 "invalid request payload" empty w
  create_job sha256_hex (some req) user_id w =
      if not (has_required req)
      then write_json 400 "type, name, and webhook_url are required" empty w
      else let payload = payload_of req in
        created (
          create_job_with_idempotency env user_id (request_hash sha256_hex payload) "POST" "/jobs"
            (job_params user_id req payload) w)

  unfoldable pub create_job_handler :
      (Bytes → String) → Option LocalClaims → Option RegisterJobRequest → World → Served
  create_job_handler sha256_hex claims req = with_user claims (create_job sha256_hex req)

  unfoldable pub list_jobs : (page page_size : ℤ) → (user_id : String) → World → Served
  unfolding list_jobs_by_user
  list_jobs page page_size user_id w =
      let size = at_least_one (pos 20) page_size in
      listed (list_jobs_by_user env user_id size (offset_of (at_least_one (pos 1) page) size) w)

  unfoldable pub list_jobs_handler : Option LocalClaims → (page page_size : ℤ) → World → Served
  list_jobs_handler claims page page_size = with_user claims (list_jobs page page_size)

  unfoldable pub get_job : (job_id user_id : String) → World → Served
  unfolding get_job_by_id
  get_job job_id user_id w =
      with_own_job user_id (λ job. write_json 200 "job fetched" (job_view (view job)))
        (get_job_by_id env job_id w)

  unfoldable pub get_job_handler : Option LocalClaims → (job_id : String) → World → Served
  get_job_handler claims job_id = with_user claims (get_job job_id)

  unfoldable pub store_update : UpdateJobRequest → StoreJob → World → Served
  unfolding update_job_details
  store_update req job w =
      let new = apply_update req job in
      answered "job updated" "failed to update job" (
        update_job_details env new.id new.user_id new.name new.webhook_url new.max_retries
          new.timeout_seconds new.version w)

  unfoldable pub update_job :
      (job_id : String) → Option UpdateJobRequest → (user_id : String) → World → Served
  unfolding get_job_by_id store_update
  update_job job_id none user_id w = write_json 400 "invalid request payload" empty w
  update_job job_id (some req) user_id w =
      if not (has_fields req)
      then write_json 400 "no fields to update" empty w
      else with_own_job user_id (store_update req) (get_job_by_id env job_id w)

  unfoldable pub update_job_handler :
      Option LocalClaims → (job_id : String) → Option UpdateJobRequest → World → Served
  update_job_handler claims job_id req = with_user claims (update_job job_id req)

  unfoldable pub remove_job : (job_id user_id : String) → World → Served
  unfolding get_job_by_id delete_job
  remove_job job_id user_id w =
      with_own_job user_id
        (λ job w'. answered "job deleted" "failed to delete job" (delete_job env job_id user_id w'))
        (get_job_by_id env job_id w)

  unfoldable pub delete_job_handler : Option LocalClaims → (job_id : String) → World → Served
  delete_job_handler claims job_id = with_user claims (remove_job job_id)
