-- ===== src/Handler/Jobs/Access.antt =====
-- Who may do what: the handlers of the jobs under every answer of the store.
use digital_ocean_assignment.Base.{
  suc, ◌≡◌, ◌≢◌, inl, inr, String, Option, none, some, ◌==◌, eq_iff, Error, ok, err, arith,
  Option-cases, if◌then◌else◌,
}
use digital_ocean_assignment.Base.Int.{ℤ}
use digital_ocean_assignment.Base.Utf8.{Bytes}
use digital_ocean_assignment.Db.Rows.{StoreJob, Database}
use digital_ocean_assignment.Db.Session.{Env, World, on_pool, query_row}
use digital_ocean_assignment.Db.Session.Rules.{world}
use digital_ocean_assignment.Db.Sql.{find}
use digital_ocean_assignment.Db.Jobs.{has_id, select_job, get_job_by_id, get_job_by_id_tx}
use digital_ocean_assignment.Db.Idempotency.Replay.{AllDone}
use digital_ocean_assignment.Service.Token.{LocalClaims}
use digital_ocean_assignment.Handler.Http.{
  RegisterJobRequest, UpdateJobRequest, view, empty, job_view, Served, write_json, get_user_id,
}
use digital_ocean_assignment.Handler.Jobs.{
  with_user, create_job, list_jobs, get_job, update_job, remove_job, create_job_handler,
  list_jobs_handler, get_job_handler, update_job_handler, delete_job_handler,
}

no_user :
    (claims : Option LocalClaims) (next : String → World → Served) (w : World)
    → get_user_id claims ≡ ""
    → with_user claims next w ≡ write_json 401 "unauthorized" empty w
unfolding with_user
no_user claims next w h = ground (arith, eq_iff (get_user_id claims) "")

pub known_user :
    (claims : Option LocalClaims) (next : String → World → Served) (w : World)
    → get_user_id claims ≢ ""
    → with_user claims next w ≡ next (get_user_id claims) w
unfolding with_user
known_user claims next w h = ground (arith, eq_iff (get_user_id claims) "")

-- Claims that name no user.
pub jobs_need_user :
    (env : Env) (sha256_hex : Bytes → String) (claims : Option LocalClaims)
    (register : Option RegisterJobRequest) (change : Option UpdateJobRequest) (page page_size : ℤ)
    (job_id : String) (w : World)
    → get_user_id claims ≡ ""
    → let refused = write_json 401 "unauthorized" empty w in
      (create_job_handler env sha256_hex claims register w ≡ refused)
      × (list_jobs_handler env claims page page_size w ≡ refused)
      × (get_job_handler env claims job_id w ≡ refused)
      × (update_job_handler env claims job_id change w ≡ refused)
      × (delete_job_handler env claims job_id w ≡ refused)
unfolding create_job_handler list_jobs_handler get_job_handler update_job_handler delete_job_handler
jobs_need_user env sha256_hex claims register change page page_size job_id w h = (
  no_user claims (create_job env sha256_hex register) w h,
  no_user claims (list_jobs env page page_size) w h,
  no_user claims (get_job env job_id) w h,
  no_user claims (update_job env job_id change) w h,
  no_user claims (remove_job env job_id) w h,
)

-- Reading a job, when the call succeeds.
module _ (env : Env) (all_done : AllDone env) (w : World) (job_id : String) {id : String}
    (read : env.uuid_in job_id ≡ some id) where
  abbrev seen : Database
  seen = env.peers w.calls w.db

  pub get_job-found :
      {job : StoreJob}
      → find (has_id id) seen.jobs ≡ some job
      → get_job_by_id env job_id w ≡ (ok job, world (suc w.calls) seen w.tx)
  unfolding get_job_by_id get_job_by_id_tx query_row on_pool select_job
  get_job-found found = ground (arith, all_done w.calls)

  pub get_job-missing :
      find (has_id id) seen.jobs ≡ none
      → get_job_by_id env job_id w ≡ (err Error.no_rows, world (suc w.calls) seen w.tx)
  unfolding get_job_by_id get_job_by_id_tx query_row on_pool select_job
  get_job-missing missing = ground (arith, all_done w.calls)

-- A user is shown a job exactly when it is stored under the id and is the user's own: a job of
-- another user is answered by 403, and an id without a job by 404. The tables stay as they are.
-- The call is assumed to succeed, at an id that the server reads.
pub get_job_handler_lem :
    (env : Env) (claims : Option LocalClaims) (job_id id : String) (w : World)
    → AllDone env
    → get_user_id claims ≢ ""
    → env.uuid_in job_id ≡ some id
    → let db = env.peers w.calls w.db in
      let w' = world (suc w.calls) db w.tx in
      get_job_handler env claims job_id w ≡ (elim (find (has_id id) db.jobs) [
        | none ↦ write_json 404 "job not found" empty w'
        | some job ↦
            if job.user_id == get_user_id claims
            then write_json 200 "job fetched" (job_view (view job)) w'
            else write_json 403 "forbidden" empty w'
      ])
unfolding get_job_handler get_job
get_job_handler_lem env claims job_id id w all_done user read =
    rw (known_user claims (get_job env job_id) w user)
      (elim (Option-cases (find (has_id id) (env.peers w.calls w.db).jobs)) [
        | inl missing ↦ ground (arith, get_job-missing env all_done w job_id read missing)
        | inr (job, found) ↦ ground (arith, get_job-found env all_done w job_id read found)
      ])
