-- ===== src/Handler/Jobs/Isolation.antt =====
-- What the handlers of the jobs leave of other users' jobs, however their calls end.
use mathlib.Core.Path.{subst}
use digital_ocean_assignment.Base.{
  ◌≡◌, refl, sym, ◌∙◌, ap, inl, inr, String, Bool, true, false, Option, none, some, List, eq_iff,
  Result, ok, err, arith, Bool-cases,
}
use digital_ocean_assignment.Base.Int.{ℤ, pos}
use digital_ocean_assignment.Base.Utf8.{Bytes}
use digital_ocean_assignment.Db.Rows.{StoreJob, StoreCreateJobParams, Database}
use digital_ocean_assignment.Db.Session.{Env, World, on_pool}
use digital_ocean_assignment.Db.Jobs.{
  update_details, delete_owned, get_job_by_id, update_job_details, delete_job, list_jobs_by_user,
}
use digital_ocean_assignment.Db.Idempotency.{create_job_with_idempotency}
use digital_ocean_assignment.Db.Idempotency.Atomic.{MakesUuids, KeysPrinted, create_job-Creates}
use digital_ocean_assignment.Db.Idempotency.Replay.{Alone}
use digital_ocean_assignment.Service.JobPayload.{JobPayload}
use digital_ocean_assignment.Service.Token.{LocalClaims}
use digital_ocean_assignment.Handler.Jobs.Spared.{
  others, on_pool-Spares, update_details-Spares, delete_owned-Spares, get_job_by_id_spares,
  list_jobs_by_user_spares, others-Creates,
}
use digital_ocean_assignment.Handler.Http.{
  RegisterJobRequest, UpdateJobRequest, Served, write_json, get_user_id, view, job_view,
}
use digital_ocean_assignment.Handler.Jobs.{
  with_user, with_own_job, list_jobs, get_job, at_least_one, offset_of, store_update, update_job,
  remove_job, list_jobs_handler, get_job_handler, update_job_handler, delete_job_handler,
  has_required, apply_update, answered, listed, created, create_job, create_job_handler, payload_of,
  job_params, request_hash,
}

pub world-answered :
    (success failed : String) (r : Result (Unit {0}) × World) → (answered success failed r).1 ≡ r.1
world-answered success failed (ok _, w) = refl
world-answered success failed (err e, w) = refl

pub world-listed : (r : Result (List StoreJob) × World) → (listed r).1 ≡ r.1
world-listed (ok jobs, w) = refl
world-listed (err e, w) = refl

pub world-created : (r : Result (StoreJob × Bool) × World) → (created r).1 ≡ r.1
world-created (ok (job, true), w) = refl
world-created (ok (job, false), w) = refl
world-created (err e, w) = refl

module _ (env : Env) (alone : Alone env) {user : String} (read : env.uuid_in user ≡ some user) where
  with_own_job_spares :
      (next : StoreJob → World → Served)
      → ((job : StoreJob) (w : World)
          → job.user_id ≡ user
          → others user (next job w).1.db ≡ others user w.db)
      → (found : Result StoreJob × World)
      → others user (with_own_job user next found).1.db ≡ others user found.1.db
  with_own_job_spares next spares (err e, w) = refl
  with_own_job_spares next spares (ok job, w) =
      ground (arith, spares job w, eq_iff job.user_id user)

  store_update_spares :
      (req : UpdateJobRequest) (job : StoreJob) (w : World)
      → job.user_id ≡ user
      → others user (store_update env req job w).1.db ≡ others user w.db
  unfolding store_update update_job_details
  store_update_spares req job w own =
      let new = apply_update req job in
      let stmt =
        update_details env new.id new.user_id new.name new.webhook_url new.max_retries
          new.timeout_seconds new.version in
      ap (λ w'. others user w'.db)
        (world-answered "job updated" "failed to update job" (on_pool env stmt w))
      ∙ on_pool-Spares env alone read stmt
          (update_details-Spares env alone read new.id new.user_id new.name new.webhook_url
            new.max_retries new.timeout_seconds new.version own)
          w

  delete_job_spares :
      (job_id : String) (w : World)
      → others user
          (answered "job deleted" "failed to delete job" (delete_job env job_id user w)).1.db
        ≡ others user w.db
  unfolding delete_job
  delete_job_spares job_id w =
      ap (λ w'. others user w'.db)
        (world-answered "job deleted" "failed to delete job"
          (on_pool env (delete_owned env job_id user) w))
      ∙ on_pool-Spares env alone read (delete_owned env job_id user)
          (delete_owned-Spares env alone read job_id) w

  create_job_spares :
      (sha256_hex : Bytes → String) (req : Option RegisterJobRequest) (w : World)
      → MakesUuids env
      → KeysPrinted env w.db
      → others user (create_job env sha256_hex req user w).1.db ≡ others user w.db
  unfolding create_job
  create_job_spares sha256_hex none w makes printed = refl
  create_job_spares sha256_hex (some req) w makes printed = elim (Bool-cases (has_required req)) [
    | inr incomplete ↦ ground arith
    | inl complete ↦ ground (arith, eq)
  ]
    where
      payload : JobPayload
      payload = payload_of req

      hash : String
      hash = request_hash sha256_hex payload

      params : StoreCreateJobParams
      params = job_params user req payload

      run : Result (StoreJob × Bool) × World
      run = create_job_with_idempotency env user hash "POST" "/jobs" params w

      seen : Database
      seen = env.peers w.calls w.db

      eq : others user (created run).1.db ≡ others user w.db
      eq =
          ap (λ w'. others user w'.db) (world-created run)
          ∙ others-Creates env alone read hash params seen run.1.db run.0 (
              create_job-Creates env user hash "POST" "/jobs" params w makes read
                (subst (KeysPrinted env) (sym (alone w.calls w.db)) printed))
          ∙ ap (others user) (alone w.calls w.db)

  list_jobs_spares :
      (page page_size : ℤ) (w : World)
      → others user (list_jobs env page page_size user w).1.db ≡ others user w.db
  unfolding list_jobs
  list_jobs_spares page page_size w =
      let size = at_least_one (pos 20) page_size in
      let offset = offset_of (at_least_one (pos 1) page) size in
      ap (λ w'. others user w'.db) (world-listed (list_jobs_by_user env user size offset w))
      ∙ list_jobs_by_user_spares env alone read size offset w

  get_job_spares :
      (job_id : String) (w : World)
      → others user (get_job env job_id user w).1.db ≡ others user w.db
  unfolding get_job
  get_job_spares job_id w =
      with_own_job_spares (λ job. write_json 200 "job fetched" (job_view (view job)))
        (λ job w' own. refl) (get_job_by_id env job_id w)
      ∙ get_job_by_id_spares env alone read job_id w

  update_job_spares :
      (job_id : String) (change : Option UpdateJobRequest) (w : World)
      → others user (update_job env job_id change user w).1.db ≡ others user w.db
  unfolding update_job
  update_job_spares job_id none w = refl
  update_job_spares job_id (some req) w = ground (
    arith,
    with_own_job_spares (store_update env req) (store_update_spares req)
          (get_job_by_id env job_id w)
        ∙ get_job_by_id_spares env alone read job_id w,
  )

  remove_job_spares :
      (job_id : String) (w : World)
      → others user (remove_job env job_id user w).1.db ≡ others user w.db
  unfolding remove_job
  remove_job_spares job_id w =
      with_own_job_spares
        (λ job w'. answered "job deleted" "failed to delete job" (delete_job env job_id user w'))
        (λ job w' own. delete_job_spares job_id w') (get_job_by_id env job_id w)
      ∙ get_job_by_id_spares env alone read job_id w

with_user_spares :
    (claims : Option LocalClaims) (next : String → World → Served) (w : World)
    → let user = get_user_id claims in
      others user (next user w).1.db ≡ others user w.db
      → others user (with_user claims next w).1.db ≡ others user w.db
unfolding with_user
with_user_spares claims next w spares = ground arith

-- No request changes a job of another user, whatever it asks for and however its calls end: each
-- handler of the jobs leaves the jobs that do not belong to the user of the token as they were, in
-- the same order. The user's id is assumed to be as the server prints it, as are the job ids of
-- the idempotency keys, and no other session to be at work.
pub handlers_spare_others :
    (env : Env) (sha256_hex : Bytes → String) (claims : Option LocalClaims)
    (register : Option RegisterJobRequest) (change : Option UpdateJobRequest) (page page_size : ℤ)
    (job_id : String) (w : World)
    → Alone env
    → MakesUuids env
    → env.uuid_in (get_user_id claims) ≡ some (get_user_id claims)
    → KeysPrinted env w.db
    → let kept = others (get_user_id claims) w.db in
      (others (get_user_id claims) (create_job_handler env sha256_hex claims register w).1.db
        ≡ kept)
      × (others (get_user_id claims) (list_jobs_handler env claims page page_size w).1.db ≡ kept)
      × (others (get_user_id claims) (get_job_handler env claims job_id w).1.db ≡ kept)
      × (others (get_user_id claims) (update_job_handler env claims job_id change w).1.db ≡ kept)
      × (others (get_user_id claims) (delete_job_handler env claims job_id w).1.db ≡ kept)
unfolding create_job_handler list_jobs_handler get_job_handler update_job_handler delete_job_handler
handlers_spare_others env sha256_hex claims register change page page_size job_id w alone makes read
      printed =
    (
      with_user_spares claims (create_job env sha256_hex register) w
          (create_job_spares env alone read sha256_hex register w makes printed),
      with_user_spares claims (list_jobs env page page_size) w
          (list_jobs_spares env alone read page page_size w),
      with_user_spares claims (get_job env job_id) w (get_job_spares env alone read job_id w),
      with_user_spares claims (update_job env job_id change) w
          (update_job_spares env alone read job_id change w),
      with_user_spares claims (remove_job env job_id) w (remove_job_spares env alone read job_id w),
    )
