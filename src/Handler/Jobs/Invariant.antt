-- ===== src/Handler/Jobs/Invariant.antt =====
-- The handlers of the jobs keep the invariant of the tables.
use mathlib.Core.Path.{subst}
use digital_ocean_assignment.Base.{
  sym, ◌==◌, String, Option, none, some, Result, ok, err, if◌then◌else◌, Bool-cases, inl, inr,
}
use digital_ocean_assignment.Base.Int.{ℤ, pos, leb_ℤ}
use digital_ocean_assignment.Base.Utf8.{Bytes}
use digital_ocean_assignment.Db.Rows.{StoreJob}
use digital_ocean_assignment.Db.Session.{Env, World, query_row}
use digital_ocean_assignment.Db.Jobs.{
  get_job_by_id, get_job_by_id_tx, list_jobs_by_user, update_job_details, delete_job,
}
use digital_ocean_assignment.Db.Idempotency.{create_job_with_idempotency}
use digital_ocean_assignment.Db.Idempotency.Invariant.{create_job-Preserves}
use digital_ocean_assignment.Db.Valid.Statements.{
  select_job-Keeps, select_jobs-Keeps, update_details-Keeps, delete_owned-Keeps,
}
use digital_ocean_assignment.Db.Valid.Programs.{PeersKeep, IsSound, run, on_pool-Preserves}
use digital_ocean_assignment.Service.Token.{LocalClaims}
use digital_ocean_assignment.Handler.Http.{
  RegisterJobRequest, UpdateJobRequest, Served, get_user_id,
}
use digital_ocean_assignment.Handler.Jobs.{
  with_user, with_own_job, has_required, has_fields, apply_update, at_least_one, offset_of,
  payload_of, job_params, request_hash, create_job, list_jobs, get_job, store_update, update_job,
  remove_job,
}
use digital_ocean_assignment.Handler.Jobs.Isolation.{world-answered, world-listed, world-created}

module _ (env : Env) (peers : PeersKeep env) where
  get_job_by_id-IsSound :
      (job_id : String) (w : World) → IsSound w → IsSound (get_job_by_id env job_id w).1
  unfolding get_job_by_id get_job_by_id_tx query_row
  get_job_by_id-IsSound job_id w sound =
      run _ (on_pool-Preserves env peers _ (select_job-Keeps env job_id)) w sound

  with_own_job-IsSound :
      (user : String) (next : StoreJob → World → Served)
      → ((job : StoreJob) (w : World) → IsSound w → IsSound (next job w).1)
      → (found : Result StoreJob × World) → IsSound found.1
      → IsSound (with_own_job user next found).1
  with_own_job-IsSound user next keeps (err e, w) sound = sound
  with_own_job-IsSound user next keeps (ok job, w) sound = elim (Bool-cases (job.user_id == user)) [
    | inl own ↦ rw own (keeps job w sound)
    | inr other ↦ rw other sound
  ]

  pub with_user-IsSound :
      (claims : Option LocalClaims) (next : String → World → Served) (w : World)
      → IsSound w
      → IsSound (next (get_user_id claims) w).1
      → IsSound (with_user claims next w).1
  unfolding with_user
  with_user-IsSound claims next w before after = elim (Bool-cases (get_user_id claims == "")) [
    | inl nobody ↦ rw nobody before
    | inr somebody ↦ rw somebody after
  ]

  pub create_job-IsSound :
      (sha256_hex : Bytes → String) (req : Option RegisterJobRequest) (user : String) (w : World)
      → IsSound w
      → IsSound (create_job env sha256_hex req user w).1
  unfolding create_job
  create_job-IsSound sha256_hex none user w sound = sound
  create_job-IsSound sha256_hex (some req) user w sound =
      let payload = payload_of req in
      let hash = request_hash sha256_hex payload in
      let params = job_params user req payload in
      let result = create_job_with_idempotency env user hash "POST" "/jobs" params w in
      elim (Bool-cases (has_required req)) [
        | inr incomplete ↦ rw incomplete sound
        | inl complete ↦ rw complete (
            subst IsSound (sym (world-created result))
              (run _ (create_job-Preserves env user hash "POST" "/jobs" params peers) w sound))
      ]

  pub list_jobs-IsSound :
      (page page_size : ℤ) (user : String) (w : World)
      → IsSound w
      → IsSound (list_jobs env page page_size user w).1
  unfolding list_jobs list_jobs_by_user
  list_jobs-IsSound page page_size user w sound =
      let size = at_least_one (pos 20) page_size in
      let offset = offset_of (at_least_one (pos 1) page) size in
      subst IsSound (sym (world-listed (list_jobs_by_user env user size offset w))) (
        run _
          (on_pool-Preserves env peers _
            (select_jobs-Keeps env user (if leb_ℤ size (pos 0) then pos 20 else size) offset))
          w sound)

  pub get_job-IsSound :
      (job_id user : String) (w : World) → IsSound w → IsSound (get_job env job_id user w).1
  unfolding get_job
  get_job-IsSound job_id user w sound =
      with_own_job-IsSound user _ (λ job w' h. h) (get_job_by_id env job_id w)
        (get_job_by_id-IsSound job_id w sound)

  store_update-IsSound :
      (req : UpdateJobRequest) (job : StoreJob) (w : World)
      → IsSound w
      → IsSound (store_update env req job w).1
  unfolding store_update update_job_details
  store_update-IsSound req job w sound =
      let new = apply_update req job in
      subst IsSound (sym (world-answered "job updated" "failed to update job" _)) (
        run _
          (on_pool-Preserves env peers _ (
            update_details-Keeps env new.id new.user_id new.name new.webhook_url new.max_retries
              new.timeout_seconds new.version))
          w sound)

  pub update_job-IsSound :
      (job_id : String) (req : Option UpdateJobRequest) (user : String) (w : World)
      → IsSound w
      → IsSound (update_job env job_id req user w).1
  unfolding update_job
  update_job-IsSound job_id none user w sound = sound
  update_job-IsSound job_id (some req) user w sound = elim (Bool-cases (has_fields req)) [
    | inr nothing ↦ rw nothing sound
    | inl given ↦ rw given (
        with_own_job-IsSound user (store_update env req) (store_update-IsSound req)
          (get_job_by_id env job_id w) (get_job_by_id-IsSound job_id w sound))
  ]

  pub remove_job-IsSound :
      (job_id user : String) (w : World) → IsSound w → IsSound (remove_job env job_id user w).1
  unfolding remove_job delete_job
  remove_job-IsSound job_id user w sound =
      with_own_job-IsSound user _
        (λ job w' h.
          subst IsSound (sym (world-answered "job deleted" "failed to delete job" _))
            (run _ (on_pool-Preserves env peers _ (delete_owned-Keeps env job_id user)) w' h))
        (get_job_by_id env job_id w) (get_job_by_id-IsSound job_id w sound)
