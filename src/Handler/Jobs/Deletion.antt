-- ===== src/Handler/Jobs/Deletion.antt =====
-- DELETE /jobs/{id}, and what is left of the job afterwards.
use digital_ocean_assignment.Base.{
  suc, ◌≡◌, ◌≢◌, refl, ap, ◌∙◌, inl, inr, String, true, false, Option, none, some, List, [], ◌∷◌,
  ok, err, sym, Error, arith, Bool-cases, any, eq_iff, eq_refl,
}
use digital_ocean_assignment.Db.Rows.{StoreJob, Database}
use digital_ocean_assignment.Db.Session.{Env, World, on_pool}
use digital_ocean_assignment.Db.Session.Rules.{world}
use digital_ocean_assignment.Db.Sql.{find, delete}
use digital_ocean_assignment.Db.Sql.Laws.{find-eq-none_of_any}
use digital_ocean_assignment.Db.Jobs.{
  has_id, is_owned, refers_to, delete_owned, delete_job, get_job_by_id,
}
use digital_ocean_assignment.Db.Idempotency.Replay.{AllDone, Alone}
use digital_ocean_assignment.Db.Valid.{IsValid, Apart, same_job}
use digital_ocean_assignment.Db.Valid.Tables.{any-delete-false}
use digital_ocean_assignment.Service.Token.{LocalClaims}
use digital_ocean_assignment.Handler.Http.{
  UpdateJobRequest, Response, Served, empty, write_json, get_user_id,
}
use digital_ocean_assignment.Handler.Jobs.{
  has_fields, get_job, update_job, remove_job, get_job_handler, update_job_handler,
  delete_job_handler,
}
use digital_ocean_assignment.Handler.Jobs.Access.{known_user, get_job-found, get_job-missing}

-- A job is gone after its deletion when no other has its id.
deleted_job :
    (id user : String) (jobs : List StoreJob) {job : StoreJob}
    → Apart same_job jobs
    → find (has_id id) jobs ≡ some job
    → job.user_id ≡ user
    → any (has_id id) (delete (is_owned id user) jobs) ≡ false
unfolding find delete
deleted_job id user [] apart found own = refl
deleted_job id user (x ∷ jobs) {job} (new, apart) found own = elim (Bool-cases (has_id id x)) [
  | inl hit ↦
      ground
        (arith, eq_iff x.id id, eq_refl user, any-delete-false (has_id id) (is_owned id user) jobs)
  | inr miss ↦ ground (arith, deleted_job id user jobs {job = job} apart)
]

-- The tables without a job and the keys that point to it.
abbrev pub without : String → String → Database → Database
without id user db = record db {
  jobs = delete (is_owned id user) db.jobs;
  idempotency_keys = delete (refers_to id) db.idempotency_keys;
}

owned_there :
    (id user : String) (jobs : List StoreJob) {job : StoreJob}
    → find (has_id id) jobs ≡ some job
    → job.user_id ≡ user
    → any (is_owned id user) jobs ≡ true
unfolding find
owned_there id user [] found own = ground arith
owned_there id user (x ∷ jobs) {job} found own = elim (Bool-cases (has_id id x)) [
  | inl hit ↦ ground (arith, eq_refl user)
  | inr miss ↦ ground (arith, owned_there id user jobs {job = job})
]

delete_job-done :
    (env : Env) (job_id id user : String) (w : World)
    → AllDone env
    → Alone env
    → env.uuid_in job_id ≡ some id
    → env.uuid_in user ≡ some user
    → any (is_owned id user) w.db.jobs ≡ true
    → delete_job env job_id user w ≡ (ok tt, world (suc w.calls) (without id user w.db) w.tx)
unfolding delete_job on_pool delete_owned
delete_job-done env job_id id user w all_done alone read read_user there =
    ground (arith, all_done w.calls, alone w.calls w.db)

-- A user who deletes a job of the user's own is answered by 200. The job and the idempotency keys
-- that point to it are gone and nothing else has changed. A GET, a PUT that gives a field and a
-- second DELETE of the job that come next are answered by 404, and leave the tables as they are.
-- The calls are assumed to succeed with no other session at work, in valid tables, and the user's id
-- to be as the server prints it.
pub delete_job_handler_lem :
    (env : Env) (claims : Option LocalClaims) (job_id id : String) (job : StoreJob)
    (req : UpdateJobRequest) (w : World)
    → AllDone env
    → Alone env
    → get_user_id claims ≢ ""
    → env.uuid_in job_id ≡ some id
    → env.uuid_in (get_user_id claims) ≡ some (get_user_id claims)
    → IsValid w.db
    → find (has_id id) w.db.jobs ≡ some job
    → job.user_id ≡ get_user_id claims
    → has_fields req ≡ true
    → let (answer, w') = delete_job_handler env claims job_id w in
      let missing : Response = record {
        status = 404;
        message = "job not found";
        content = empty;
      } in
      (answer ≡ record { status = 200; message = "job deleted"; content = empty })
      × (w'.db ≡ without id (get_user_id claims) w.db)
      × ((get_job_handler env claims job_id w').0 ≡ missing)
      × ((get_job_handler env claims job_id w').1.db ≡ w'.db)
      × ((update_job_handler env claims job_id (some req) w').0 ≡ missing)
      × ((update_job_handler env claims job_id (some req) w').1.db ≡ w'.db)
      × ((delete_job_handler env claims job_id w').0 ≡ missing)
      × ((delete_job_handler env claims job_id w').1.db ≡ w'.db)
unfolding delete_job_handler update_job_handler get_job_handler remove_job update_job get_job
delete_job_handler_lem env claims job_id id job req w all_done alone known read read_user valid
      found own given =
    (
      ap (λ r. r.0) served,
      ap (λ r. r.1.db) served,
      ap (λ r. (get_job_handler env claims job_id r.1).0) served ∙ ap (λ r. r.0) shown,
      ap (λ r. (get_job_handler env claims job_id r.1).1.db) served ∙ ap (λ r. r.1.db) shown ∙ kept,
      ap (λ r. (update_job_handler env claims job_id (some req) r.1).0) served
          ∙ ap (λ r. r.0) changed,
      ap (λ r. (update_job_handler env claims job_id (some req) r.1).1.db) served
          ∙ ap (λ r. r.1.db) changed
          ∙ kept,
      ap (λ r. (delete_job_handler env claims job_id r.1).0) served ∙ ap (λ r. r.0) removed,
      ap (λ r. (delete_job_handler env claims job_id r.1).1.db) served
          ∙ ap (λ r. r.1.db) removed
          ∙ kept,
    )
  where
    user : String
    user = get_user_id claims

    fetched : World
    fetched = world (suc w.calls) w.db w.tx

    left : World
    left = world (suc (suc w.calls)) (without id user w.db) w.tx

    served : delete_job_handler env claims job_id w ≡ write_json 200 "job deleted" empty left
    served =
        known_user claims (remove_job env job_id) w known
        ∙ ground (
          arith,
          alone w.calls w.db,
          eq_iff job.user_id user,
          get_job-found env all_done w job_id read {job = job},
          delete_job-done env job_id id user fetched all_done alone read read_user
              (owned_there id user w.db.jobs found own),
        )

    gone : find (has_id id) left.db.jobs ≡ none
    gone =
        find-eq-none_of_any (has_id id) left.db.jobs
          (deleted_job id user w.db.jobs valid.jobs_apart found own)

    seen : find (has_id id) (env.peers left.calls left.db).jobs ≡ none
    seen = ap (λ db. find (has_id id) db.jobs) (alone left.calls left.db) ∙ gone

    kept : left.db ≡ (delete_job_handler env claims job_id w).1.db
    kept = sym (ap (λ r. r.1.db) served)

    missing : Served
    missing = write_json 404 "job not found" empty (world (suc left.calls) left.db left.tx)

    none_there :
        get_job_by_id env job_id left ≡ (err Error.no_rows, world (suc left.calls) left.db left.tx)
    none_there =
        get_job-missing env all_done left job_id read seen
        ∙ ap (λ db. (err Error.no_rows, world (suc left.calls) db left.tx))
            (alone left.calls left.db)

    shown : get_job_handler env claims job_id left ≡ missing
    shown = known_user claims (get_job env job_id) left known ∙ rw none_there refl

    changed : update_job_handler env claims job_id (some req) left ≡ missing
    changed =
        known_user claims (update_job env job_id (some req)) left known
        ∙ rw given (rw none_there refl)

    removed : delete_job_handler env claims job_id left ≡ missing
    removed = known_user claims (remove_job env job_id) left known ∙ rw none_there refl
