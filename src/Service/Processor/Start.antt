-- ===== src/Service/Processor/Start.antt =====
-- The first transaction of `ProcessJobTask`: it counts the attempt and marks the job as running.
use digital_ocean_assignment.Base.{ℕ, suc, ◌≡◌, refl, String, true, none, some, ok, arith}
use digital_ocean_assignment.Base.Int.{ℤ, pos, ◌+ℤ◌, fits_int4}
use digital_ocean_assignment.Db.Rows.{StoreJob, Database}
use digital_ocean_assignment.Db.Session.{Env, World, on_tx, begin_tx, commit, defer_rollback, ◌>>=◌}
use digital_ocean_assignment.Db.Session.Rules.{world}
use digital_ocean_assignment.Db.Sql.{find, update}
use digital_ocean_assignment.Db.Sql.Laws.{update-update}
use digital_ocean_assignment.Db.Jobs.{
  has_id, set_attempts, set_state, select_job, increment_attempts, update_state,
  get_job_by_id_for_update_tx, increment_job_attempts_tx, update_job_state_tx,
}
use digital_ocean_assignment.Db.Idempotency.Replay.{AllDone, Alone}
use digital_ocean_assignment.Service.Processor.{start_job}

-- The tables with the job of this id marked as running, at its attempt.
abbrev pub running : String → ℤ → ℕ → Database → Database
running id attempts now db = record db {
  jobs = update (has_id id) (set_state "running" none none attempts now) db.jobs;
}

-- The next attempt of a job.
abbrev pub next_attempt : StoreJob → ℤ
next_attempt job = job.attempts +ℤ pos 1

module _ (env : Env) (all_done : AllDone env) (alone : Alone env) where
  pub start_job-done :
      (w : World) {job : StoreJob}
      → find (has_id job.id) w.db.jobs ≡ some job
      → env.uuid_in job.id ≡ some job.id
      → fits_int4 (next_attempt job) ≡ true
      → start_job env job.id w ≡ (
        ok (job, next_attempt job),
        world
            (suc (suc (suc (suc (suc w.calls)))))
            (running job.id (next_attempt job) (env.now (suc (suc (suc w.calls)))) w.db)
            none,
      )
  unfolding start_job get_job_by_id_for_update_tx increment_job_attempts_tx update_job_state_tx
      on_tx begin_tx commit defer_rollback ◌>>=◌ select_job increment_attempts update_state
  start_job-done w {job} found printed fits = ground (
    arith,
    all_done w.calls,
    all_done (suc w.calls),
    all_done (suc (suc w.calls)),
    all_done (suc (suc (suc w.calls))),
    all_done (suc (suc (suc (suc w.calls)))),
    alone w.calls w.db,
    update-update (has_id job.id) (set_attempts (next_attempt job) (env.now (suc (suc w.calls))))
        (set_state "running" none none (next_attempt job) (env.now (suc (suc (suc w.calls)))))
        w.db.jobs (λ x. refl) (λ x. refl),
  )
