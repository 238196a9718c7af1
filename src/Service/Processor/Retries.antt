-- ===== src/Service/Processor/Retries.antt =====
-- A webhook that always fails: the attempts of a job are counted up to its `max_retries`.
use digital_ocean_assignment.Base.{ℕ, zero, suc, ◌<◌, ◌≡◌, refl, String, true, some, arith}
use digital_ocean_assignment.Base.Int.{pos, fits_int4}
use digital_ocean_assignment.Base.Utf8.{Bytes}
use digital_ocean_assignment.Db.Rows.{StoreJob}
use digital_ocean_assignment.Db.Session.{Env, World}
use digital_ocean_assignment.Db.Sql.{find}
use digital_ocean_assignment.Db.Jobs.{has_id}
use digital_ocean_assignment.Service.Task.{Task}
use digital_ocean_assignment.Service.Processor.{Outside, process_job_task}
use digital_ocean_assignment.Service.Processor.Attempts.{IsHopeless, Tried, retry, give_up}

-- The session after the task has been processed a number of times.
pub retried : Env → Outside → Task → ℕ → World → World
retried env out task zero w = w
retried env out task (suc k) w = (process_job_task env out task (retried env out task k w)).1

module _ (env : Env) (out : Outside) (task : Task) (id : String) (origin : StoreJob) (text : Bytes)
    (hopeless : IsHopeless env out task id origin text) (w : World) {state : String} {retries : ℕ}
    (new : Tried env id origin state 0 retries w) (fits : fits_int4 (pos retries) ≡ true) where
  retried-Tried :
      (k : ℕ)
      → suc k < retries
      → Tried env id origin "queued" (suc k) retries (retried env out task (suc k) w)
  unfolding retried
  retried-Tried zero more = retry env out task id origin text hopeless w new fits more
  retried-Tried (suc k) more =
      retry env out task id origin text hopeless (retried env out task (suc k) w)
        (retried-Tried k (omega (arith, more))) fits more

  last_try :
      (k : ℕ)
      → suc k ≡ retries
      → (job : StoreJob) × (find (has_id id) (retried env out task (suc k) w).db.jobs ≡ some job)
        × (job.state ≡ "failed")
        × (job.attempts ≡ pos retries)
        × (job.last_error ≡ some text)
  unfolding retried
  last_try zero last = give_up env out task id origin text hopeless w new fits last
  last_try (suc k) last =
      give_up env out task id origin text hopeless (retried env out task (suc k) w)
        (retried-Tried k (omega (arith, last))) fits last

-- A job whose webhook fails at every attempt ends as failed, with the webhook's error, when its task
-- has been processed `max_retries` times: this is the number of all attempts, the first included.
-- After each earlier attempt it is queued, with the attempts made so far. The job is assumed to be
-- new, no attempt to be cancelled or to meet the injected failure, the calls to succeed with no
-- other session at work, the event of a retry of this job to be encoded and accepted as JSON, and
-- the ids of new events to be new.
pub hopeless_job_fails :
    (env : Env) (out : Outside) (task : Task) (id state : String) (origin : StoreJob) (text : Bytes)
    (m : ℕ) (w : World)
    → IsHopeless env out task id origin text
    → Tried env id origin state 0 (suc m) w
    → fits_int4 (pos (suc m)) ≡ true
    → ((k : ℕ)
        → suc k < suc m
        → (job : StoreJob) × (find (has_id id) (retried env out task (suc k) w).db.jobs ≡ some job)
          × (job.state ≡ "queued")
          × (job.attempts ≡ pos (suc k)))
      × (job : StoreJob) × (find (has_id id) (retried env out task (suc m) w).db.jobs ≡ some job)
      × (job.state ≡ "failed")
      × (job.attempts ≡ pos (suc m))
      × (job.last_error ≡ some text)
hopeless_job_fails env out task id state origin text m w hopeless new fits =
    let (job, found, is_failed, counted, reported) =
      last_try env out task id origin text hopeless w new fits m refl in
    (
      λ k more.
          let tried = retried-Tried env out task id origin text hopeless w new fits k more in
          (tried.job, tried.found, tried.is_state, tried.counted),
      job,
      found,
      is_failed,
      counted,
      reported,
    )
