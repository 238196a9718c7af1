-- ===== src/System.antt =====
-- The service as a whole: the requests of the API (handler/routes.go), the rounds of the poller
-- (service/outbox_poller.go) and the tasks of the worker (service/processor.go) as the steps of one
-- session with the database. What runs at the same time is in the environment of the session.
use digital_ocean_assignment.Base.{ℕ, ◌≡◌, String, Option, none, List, arith}
use digital_ocean_assignment.Base.Int.{ℤ}
use digital_ocean_assignment.Base.Utf8.{Bytes}
use digital_ocean_assignment.Db.Session.{Env, World, Fate}
use digital_ocean_assignment.Db.Valid.{IsValid}
use digital_ocean_assignment.Db.Valid.Programs.{IsSound, PeersKeep}
use digital_ocean_assignment.Service.Task.{Task}
use digital_ocean_assignment.Service.Token.{Crypto, LocalClaims}
use digital_ocean_assignment.Service.Poller.{poll_once}
use digital_ocean_assignment.Service.Poller.Invariant.{poll_once-IsSound}
use digital_ocean_assignment.Service.Processor.{Outside, process_job_task}
use digital_ocean_assignment.Service.Processor.Invariant.{process_job_task-IsSound}
use digital_ocean_assignment.Handler.Http.{AuthRequest, RegisterJobRequest, UpdateJobRequest}
use digital_ocean_assignment.Handler.Users.{register_handler, login_handler}
use digital_ocean_assignment.Handler.Users.Invariant.{
  register_handler-IsSound, login_handler-IsSound,
}
use digital_ocean_assignment.Handler.Jobs.{
  create_job, list_jobs, get_job, update_job, remove_job, create_job_handler, list_jobs_handler,
  get_job_handler, update_job_handler, delete_job_handler,
}
use digital_ocean_assignment.Handler.Jobs.Invariant.{
  with_user-IsSound, create_job-IsSound, list_jobs-IsSound, get_job-IsSound, update_job-IsSound,
  remove_job-IsSound,
}

-- One step of the service, from the session before it to the session after it.
pub data Step (env : Env) : World → World → Type 0 where
  register :
      (lib : Crypto) (at : ℕ → ℕ) (secret : String) (req : Option AuthRequest) (w : World)
      → Step env w (register_handler env lib at secret req w).1
  login :
      (lib : Crypto) (at : ℕ → ℕ) (secret : String) (req : Option AuthRequest) (w : World)
      → Step env w (login_handler env lib at secret req w).1
  create :
      (sha256_hex : Bytes → String) (claims : Option LocalClaims) (req : Option RegisterJobRequest)
      (w : World)
      → Step env w (create_job_handler env sha256_hex claims req w).1
  list :
      (claims : Option LocalClaims) (page page_size : ℤ) (w : World)
      → Step env w (list_jobs_handler env claims page page_size w).1
  get :
      (claims : Option LocalClaims) (job_id : String) (w : World)
      → Step env w (get_job_handler env claims job_id w).1
  update :
      (claims : Option LocalClaims) (job_id : String) (req : Option UpdateJobRequest) (w : World)
      → Step env w (update_job_handler env claims job_id req w).1
  delete :
      (claims : Option LocalClaims) (job_id : String) (w : World)
      → Step env w (delete_job_handler env claims job_id w).1
  poll :
      (redis : Task → Fate) (limit : ℤ) (queue : List Task) (w : World)
      → Step env w (poll_once env redis limit (record { world = w; queue = queue })).1.world
  process :
      (out : Outside) (task : Task) (w : World) → Step env w (process_job_task env out task w).1

-- Any number of steps.
pub data Reaches (env : Env) : World → World → Type 0 where
  here : {w : World} → Reaches env w w
  then : {u v w : World} → Reaches env u v → Step env v w → Reaches env u w

module _ (env : Env) (peers : PeersKeep env) where
  Step-IsSound : {v w : World} → Step env v w → IsSound v → IsSound w
  unfolding create_job_handler list_jobs_handler get_job_handler update_job_handler
      delete_job_handler
  Step-IsSound (Step.register lib at secret req w) sound =
      register_handler-IsSound env lib at secret peers req w sound
  Step-IsSound (Step.login lib at secret req w) sound =
      login_handler-IsSound env lib at secret peers req w sound
  Step-IsSound (Step.create sha256_hex claims req w) sound =
      with_user-IsSound env peers claims (create_job env sha256_hex req) w sound
        (create_job-IsSound env peers sha256_hex req _ w sound)
  Step-IsSound (Step.list claims page page_size w) sound =
      with_user-IsSound env peers claims (list_jobs env page page_size) w sound
        (list_jobs-IsSound env peers page page_size _ w sound)
  Step-IsSound (Step.get claims job_id w) sound =
      with_user-IsSound env peers claims (get_job env job_id) w sound
        (get_job-IsSound env peers job_id _ w sound)
  Step-IsSound (Step.update claims job_id req w) sound =
      with_user-IsSound env peers claims (update_job env job_id req) w sound
        (update_job-IsSound env peers job_id req _ w sound)
  Step-IsSound (Step.delete claims job_id w) sound =
      with_user-IsSound env peers claims (remove_job env job_id) w sound
        (remove_job-IsSound env peers job_id _ w sound)
  Step-IsSound (Step.poll redis limit queue w) sound =
      poll_once-IsSound env peers redis limit (record { world = w; queue = queue }) sound
  Step-IsSound (Step.process out task w) sound = process_job_task-IsSound env peers out task w sound

  Reaches-IsSound : {v w : World} → Reaches env v w → IsSound v → IsSound w
  Reaches-IsSound Reaches.here sound = sound
  Reaches-IsSound (Reaches.then before step) sound =
      Step-IsSound step (Reaches-IsSound before sound)

-- Whatever requests, rounds of the poller and tasks follow one another from valid tables, and
-- however their calls of the store end, the tables stay valid: emails, job ids and the requests of
-- the idempotency keys are unique, every job has a stored owner and one of the five states, and
-- every key that names a job names a stored one. Other sessions are assumed to keep the tables
-- valid.
pub IsValid-Reaches :
    (env : Env) (before after : World)
    → PeersKeep env
    → before.tx ≡ none
    → IsValid before.db
    → Reaches env before after
    → IsValid after.db
IsValid-Reaches env before after peers closed valid steps =
    (Reaches-IsSound env peers steps
      (record { committed = valid; open_tx = λ d e. ground arith })).committed
