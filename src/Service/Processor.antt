-- ===== src/Service/Processor.antt =====
-- service/processor.go. The webhook, the random numbers and the cancellation of the context come
-- from outside: they are the parameter `Outside` of one run.
pub mod Start
pub mod Finish
pub mod Outcomes
pub mod Attempts
pub mod Retries
pub mod Confined
pub mod Invariant
use digital_ocean_assignment.Base.{
  ℕ, String, Bool, false, Option, none, some, if◌then◌else◌, ◌||◌, ltb, leb, Error, Result, ok, err,
}
use digital_ocean_assignment.Base.Int.{ℤ, leb_ℤ}
use digital_ocean_assignment.Base.Utf8.{Bytes, bytes}
use digital_ocean_assignment.Db.Rows.{StoreJob}
use digital_ocean_assignment.Db.Session.{
  Env, World, Action, begin_tx, commit, defer_rollback, pure, lift, ◌>>=◌, ◌>>◌,
}
use digital_ocean_assignment.Db.Jobs.{
  get_job_by_id_for_update_tx, increment_job_attempts_tx, update_job_state_tx, update_job_state,
}
use digital_ocean_assignment.Db.Outbox.{create_outbox_event_tx}
use digital_ocean_assignment.Db.Idempotency.{event_payload}
use digital_ocean_assignment.Service.Task.{Unmarshal, Task, parse_job_process_payload}

-- What a POST ends in: the message of a failed call or of a failed reading of the body, or the
-- status and the body.
pub data Reply : Type 0 where
  refused : Bytes → Reply
  response : ℕ → Bytes → Reply

-- `post` takes the client's time limit in seconds, the address and the body.
pub record Outside : Type 0 where
  pub unmarshal : Unmarshal
  pub cancelled : Bool
  pub injected : Bool
  pub post : ℕ → String → Bytes → Reply

-- The result of `executeJobWebhook`: the body, or the text of the error.
pub data Executed : Type 0 where
  body : Bytes → Executed
  failure : Bytes → Executed

abbrev pub webhook_timeout : ℕ
webhook_timeout = 15

-- A status outside 200 to 299 is an error whose text is the body.
abbrev pub judge : Reply → Executed
judge (refused message) = failure message
judge (response status answer) =
    if ltb status 200 || leb 300 status then failure answer else body answer

unfoldable pub execute_job_webhook : Outside → StoreJob → Executed
execute_job_webhook out job = judge (out.post webhook_timeout job.webhook_url job.payload)

-- The error that the handler of a task returns to the queue.
pub data TaskError : Type 0 where
  webhook_error : ℕ → Bytes → TaskError
  store_error : Error → TaskError

module _ (env : Env) where
  -- The first transaction: the job as it was read, and the number of this attempt.
  unfoldable pub start_job : String → Action (StoreJob × ℤ)
  unfolding begin_tx commit get_job_by_id_for_update_tx increment_job_attempts_tx
      update_job_state_tx
  start_job job_id = do
    begin_tx env
    defer_rollback do
      job ← get_job_by_id_for_update_tx env job_id
      attempts ← increment_job_attempts_tx env job.id
      update_job_state_tx env job.id "running" none none attempts
      commit env
      pure (job, attempts)

  unfoldable pub queue_retry : StoreJob → Bytes → ℤ → Action (Unit {0})
  unfolding update_job_state_tx event_payload create_outbox_event_tx
  queue_retry job message attempts = do
    update_job_state_tx env job.id "queued" (some message) none attempts
    payload ← lift (event_payload env job.id job.type job.name job.webhook_url job.payload)
    create_outbox_event_tx env (record {
      aggregate_type = "job";
      aggregate_id = job.id;
      event_type = "job_retry";
      payload = payload;
      published = false;
    })
    pure tt

  -- The second transaction, after a failed webhook.
  unfoldable pub record_failure : StoreJob → Bytes → ℤ → Action (Unit {0})
  unfolding begin_tx commit queue_retry update_job_state_tx
  record_failure job message attempts = do
    begin_tx env
    defer_rollback do
      if leb_ℤ job.max_retries attempts
          then update_job_state_tx env job.id "failed" (some message) none attempts
          else queue_retry job message attempts
      commit env

  -- `UpdateJobState` is the last call, and its error is returned.
  unfoldable pub complete_job : StoreJob → Bytes → ℤ → World → Option TaskError × World
  unfolding update_job_state
  complete_job job result attempts w =
      let (r, w') = update_job_state env job.id "completed" none (some result) attempts w in
      elim r [ ok _ ↦ (none, w') | err e ↦ (some (store_error e), w') ]

  unfoldable pub finish_job : StoreJob → ℤ → Executed → World → Option TaskError × World
  unfolding record_failure complete_job
  finish_job job attempts (failure message) w = (none, (record_failure job message attempts w).1)
  finish_job job attempts (body result) w = complete_job job result attempts w

  module _ (out : Outside) where
    -- What follows the first transaction.
    unfoldable pub run_job : Result (StoreJob × ℤ) → World → Option TaskError × World
    unfolding finish_job execute_job_webhook
    run_job (err e) w = (none, w)
    run_job (ok (job, attempts)) w =
        if out.cancelled
        then (none, w)
        else if out.injected
        then (some (webhook_error 500 (bytes "simulated random failure")), w)
        else finish_job job attempts (execute_job_webhook out job) w

    unfoldable pub process_job_task : Task → World → Option TaskError × World
    unfolding run_job start_job parse_job_process_payload
    process_job_task task w = elim (parse_job_process_payload out.unmarshal task) [
      | none ↦ (none, w)
      | some payload ↦ let (started, w') = start_job payload.job_id w in run_job started w'
    ]
