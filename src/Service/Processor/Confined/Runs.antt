-- ===== src/Service/Processor/Confined/Runs.antt =====
-- service/processor.go: the tables apart from the job of a task, under `ProcessJobTask`.
use mathlib.Core.Path.{subst}
use digital_ocean_assignment.Base.{
  ℕ, ◌≡◌, refl, sym, String, Bool, true, false, Option, none, some, Result, ok, err, if◌then◌else◌,
  arith,
}
use digital_ocean_assignment.Base.Int.{ℤ, leb_ℤ}
use digital_ocean_assignment.Base.Utf8.{Bytes, bytes}
use digital_ocean_assignment.Db.Rows.{StoreJob, Database}
use digital_ocean_assignment.Db.Session.{Env, World, on_pool}
use digital_ocean_assignment.Db.Session.Keeping.{
  Sound, Ensured, Answers, Ensures, ensured, bind-Ensures, lift-Ensures, pure-Ensures,
  defer_rollback-Ensures, on_pool-Ensures, begin_tx-Ensures, on_tx-Ensures, commit-Ensures,
}
use digital_ocean_assignment.Db.Jobs.{
  get_job_by_id_for_update_tx, update_job_state_tx, update_job_state, update_state,
}
use digital_ocean_assignment.Db.Outbox.{create_outbox_event_tx}
use digital_ocean_assignment.Db.Idempotency.Replay.{Alone}
use digital_ocean_assignment.Service.Task.{Task, JobProcessPayload, parse_job_process_payload}
use digital_ocean_assignment.Service.Processor.{
  Outside, Executed, body, failure, TaskError, webhook_error, store_error, execute_job_webhook,
  start_job, queue_retry, record_failure, complete_job, finish_job, run_job, process_job_task,
}
use digital_ocean_assignment.Service.Processor.Confined.{
  Elsewhere, elsewhere, Confined, update_state-Confined, select_job-Confined, insert_event-Confined,
  update_job_state_tx-Confined, increment_job_attempts_tx-Confined,
}

any_answer : (Q : Database → Type 0) {A : Type 0} (r : Result A) → Answers Q (λ _. Unit) r
any_answer Q (ok a) = tt
any_answer Q (err e) = tt

module _ (env : Env) (alone : Alone env) (id : String) (printed : env.uuid_in id ≡ some id)
    (fixed : Elsewhere) where
  abbrev Kept : Database → Type 0
  Kept = Confined env id fixed

  abbrev No : {A : Type 0} → A → Type 0
  No a = Unit

  peers-Kept : (n : ℕ) (db : Database) → Kept db → Kept (env.peers n db)
  peers-Kept n db kept = rw (alone n db) kept

  -- The first transaction answers with the job of this id.
  start_job-Kept :
      (job_id : String)
      → env.uuid_in job_id ≡ some id
      → Ensures Kept (λ r. r.0.id ≡ id) (start_job env job_id)
  unfolding start_job get_job_by_id_for_update_tx
  start_job-Kept job_id read =
      bind-Ensures Kept No _ _ _ (begin_tx-Ensures Kept env peers-Kept) (λ _ _.
        defer_rollback-Ensures Kept _ _ (
          bind-Ensures Kept (λ job. job.id ≡ id) _ _ _
            (on_tx-Ensures Kept env _ _ (select_job-Confined env id fixed job_id read))
            (λ job own.
              bind-Ensures Kept No _ _ _
                (increment_job_attempts_tx-Confined env id fixed printed job own)
                (λ attempts _.
                  bind-Ensures Kept No _ _ _
                    (update_job_state_tx-Confined env id fixed printed job own "running" none none
                      attempts)
                    (λ _ _.
                      bind-Ensures Kept No _ _ _ (commit-Ensures Kept env)
                        (λ _ _. pure-Ensures Kept _ (job, attempts) own))))))

  module _ (job : StoreJob) (own : job.id ≡ id) (attempts : ℤ) where
    queue_retry-Kept : (message : Bytes) → Ensures Kept No (queue_retry env job message attempts)
    unfolding queue_retry create_outbox_event_tx
    queue_retry-Kept message =
        bind-Ensures Kept No _ _ _
          (update_job_state_tx-Confined env id fixed printed job own "queued" (some message) none
            attempts)
          (λ _ _.
            bind-Ensures Kept No _ _ _ (lift-Ensures Kept No _ (any_answer Kept _)) (λ payload _.
              bind-Ensures Kept No _ _ _
                (on_tx-Ensures Kept env No _ (insert_event-Confined env id fixed _))
                (λ _ _. pure-Ensures Kept No tt tt)))

    failed_or_queued-Kept :
        (message : Bytes) (last : Bool)
        → Ensures Kept No (
            if last
            then update_job_state_tx env job.id "failed" (some message) none attempts
            else queue_retry env job message attempts)
    failed_or_queued-Kept message true =
        update_job_state_tx-Confined env id fixed printed job own "failed" (some message) none
          attempts
    failed_or_queued-Kept message false = queue_retry-Kept message

    record_failure-Kept :
        (message : Bytes) → Ensures Kept No (record_failure env job message attempts)
    unfolding record_failure
    record_failure-Kept message =
        bind-Ensures Kept No _ _ _ (begin_tx-Ensures Kept env peers-Kept) (λ _ _.
          defer_rollback-Ensures Kept _ _ (
            bind-Ensures Kept No _ _ _
              (failed_or_queued-Kept message (leb_ℤ job.max_retries attempts))
              (λ _ _. commit-Ensures Kept env)))

    complete_job-Kept :
        (result : Bytes) (w : World)
        → Sound Kept w
        → Sound Kept (complete_job env job result attempts w).1
    unfolding complete_job update_job_state
    complete_job-Kept result w sound =
        let stmt = update_state env job.id "completed" none (some result) attempts in
        let read : env.uuid_in job.id ≡ some id =
          subst (λ i. env.uuid_in i ≡ some id) (sym own) printed in
        go (on_pool env stmt w).0 (on_pool env stmt w).1
          (ensured Kept No _
            (on_pool-Ensures Kept env peers-Kept No stmt (
              update_state-Confined env id fixed job.id read "completed" none (some result)
                attempts))
            w sound).0
      where
        go :
            (r : Result (Unit {0})) (w' : World)
            → Sound Kept w'
            → let end : Option TaskError × World = elim r [
              | ok _ ↦ (none, w')
              | err e ↦ (some (store_error e), w')
            ] in
              Sound Kept end.1
        go (ok _) w' h = h
        go (err e) w' h = h

    finish_job-Kept :
        (executed : Executed) (w : World)
        → Sound Kept w
        → Sound Kept (finish_job env job attempts executed w).1
    unfolding finish_job
    finish_job-Kept (failure message) w sound =
        (ensured Kept No _ (record_failure-Kept message) w sound).0
    finish_job-Kept (body result) w sound = complete_job-Kept result w sound

  run_job-Kept :
      (out : Outside) (started : Result (StoreJob × ℤ)) (w : World)
      → Ensured Kept (λ r. r.0.id ≡ id) (started, w)
      → Sound Kept (run_job env out started w).1
  unfolding run_job
  run_job-Kept out (err e) w (sound, _) = sound
  run_job-Kept out (ok (job, attempts)) w (sound, own) = go out.cancelled out.injected
    where
      go :
          (cancelled injected : Bool)
          → let end : Option TaskError × World =
              if cancelled
              then (none, w)
              else if injected
              then (some (webhook_error 500 (bytes "simulated random failure")), w)
              else finish_job env job attempts (execute_job_webhook out job) w in
            Sound Kept end.1
      go true injected = sound
      go false true = sound
      go false false = finish_job-Kept job own attempts (execute_job_webhook out job) w sound

  process_job_task-Kept :
      (out : Outside) (task : Task) (w : World)
      → ((payload : JobProcessPayload)
          → parse_job_process_payload out.unmarshal task ≡ some payload
          → env.uuid_in payload.job_id ≡ some id)
      → Sound Kept w
      → Sound Kept (process_job_task env out task w).1
  unfolding process_job_task
  process_job_task-Kept out task w named sound =
      go (parse_job_process_payload out.unmarshal task) refl
    where
      go :
          (parsed : Option JobProcessPayload)
          → parse_job_process_payload out.unmarshal task ≡ parsed
          → let end : Option TaskError × World = elim parsed [
            | none ↦ (none, w)
            | some payload ↦
                let (started, w') = start_job env payload.job_id w in run_job env out started w'
          ] in
            Sound Kept end.1
      go none e = sound
      go (some payload) e =
          run_job-Kept out (start_job env payload.job_id w).0 (start_job env payload.job_id w).1 (
            ensured Kept (λ r. r.0.id ≡ id) _ (start_job-Kept payload.job_id (named payload e)) w
              sound)

-- A task changes no job but the one that it names, no user and no idempotency key, however its
-- calls and its webhook end. The id that the server reads in the task's payload is assumed to be as
-- the server prints it, no other session to be at work, and no transaction to be open.
pub process_job_task_spares :
    (env : Env) (out : Outside) (task : Task) (id : String) (w : World)
    → Alone env
    → env.uuid_in id ≡ some id
    → ((payload : JobProcessPayload)
        → parse_job_process_payload out.unmarshal task ≡ some payload
        → env.uuid_in payload.job_id ≡ some id)
    → w.tx ≡ none
    → elsewhere id (process_job_task env out task w).1.db ≡ elsewhere id w.db
process_job_task_spares env out task id w alone printed named closed =
    (process_job_task-Kept env alone id printed (elsewhere id w.db) out task w named
      (record { committed = refl; open_tx = λ d e. ground (arith, closed, e) })).committed
