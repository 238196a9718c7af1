-- ===== src/Service/Processor/Invariant.antt =====
-- The processing of a task keeps the invariant of the tables.
use digital_ocean_assignment.Base.{
  refl, Bool, true, false, Option, none, some, String, Result, ok, err, if◌then◌else◌,
}
use digital_ocean_assignment.Base.Int.{ℤ, leb_ℤ}
use digital_ocean_assignment.Base.Utf8.{Bytes, bytes}
use digital_ocean_assignment.Db.Rows.{StoreJob}
use digital_ocean_assignment.Db.Session.{Env, World, on_pool}
use digital_ocean_assignment.Db.Jobs.{
  get_job_by_id_for_update_tx, increment_job_attempts_tx, update_job_state_tx, update_job_state,
  update_state,
}
use digital_ocean_assignment.Db.Outbox.{create_outbox_event_tx}
use digital_ocean_assignment.Db.Valid.Statements.{
  select_job-Keeps, increment_attempts-Keeps, update_state-Keeps, insert_event-Keeps,
}
use digital_ocean_assignment.Db.Valid.Programs.{
  PeersKeep, IsSound, Preserves, run, bind-Preserves, lift-Preserves, pure-Preserves,
  defer_rollback-Preserves, begin_tx-Preserves, on_tx-Preserves, on_pool-Preserves,
  commit-Preserves,
}
use digital_ocean_assignment.Service.Task.{Task, JobProcessPayload, parse_job_process_payload}
use digital_ocean_assignment.Service.Processor.{
  Outside, Executed, body, failure, TaskError, webhook_error, store_error, execute_job_webhook,
  start_job, queue_retry, record_failure, complete_job, finish_job, run_job, process_job_task,
}

module _ (env : Env) where
  start_job-Preserves : PeersKeep env → (id : String) → Preserves (start_job env id)
  unfolding start_job get_job_by_id_for_update_tx increment_job_attempts_tx update_job_state_tx
  start_job-Preserves peers id = bind-Preserves _ _ (begin_tx-Preserves env peers) (λ _.
      defer_rollback-Preserves _ (
        bind-Preserves _ _ (on_tx-Preserves env _ (select_job-Keeps env id)) (λ job.
          bind-Preserves _ _ (on_tx-Preserves env _ (increment_attempts-Keeps env job.id))
            (λ attempts.
              bind-Preserves _ _
                (on_tx-Preserves env _
                  (update_state-Keeps env job.id "running" none none attempts refl))
                (λ _.
                  bind-Preserves _ _ (commit-Preserves env)
                    (λ _. pure-Preserves (job, attempts)))))))

  queue_retry-Preserves :
      (job : StoreJob) (message : Bytes) (attempts : ℤ)
      → Preserves (queue_retry env job message attempts)
  unfolding queue_retry update_job_state_tx create_outbox_event_tx
  queue_retry-Preserves job message attempts =
      bind-Preserves _ _
        (on_tx-Preserves env _
          (update_state-Keeps env job.id "queued" (some message) none attempts refl))
        (λ _. bind-Preserves _ _ (lift-Preserves _) (λ payload.
          bind-Preserves _ _ (on_tx-Preserves env _ (insert_event-Keeps env _))
            (λ _. pure-Preserves tt)))

  -- The branch on the attempts that are left.
  failed_or_queued-Preserves :
      (job : StoreJob) (message : Bytes) (attempts : ℤ) (last : Bool)
      → Preserves (
          if last
          then update_job_state_tx env job.id "failed" (some message) none attempts
          else queue_retry env job message attempts)
  unfolding update_job_state_tx
  failed_or_queued-Preserves job message attempts true =
      on_tx-Preserves env _
        (update_state-Keeps env job.id "failed" (some message) none attempts refl)
  failed_or_queued-Preserves job message attempts false = queue_retry-Preserves job message attempts

  module _ (peers : PeersKeep env) where
    record_failure-Preserves :
        (job : StoreJob) (message : Bytes) (attempts : ℤ)
        → Preserves (record_failure env job message attempts)
    unfolding record_failure
    record_failure-Preserves job message attempts =
        bind-Preserves _ _ (begin_tx-Preserves env peers) (λ _. defer_rollback-Preserves _ (
          bind-Preserves _ _
            (failed_or_queued-Preserves job message attempts (leb_ℤ job.max_retries attempts))
            (λ _. commit-Preserves env)))

    complete_job-IsSound :
        (job : StoreJob) (result : Bytes) (attempts : ℤ) (w : World)
        → IsSound w
        → IsSound (complete_job env job result attempts w).1
    unfolding complete_job update_job_state
    complete_job-IsSound job result attempts w sound =
        let stmt = update_state env job.id "completed" none (some result) attempts in
        go (on_pool env stmt w).0 (on_pool env stmt w).1 (
          run _
            (on_pool-Preserves env peers stmt
              (update_state-Keeps env job.id "completed" none (some result) attempts refl))
            w sound)
      where
        go :
            (r : Result (Unit {0})) (w' : World)
            → IsSound w'
            → let end : Option TaskError × World = elim r [
              | ok _ ↦ (none, w')
              | err e ↦ (some (store_error e), w')
            ] in
              IsSound end.1
        go (ok _) w' h = h
        go (err e) w' h = h

    finish_job-IsSound :
        (job : StoreJob) (attempts : ℤ) (executed : Executed) (w : World)
        → IsSound w
        → IsSound (finish_job env job attempts executed w).1
    unfolding finish_job
    finish_job-IsSound job attempts (failure message) w sound =
        run _ (record_failure-Preserves job message attempts) w sound
    finish_job-IsSound job attempts (body result) w sound =
        complete_job-IsSound job result attempts w sound

    run_job-IsSound :
        (out : Outside) (started : Result (StoreJob × ℤ)) (w : World)
        → IsSound w
        → IsSound (run_job env out started w).1
    unfolding run_job
    run_job-IsSound out (err e) w sound = sound
    run_job-IsSound out (ok (job, attempts)) w sound = go out.cancelled out.injected
      where
        go :
            (cancelled injected : Bool)
            → let end : Option TaskError × World =
                if cancelled
                then (none, w)
                else if injected
                then (some (webhook_error 500 (bytes "simulated random failure")), w)
                else finish_job env job attempts (execute_job_webhook out job) w in
              IsSound end.1
        go true injected = sound
        go false true = sound
        go false false = finish_job-IsSound job attempts (execute_job_webhook out job) w sound

    pub process_job_task-IsSound :
        (out : Outside) (task : Task) (w : World)
        → IsSound w
        → IsSound (process_job_task env out task w).1
    unfolding process_job_task
    process_job_task-IsSound out task w sound = go (parse_job_process_payload out.unmarshal task)
      where
        go :
            (parsed : Option JobProcessPayload)
            → let end : Option TaskError × World = elim parsed [
              | none ↦ (none, w)
              | some payload ↦
                  let (started, w') = start_job env payload.job_id w in run_job env out started w'
            ] in
              IsSound end.1
        go none = sound
        go (some payload) =
            run_job-IsSound out (start_job env payload.job_id w).0
              (start_job env payload.job_id w).1
              (run _ (start_job-Preserves peers payload.job_id) w sound)
