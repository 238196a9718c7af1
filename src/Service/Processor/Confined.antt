-- ===== src/Service/Processor/Confined.antt =====
-- service/processor.go: the tables apart from one job, under the statements of a task.
pub mod Runs
use mathlib.Core.Path.{subst}
use digital_ocean_assignment.Base.{
  ℕ, ◌≡◌, refl, sym, ap, ◌∙◌, String, Bool, true, false, Option, none, some, Option-cases,
  Result-cases, inl, inr, List, Result, ok, err, arith, if◌then◌else◌, Bool-cases,
}
use digital_ocean_assignment.Base.Int.{ℤ, fits_int4, pos, leb_ℤ, ◌+ℤ◌}
use digital_ocean_assignment.Base.Utf8.{Bytes, bytes}
use digital_ocean_assignment.Db.Rows.{
  StoreUser, StoreJob, StoreIdempotencyKey, StoreCreateOutboxEventParams, Database,
}
use digital_ocean_assignment.Db.Session.{Env, World, PrintsUuids, on_pool}
use digital_ocean_assignment.Db.Session.Keeping.{
  Sound, Ensures, ensured, StmtEnsures, bind-Ensures, lift-Ensures, pure-Ensures,
  defer_rollback-Ensures, on_pool-Ensures, begin_tx-Ensures, on_tx-Ensures, commit-Ensures,
}
use digital_ocean_assignment.Db.Sql.{find, delete, update, nullable_text, nullable_jsonb}
use digital_ocean_assignment.Db.Sql.Laws.{delete-update}
use digital_ocean_assignment.Db.Jobs.{
  has_id, set_state, set_attempts, select_job, increment_attempts, update_state,
  get_job_by_id_for_update_tx, increment_job_attempts_tx, update_job_state_tx, update_job_state,
}
use digital_ocean_assignment.Db.Keys.Inserts.{select_job-ok, insert_event-ok}
use digital_ocean_assignment.Db.Outbox.{insert_event, create_outbox_event_tx}
use digital_ocean_assignment.Db.Idempotency.Replay.{Alone}
use digital_ocean_assignment.Service.Task.{Task, JobProcessPayload, parse_job_process_payload}
use digital_ocean_assignment.Service.Processor.{
  Outside, Executed, body, failure, TaskError, webhook_error, store_error, execute_job_webhook,
  start_job, queue_retry, record_failure, complete_job, finish_job, run_job, process_job_task,
}

-- The tables without this job and without the outbox.
abbrev pub Elsewhere : Type 0
Elsewhere = List StoreUser × List StoreJob × List StoreIdempotencyKey

unfoldable pub elsewhere : String → Database → Elsewhere
unfolding delete
elsewhere id db = (db.users, delete (has_id id) db.jobs, db.idempotency_keys)

some_same : {A : Type 0} {a b : A} → some a ≡ some b → a ≡ b
some_same e = cc e

module _ (env : Env) (id : String) (fixed : Elsewhere) where
  abbrev pub Confined : Database → Type 0
  Confined db = elsewhere id db ≡ fixed

  update-Confined :
      (f : StoreJob → StoreJob) (db : Database)
      → ((job : StoreJob) → (f job).id ≡ job.id)
      → Confined db
      → Confined (record db { jobs = update (has_id id) f db.jobs })
  unfolding elsewhere
  update-Confined f db same kept =
      ap (λ jobs. (db.users, jobs, db.idempotency_keys))
        (delete-update (has_id id) (has_id id) f db.jobs (λ job h. h) (λ job. rw (same job) refl))
      ∙ kept

  module _ (job_id : String) (read : env.uuid_in job_id ≡ some id) where
    pub update_state-Confined :
        (state : String) (last_error result : Option Bytes) (attempts : ℤ)
        → StmtEnsures Confined
            (λ _. Unit)
            (update_state env job_id state last_error result attempts)
    unfolding update_state
    update_state-Confined state last_error result attempts n db d a e kept =
        elim (Result-cases (nullable_text env last_error)) [
          | inr (bad, unread) ↦ ground arith
          | inl (message, text) ↦ elim (Result-cases (nullable_jsonb env result)) [
            | inr (bad, unread) ↦ ground arith
            | inl (value, json) ↦ (
              subst Confined (ground arith) (
                  update-Confined (set_state state message value attempts (env.now n)) db
                    (λ job. refl) kept),
              tt,
            )
          ]
        ]

    increment_attempts-Confined : StmtEnsures Confined (λ _. Unit) (increment_attempts env job_id)
    unfolding increment_attempts
    increment_attempts-Confined n db d a e kept = elim (Option-cases (find (has_id id) db.jobs)) [
      | inl missing ↦ ground arith
      | inr (job, found) ↦ elim (Bool-cases (fits_int4 (job.attempts +ℤ pos 1))) [
        | inr too_many ↦ ground arith
        | inl fits ↦ (
          subst Confined (ground arith) (
              update-Confined (set_attempts (job.attempts +ℤ pos 1) (env.now n)) db (λ old. refl)
                kept),
          tt,
        )
      ]
    ]

    pub select_job-Confined : StmtEnsures Confined (λ job. job.id ≡ id) (select_job env job_id)
    select_job-Confined n db d job e kept =
        let (id', read', found, same, unchanged) = select_job-ok env job_id n db e in
        (ap (elsewhere id) unchanged ∙ kept, same ∙ some_same (sym read' ∙ read))

  pub insert_event-Confined :
      (params : StoreCreateOutboxEventParams)
      → StmtEnsures Confined (λ _. Unit) (insert_event env params)
  unfolding elsewhere
  insert_event-Confined params n db d a e kept =
      let (_, _, _, _, _, _, after) = insert_event-ok env params n db e in
      (ap (elsewhere id) after ∙ kept, tt)

  -- The programs, for a job of this id.
  module _ (printed : env.uuid_in id ≡ some id) (job : StoreJob) (own : job.id ≡ id) where
    abbrev read_own : env.uuid_in job.id ≡ some id
    read_own = subst (λ i. env.uuid_in i ≡ some id) (sym own) printed

    pub update_job_state_tx-Confined :
        (state : String) (last_error result : Option Bytes) (attempts : ℤ)
        → Ensures Confined
            (λ _. Unit)
            (update_job_state_tx env job.id state last_error result attempts)
    unfolding update_job_state_tx
    update_job_state_tx-Confined state last_error result attempts =
        on_tx-Ensures Confined env (λ _. Unit) _
          (update_state-Confined job.id read_own state last_error result attempts)

    pub increment_job_attempts_tx-Confined :
        Ensures Confined (λ _. Unit) (increment_job_attempts_tx env job.id)
    unfolding increment_job_attempts_tx
    increment_job_attempts_tx-Confined =
        on_tx-Ensures Confined env (λ _. Unit) _ (increment_attempts-Confined job.id read_own)
