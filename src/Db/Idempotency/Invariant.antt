-- ===== src/Db/Idempotency/Invariant.antt =====
-- The creation of a job keeps the invariant of the tables.
use digital_ocean_assignment.Base.{◌+◌, String, Result, ok, err, no_rows}
use digital_ocean_assignment.Db.Rows.{StoreCreateJobParams}
use digital_ocean_assignment.Db.Session.{Env, query_row, on_tx}
use digital_ocean_assignment.Db.Jobs.{get_job_by_id_tx}
use digital_ocean_assignment.Db.Keys.{select_key}
use digital_ocean_assignment.Db.Idempotency.{
  day, with_defaults, reuse_job, register_job, after_lookup, create_job_with_idempotency,
}
use digital_ocean_assignment.Db.Valid.Statements.{
  select_job-Keeps, select_key-Keeps, insert_job-Keeps, insert_key-Keeps, insert_event-Keeps,
}
use digital_ocean_assignment.Db.Valid.Programs.{
  PeersKeep, Preserves, preserves, run, bind-Preserves, lift-Preserves, pure-Preserves,
  defer_rollback-Preserves, begin_tx-Preserves, on_tx-Preserves, commit-Preserves,
}

module _ (env : Env) where
  reuse_job-Preserves : (id : String) → Preserves (reuse_job env id)
  unfolding reuse_job get_job_by_id_tx query_row
  reuse_job-Preserves id =
      bind-Preserves _ _ (on_tx-Preserves env _ (select_job-Keeps env id))
        (λ job. bind-Preserves _ _ (commit-Preserves env) (λ _. pure-Preserves (job, _)))

  module _ (user_id hash method path : String) (params : StoreCreateJobParams) where
    register_job-Preserves : Preserves (register_job env user_id hash method path params)
    unfolding register_job get_job_by_id_tx query_row
    register_job-Preserves =
        bind-Preserves _ _ (on_tx-Preserves env _ (insert_job-Keeps env (with_defaults params)))
          (λ id.
            bind-Preserves _ _
              (on_tx-Preserves env _
                (insert_key-Keeps env user_id hash id method path (λ n. env.now n + day)))
              (λ _. bind-Preserves _ _ (lift-Preserves _) (λ payload.
                bind-Preserves _ _ (on_tx-Preserves env _ (insert_event-Keeps env _)) (λ _.
                  bind-Preserves _ _ (on_tx-Preserves env _ (select_job-Keeps env id)) (λ job.
                    bind-Preserves _ _ (commit-Preserves env) (λ _. pure-Preserves (job, _)))))))

    after_lookup-Preserves :
        (found : Result String) → Preserves (after_lookup env user_id hash method path params found)
    unfolding after_lookup
    after_lookup-Preserves (ok existing) = reuse_job-Preserves existing
    after_lookup-Preserves (err no_rows) = register_job-Preserves
    after_lookup-Preserves (err e) = lift-Preserves (err e)

    pub create_job-Preserves :
        PeersKeep env → Preserves (create_job_with_idempotency env user_id hash method path params)
    unfolding create_job_with_idempotency
    create_job-Preserves peers = bind-Preserves _ _ (begin_tx-Preserves env peers) (λ _.
        defer_rollback-Preserves _ (
          preserves _ (λ w sound.
            let (found, w') = on_tx env (select_key env user_id hash) w in
            run (after_lookup env user_id hash method path params found)
              (after_lookup-Preserves found) w'
              (run (on_tx env (select_key env user_id hash))
                (on_tx-Preserves env _ (select_key-Keeps env user_id hash)) w sound))))
