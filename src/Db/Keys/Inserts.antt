-- ===== src/Db/Keys/Inserts.antt =====
-- What a successful INSERT has checked, and the row that it adds.
use digital_ocean_assignment.Base.{
  ℕ, ◌≡◌, String, true, false, some, inl, inr, ◌∷◌, ◌==◌, any, eq_iff, ok, arith, Option-cases,
}
use digital_ocean_assignment.Base.Utf8.{Bytes}
use digital_ocean_assignment.Db.Sql.Laws.{find_test}
use digital_ocean_assignment.Db.Rows.{
  StoreJob, StoreIdempotencyKey, StoreCreateJobParams, StoreCreateOutboxEventParams, Database,
}
use digital_ocean_assignment.Db.Session.{Env}
use digital_ocean_assignment.Db.Sql.{find}
use digital_ocean_assignment.Db.Jobs.{has_id, select_job}
use digital_ocean_assignment.Db.Keys.{
  is_request, select_key, new_job, insert_job, new_key, insert_key,
}
use digital_ocean_assignment.Db.Outbox.{new_event, insert_event}

pub record Inserted (env : Env) (params : StoreCreateJobParams) (n : ℕ) (db db' : Database)
    (id : String) : Type 0 where
  pub user : String
  pub payload : Bytes
  pub user_read : env.uuid_in params.user_id ≡ some user
  pub payload_read : env.json_in params.payload ≡ some payload
  pub fresh : any (has_id id) db.jobs ≡ false
  pub known : any (λ u. u.id == user) db.users ≡ true
  pub id_given : id ≡ env.fresh_id n
  pub stored : db' ≡ record db { jobs = new_job params id user payload (env.now n) ∷ db.jobs }

module _ (env : Env) where
  pub insert_job-ok :
      (params : StoreCreateJobParams) (n : ℕ) (db : Database) {db' : Database} {id : String}
      → insert_job env params n db ≡ ok (id, db')
      → Inserted env params n db db' id
  unfolding insert_job
  insert_job-ok params n db {db'} {id} e = elim (Option-cases (env.uuid_in params.user_id)) [
    | inl bad ↦ ground arith
    | inr (user, read) ↦ elim (Option-cases (env.json_in params.payload)) [
      | inl bad ↦ ground arith
      | inr (payload, parsed) ↦ record {
        user = user;
        payload = payload;
        user_read = read;
        payload_read = parsed;
        fresh = ground arith;
        known = ground arith;
        id_given = ground arith;
        stored = ground arith;
      }
    ]
  ]

  pub insert_key-ok :
      (user_id hash job_id method path : String) (expires_at n : ℕ) (db : Database) {db' : Database}
      → insert_key env user_id hash job_id method path expires_at n db ≡ ok (tt, db')
      → (user job : String) × (env.uuid_in user_id ≡ some user)
        × (env.uuid_in job_id ≡ some job)
        × (any (is_request user hash) db.idempotency_keys ≡ false)
        × (any (λ key. key.id == env.fresh_id n) db.idempotency_keys ≡ false)
        × (any (has_id job) db.jobs ≡ true)
        × (db' ≡ record db {
          idempotency_keys =
              new_key (env.fresh_id n) user hash job method path (env.now n) expires_at
              ∷ db.idempotency_keys;
        })
  unfolding insert_key
  insert_key-ok user_id hash job_id method path expires_at n db {db'} e =
      elim (Option-cases (env.uuid_in user_id)) [
        | inl bad ↦ ground arith
        | inr (user, read) ↦ elim (Option-cases (env.uuid_in job_id)) [
          | inl bad ↦ ground arith
          | inr (job, read_job) ↦
              (user, job, read, read_job, ground arith, ground arith, ground arith, ground arith)
        ]
      ]

  pub insert_event-ok :
      (params : StoreCreateOutboxEventParams) (n : ℕ) (db : Database) {db' : Database} {id : String}
      → insert_event env params n db ≡ ok (id, db')
      → (aggregate : String) × (payload : Bytes) × (env.uuid_in params.aggregate_id
          ≡ some aggregate)
        × (env.json_in params.payload ≡ some payload)
        × (any (λ event. event.id == id) db.outbox ≡ false)
        × (id ≡ env.fresh_id n)
        × (db'
            ≡ record db { outbox = new_event params id aggregate payload (env.now n) ∷ db.outbox })
  unfolding insert_event
  insert_event-ok params n db {db'} {id} e = elim (Option-cases (env.uuid_in params.aggregate_id)) [
    | inl bad ↦ ground arith
    | inr (aggregate, read) ↦ elim (Option-cases (env.json_in params.payload)) [
      | inl bad ↦ ground arith
      | inr (payload, parsed) ↦
          (aggregate, payload, read, parsed, ground arith, ground arith, ground arith)
    ]
  ]

  pub select_job-ok :
      (job_id : String) (n : ℕ) (db : Database) {db' : Database} {job : StoreJob}
      → select_job env job_id n db ≡ ok (job, db')
      → (id : String) × (env.uuid_in job_id ≡ some id)
        × (find (has_id id) db.jobs ≡ some job)
        × (job.id ≡ id)
        × (db' ≡ db)
  unfolding select_job
  select_job-ok job_id n db {db'} {job} e = elim (Option-cases (env.uuid_in job_id)) [
    | inl bad ↦ ground arith
    | inr (id, read) ↦ elim (Option-cases (find (has_id id) db.jobs)) [
      | inl none_found ↦ ground arith
      | inr (row, found) ↦
          let same : row ≡ job = ground arith in
          let found' = rw same at found in
          (
            id,
            read,
            found',
            (eq_iff job.id id).0 (find_test (has_id id) db.jobs found'),
            ground arith,
          )
    ]
  ]

  pub select_key-ok :
      (user_id hash : String) (n : ℕ) (db : Database) {db' : Database} {job_id : String}
      → select_key env user_id hash n db ≡ ok (job_id, db')
      → (user : String) × (key : StoreIdempotencyKey) × (env.uuid_in user_id ≡ some user)
        × (find (is_request user hash) db.idempotency_keys ≡ some key)
        × (key.job_id ≡ some job_id)
        × (db' ≡ db)
  unfolding select_key
  select_key-ok user_id hash n db {db'} {job_id} e = elim (Option-cases (env.uuid_in user_id)) [
    | inl bad ↦ ground arith
    | inr (user, read) ↦ elim (Option-cases (find (is_request user hash) db.idempotency_keys)) [
      | inl none_found ↦ ground arith
      | inr (key, found) ↦ (user, key, read, found, ground arith, ground arith)
    ]
  ]
