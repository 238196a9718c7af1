-- ===== src/Db/Valid/Statements.antt =====
-- Every statement of the store keeps the invariant.
use digital_ocean_assignment.Base.{
  ℕ, ◌≡◌, refl, String, true, Option, ◌==◌, ◌||◌, any, arith, ok, Option-cases, Result-cases,
  Bool-cases, inl, inr,
}
use digital_ocean_assignment.Base.Int.{ℤ, pos, ◌+ℤ◌}
use digital_ocean_assignment.Base.Utf8.{Bytes}
use digital_ocean_assignment.Db.Rows.{
  StoreUser, StoreCreateJobParams, StoreCreateOutboxEventParams, Database,
}
use digital_ocean_assignment.Db.Session.{Env, Stmt}
use digital_ocean_assignment.Db.Sql.{find, update, row_count, nullable_jsonb, nullable_text}
use digital_ocean_assignment.Db.Users.{insert_user, select_user}
use digital_ocean_assignment.Db.Jobs.{
  has_id, is_owned, set_details, set_attempts, set_state, select_job, select_jobs, update_details,
  delete_owned, increment_attempts, update_state,
}
use digital_ocean_assignment.Db.Keys.{select_key, insert_job, insert_key}
use digital_ocean_assignment.Db.Keys.Inserts.{
  insert_job-ok, insert_key-ok, insert_event-ok, select_job-ok, select_key-ok,
}
use digital_ocean_assignment.Db.Outbox.{
  is_event, publish, unpublish, insert_event, mark_published, mark_unpublished, select_unpublished,
}
use digital_ocean_assignment.Db.Valid.{IsValid, has_email, known_state, is_user}
use digital_ocean_assignment.Db.Valid.Tables.{
  any_weaken, IsValid-update, IsValid-user, IsValid-job, IsValid-key, IsValid-events,
  IsValid-delete, IsValid-no_delete,
}
use mathlib.Core.Path.{subst, sym}

-- A statement that keeps the invariant whenever it answers.
abbrev pub Keeps : {A : Type 0} → Stmt A → Type 0
Keeps {A} stmt = (n : ℕ) (db d : Database) (a : A) → stmt n db ≡ ok (a, d) → IsValid db → IsValid d

pub select_user-Keeps : (email : String) → Keeps (select_user email)
unfolding select_user
select_user-Keeps email n db d a e valid = elim (Option-cases (find (has_email email) db.users)) [
  | inl missing ↦ ground arith
  | inr (user, found) ↦ subst IsValid (ground arith) valid
]

module _ (env : Env) where
  pub insert_user-Keeps :
      (email username password_hash : String) → Keeps (insert_user env email username password_hash)
  unfolding insert_user
  insert_user-Keeps email username password_hash n db d a e valid =
      let id = env.fresh_id n in
      elim (Bool-cases (any (λ u. u.email == email || u.username == username) db.users)) [
        | inl taken ↦ ground arith
        | inr free ↦ elim (Bool-cases (any (is_user id) db.users)) [
          | inl used ↦ ground arith
          | inr new ↦
              let row : StoreUser = record {
                id = id;
                email = email;
                username = username;
                password_hash = password_hash;
                created_at = env.now n;
                updated_at = env.now n;
              } in
              subst IsValid (ground arith) (
                IsValid-user row db
                  (any_weaken (has_email email) (λ u. u.email == email || u.username == username)
                    db.users (λ u hit. ground arith) free)
                  valid)
        ]
      ]

  pub insert_job-Keeps : (params : StoreCreateJobParams) → Keeps (insert_job env params)
  insert_job-Keeps params n db d a e valid =
      let row = insert_job-ok env params n db e in
      subst IsValid (sym row.stored) (IsValid-job _ db row.fresh refl row.known valid)

  pub insert_key-Keeps :
      (user_id hash job_id method path : String) (at : ℕ → ℕ)
      → Keeps (λ n. insert_key env user_id hash job_id method path (at n) n)
  insert_key-Keeps user_id hash job_id method path at n db d a e valid =
      let (user, job, read, read_job, new, new_id, known, stored) =
        insert_key-ok env user_id hash job_id method path (at n) n db e in
      subst IsValid (sym stored) (IsValid-key _ db new (λ id at. ground arith) valid)

  pub insert_event-Keeps : (params : StoreCreateOutboxEventParams) → Keeps (insert_event env params)
  insert_event-Keeps params n db d a e valid =
      let (aggregate, payload, read, parsed, new, id, stored) = insert_event-ok env params n db e in
      subst IsValid (sym stored) (IsValid-events _ db valid)

  pub select_job-Keeps : (job_id : String) → Keeps (select_job env job_id)
  select_job-Keeps job_id n db d a e valid =
      let (id, read, found, same, kept) = select_job-ok env job_id n db e in
      subst IsValid (sym kept) valid

  pub select_key-Keeps : (user_id hash : String) → Keeps (select_key env user_id hash)
  select_key-Keeps user_id hash n db d a e valid =
      let (user, key, read, found, points, kept) = select_key-ok env user_id hash n db e in
      subst IsValid (sym kept) valid

  pub mark_published-Keeps : (id : String) → Keeps (mark_published env id)
  unfolding mark_published
  mark_published-Keeps id n db d a e valid = elim (Option-cases (env.uuid_in id)) [
    | inl bad ↦ ground arith
    | inr (own, read) ↦
        subst IsValid (ground arith)
          (IsValid-events (update (is_event own) (publish (env.now n)) db.outbox) db valid)
  ]

  pub mark_unpublished-Keeps : (id : String) → Keeps (mark_unpublished env id)
  unfolding mark_unpublished
  mark_unpublished-Keeps id n db d a e valid = elim (Option-cases (env.uuid_in id)) [
    | inl bad ↦ ground arith
    | inr (own, read) ↦
        subst IsValid (ground arith)
          (IsValid-events (update (is_event own) (unpublish (env.now n)) db.outbox) db valid)
  ]

  pub select_unpublished-Keeps : (limit : ℤ) → Keeps (select_unpublished env limit)
  unfolding select_unpublished
  select_unpublished-Keeps limit n db d a e valid = elim (Result-cases (row_count limit)) [
    | inr (bad, counted) ↦ ground arith
    | inl (count, counted) ↦ subst IsValid (ground arith) valid
  ]

  pub select_jobs-Keeps :
      (user_id : String) (limit offset : ℤ) → Keeps (select_jobs env user_id limit offset)
  unfolding select_jobs
  select_jobs-Keeps user_id limit offset n db d a e valid =
      elim (Option-cases (env.uuid_in user_id)) [
        | inl bad ↦ ground arith
        | inr (user, read) ↦ elim (Result-cases (row_count limit)) [
          | inr (bad, counted) ↦ ground arith
          | inl (count, counted) ↦ elim (Result-cases (row_count offset)) [
            | inr (bad, skipped) ↦ ground arith
            | inl (skip, skipped) ↦ subst IsValid (ground arith) valid
          ]
        ]
      ]

  pub update_details-Keeps :
      (id user name url : String) (retries seconds version : ℤ)
      → Keeps (update_details env id user name url retries seconds version)
  unfolding update_details
  update_details-Keeps id user name url retries seconds version n db d a e valid =
      elim (Option-cases (env.uuid_in id)) [
        | inl bad ↦ ground arith
        | inr (own, read) ↦ elim (Option-cases (env.uuid_in user)) [
          | inl bad ↦ ground arith
          | inr (owner, read_user) ↦ subst IsValid (ground arith) (
              IsValid-update (is_owned own owner)
                (set_details name url retries seconds version (env.now n)) (λ job. refl)
                (λ job. refl) (λ job state. state) db valid)
        ]
      ]

  pub delete_owned-Keeps : (id user : String) → Keeps (delete_owned env id user)
  unfolding delete_owned
  delete_owned-Keeps id user n db d a e valid = elim (Option-cases (env.uuid_in id)) [
    | inl bad ↦ ground arith
    | inr (own, read) ↦ elim (Option-cases (env.uuid_in user)) [
      | inl bad ↦ ground arith
      | inr (owner, read_user) ↦ elim (Bool-cases (any (is_owned own owner) db.jobs)) [
        | inl there ↦ subst IsValid (ground arith) (IsValid-delete own owner db valid)
        | inr missing ↦ subst IsValid (ground arith) (IsValid-no_delete own owner db missing valid)
      ]
    ]
  ]

  -- An attempt is counted in a job's row alone.
  attempts-IsValid :
      (id : String) (attempts : ℤ) (now : ℕ) (db : Database)
      → IsValid db
      → IsValid (record db { jobs = update (has_id id) (set_attempts attempts now) db.jobs })
  attempts-IsValid id attempts now db valid =
      IsValid-update (has_id id) (set_attempts attempts now) (λ job. refl) (λ job. refl)
        (λ job state. state) db valid

  pub increment_attempts-Keeps : (job_id : String) → Keeps (increment_attempts env job_id)
  unfolding increment_attempts
  increment_attempts-Keeps job_id n db d a e valid = elim (Option-cases (env.uuid_in job_id)) [
    | inl bad ↦ ground arith
    | inr (id, read) ↦ elim (Option-cases (find (has_id id) db.jobs)) [
      | inl missing ↦ ground arith
      | inr (job, found) ↦
          subst IsValid (ground arith)
            (attempts-IsValid id (job.attempts +ℤ pos 1) (env.now n) db valid)
    ]
  ]

  pub update_state-Keeps :
      (job_id state : String) (last_error result : Option Bytes) (attempts : ℤ)
      → known_state state ≡ true
      → Keeps (update_state env job_id state last_error result attempts)
  unfolding update_state
  update_state-Keeps job_id state last_error result attempts known n db d a e valid =
      elim (Option-cases (env.uuid_in job_id)) [
        | inl bad ↦ ground arith
        | inr (id, read) ↦ elim (Result-cases (nullable_text env last_error)) [
          | inr (bad, unread) ↦ ground arith
          | inl (message, text) ↦ elim (Result-cases (nullable_jsonb env result)) [
            | inr (bad, unread) ↦ ground arith
            | inl (value, json) ↦ subst IsValid (ground arith) (
                IsValid-update (has_id id) (set_state state message value attempts (env.now n))
                  (λ job. refl) (λ job. refl) (λ job old. known) db valid)
          ]
        ]
      ]
