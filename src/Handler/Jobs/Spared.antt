-- ===== src/Handler/Jobs/Spared.antt =====
-- What the calls of the store that the handlers of the jobs make leave of other users' jobs,
-- however they end.
use digital_ocean_assignment.Base.{
  ℕ, ◌≡◌, refl, ◌∙◌, ap, inl, inr, String, Bool, true, false, some, List, ◌==◌, eq_refl, Result, ok,
  err, arith, Option-cases, Result-cases, if◌then◌else◌,
}
use digital_ocean_assignment.Base.Int.{ℤ, leb_ℤ, pos}
use digital_ocean_assignment.Db.Rows.{StoreJob, StoreCreateJobParams, Database}
use digital_ocean_assignment.Db.Session.{Env, World, Stmt, on_pool, query_row}
use digital_ocean_assignment.Db.Session.Rules.{on_pool-cases}
use digital_ocean_assignment.Db.Sql.{find, delete, row_count}
use digital_ocean_assignment.Db.Sql.Laws.{delete-update, delete-delete}
use digital_ocean_assignment.Db.Jobs.{
  has_id, is_owned, select_job, select_jobs, set_details, update_details, delete_owned,
  get_job_by_id, get_job_by_id_tx, list_jobs_by_user,
}
use digital_ocean_assignment.Db.Idempotency.Atomic.{Creates}
use digital_ocean_assignment.Db.Idempotency.Replay.{Alone}

-- The jobs of everybody but this user.
abbrev pub belongs_to : String → StoreJob → Bool
belongs_to user job = job.user_id == user

unfoldable pub others : String → Database → List StoreJob
others user db = delete (belongs_to user) db.jobs

is_owned-belongs :
    (id user : String) (job : StoreJob) → is_owned id user job ≡ true → belongs_to user job ≡ true
is_owned-belongs id user job h = ground arith

-- What a statement keeps of the tables, its call keeps.
pub on_pool_kept :
    (env : Env)
    → Alone env
    → {A B : Type 0} (view : Database → B) (stmt : Stmt A)
    → ((n : ℕ) (db d : Database) (a : A) → stmt n db ≡ ok (a, d) → view d ≡ view db)
    → (w : World) → view (on_pool env stmt w).1.db ≡ view w.db
on_pool_kept env alone view stmt keeps w = elim (on_pool-cases env stmt w) [
  | inl (a, d, e, q) ↦
      ap (λ r. view r.1.db) q
      ∙ keeps w.calls (env.peers w.calls w.db) d a e
      ∙ ap view (alone w.calls w.db)
  | inr (inl (a, d, e, q)) ↦
      ap (λ r. view r.1.db) q
      ∙ keeps w.calls (env.peers w.calls w.db) d a e
      ∙ ap view (alone w.calls w.db)
  | inr (inr (e, q, _)) ↦ ap (λ r. view r.1.db) q ∙ ap view (alone w.calls w.db)
]

module _ (env : Env) (alone : Alone env) {user : String} (read : env.uuid_in user ≡ some user) where
  -- A statement leaves the jobs of the others as they are.
  abbrev pub Spares : {A : Type 0} → Stmt A → Type 0
  Spares {A} stmt =
      (n : _) (db d : Database) (a : A) → stmt n db ≡ ok (a, d) → others user d ≡ others user db

  pub on_pool-Spares :
      {A : Type 0} (stmt : Stmt A)
      → Spares stmt
      → (w : World) → others user (on_pool env stmt w).1.db ≡ others user w.db
  on_pool-Spares stmt spares w = on_pool_kept env alone (others user) stmt spares w

  pub update_details-Spares :
      (id owner name url : String) (retries seconds version : ℤ)
      → owner ≡ user
      → Spares (update_details env id owner name url retries seconds version)
  unfolding update_details others
  update_details-Spares id owner name url retries seconds version is_user n db d a e =
      elim (Option-cases (env.uuid_in id)) [
        | inl bad ↦ ground arith
        | inr (own, at) ↦ ground (
          arith,
          read,
          delete-update (belongs_to user) (is_owned own user)
              (set_details name url retries seconds version (env.now n)) db.jobs
              (is_owned-belongs own user) (λ job. refl),
        )
      ]

  pub delete_owned-Spares : (id : String) → Spares (delete_owned env id user)
  unfolding delete_owned others
  delete_owned-Spares id n db d a e = elim (Option-cases (env.uuid_in id)) [
    | inl bad ↦ ground arith
    | inr (own, at) ↦ ground (
      arith,
      read,
      delete-delete (belongs_to user) (is_owned own user) db.jobs (is_owned-belongs own user),
    )
  ]

  pub select_job-Spares : (id : String) → Spares (select_job env id)
  unfolding select_job
  select_job-Spares id n db d a e = elim (Option-cases (env.uuid_in id)) [
    | inl bad ↦ ground arith
    | inr (own, at) ↦ elim (Option-cases (find (has_id own) db.jobs)) [
      | inl missing ↦ ground arith
      | inr (job, found) ↦ ground arith
    ]
  ]

  pub select_jobs-Spares :
      (of_user : String) (limit offset : ℤ) → Spares (select_jobs env of_user limit offset)
  unfolding select_jobs
  select_jobs-Spares of_user limit offset n db d a e = elim (Option-cases (env.uuid_in of_user)) [
    | inl bad ↦ ground arith
    | inr (of, at) ↦ elim (Result-cases (row_count limit)) [
      | inr (bad, counted) ↦ ground arith
      | inl (count, counted) ↦ elim (Result-cases (row_count offset)) [
        | inr (bad, skipped) ↦ ground arith
        | inl (skip, skipped) ↦ ground arith
      ]
    ]
  ]

  pub get_job_by_id_spares :
      (job_id : String) (w : World)
      → others user (get_job_by_id env job_id w).1.db ≡ others user w.db
  unfolding get_job_by_id get_job_by_id_tx query_row
  get_job_by_id_spares job_id w =
      on_pool-Spares (select_job env job_id) (select_job-Spares job_id) w

  pub list_jobs_by_user_spares :
      (limit offset : ℤ) (w : World)
      → others user (list_jobs_by_user env user limit offset w).1.db ≡ others user w.db
  unfolding list_jobs_by_user
  list_jobs_by_user_spares limit offset w =
      let size = if leb_ℤ limit (pos 0) then pos 20 else limit in
      on_pool-Spares (select_jobs env user size offset) (select_jobs-Spares user size offset) w

  pub others-Creates :
      (hash : String) (params : StoreCreateJobParams) (before after : Database)
      (r : Result (StoreJob × Bool))
      → Creates env user hash params before r after
      → others user after ≡ others user before
  unfolding others delete
  others-Creates hash params before after (ok (job, true)) (same, _, _, _, _) =
      ap (others user) same
  others-Creates hash params before after (ok (job, false)) made =
      ground (arith, ap (others user) made.stored, made.owner, eq_refl user)
  others-Creates hash params before after (err e) (inl same) = ap (others user) same
  others-Creates hash params before after (err e) (inr (job, made)) =
      ground (arith, ap (others user) made.stored, made.owner, eq_refl user)
