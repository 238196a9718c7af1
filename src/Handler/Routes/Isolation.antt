-- ===== src/Handler/Routes/Isolation.antt =====
-- A request to the program of cmd/main.go and the jobs of other users.
use mathlib.Core.Path.{subst}
use digital_ocean_assignment.Base.{◌≡◌, refl, String, some, ok, arith}
use digital_ocean_assignment.Db.Rows.{Database, StoreUser}
use digital_ocean_assignment.Db.Session.{Env, World}
use digital_ocean_assignment.Db.Users.{insert_user, select_user, create_user, get_user_by_email}
use digital_ocean_assignment.Db.Idempotency.Atomic.{MakesUuids, KeysPrinted}
use digital_ocean_assignment.Db.Idempotency.Replay.{Alone}
use digital_ocean_assignment.Service.Token.{LocalClaims}
use digital_ocean_assignment.Handler.Jobs.{
  create_job_handler, list_jobs_handler, get_job_handler, update_job_handler, delete_job_handler,
}
use digital_ocean_assignment.Handler.Jobs.Spared.{others, on_pool_kept}
use digital_ocean_assignment.Handler.Jobs.Isolation.{handlers_spare_others}
use digital_ocean_assignment.Handler.Users.Invariant.{register_handler_world, login_handler_world}
use digital_ocean_assignment.Handler.Logging.{Logger, Request}
use digital_ocean_assignment.Handler.Routes.{Input, Outside, serve}
use digital_ocean_assignment.Handler.Routes.Guards.{token_claims}
use digital_ocean_assignment.Handler.Routes.Worlds.{UsersLead, JobsLead, serve_world}

insert_user_spares :
    (env : Env) (user email username hash : String) (n : _) (db d : Database) (id : String)
    → insert_user env email username hash n db ≡ ok (id, d)
    → others user d ≡ others user db
unfolding insert_user others
insert_user_spares env user email username hash n db d id e = ground arith

select_user_spares :
    (user email : String) (n : _) (db d : Database) (row : StoreUser)
    → select_user email n db ≡ ok (row, d)
    → others user d ≡ others user db
unfolding select_user others
select_user_spares user email n db d row e = ground arith

module _ (env : Env) (out : Outside) (alone : Alone env) (user : String) (w : World) where
  abbrev Kept : World → Type 0
  Kept v = others user v.db ≡ others user w.db

  users-Kept : UsersLead env out Kept w
  unfolding create_user get_user_by_email
  users-Kept req = (
    register_handler_world env out.lib out.at out.secret Kept req w refl (λ email username hash.
        on_pool_kept env alone (others user) (insert_user env email username hash)
          (insert_user_spares env user email username hash) w),
    login_handler_world env out.lib out.at out.secret Kept req w refl (λ email.
        on_pool_kept env alone (others user) (select_user email) (select_user_spares user email) w),
  )

  jobs-Kept :
      MakesUuids env
      → KeysPrinted env w.db
      → (claims : LocalClaims) → claims.subject ≡ user
      → env.uuid_in user ≡ some user
      → JobsLead env out Kept w (some claims)
  jobs-Kept makes printed claims is_user read reg change page page_size job_id =
      subst
        (λ u.
          (others u (create_job_handler env out.sha256_hex (some claims) reg w).1.db
            ≡ others u w.db)
          × (others u (list_jobs_handler env (some claims) page page_size w).1.db ≡ others u w.db)
          × (others u (get_job_handler env (some claims) job_id w).1.db ≡ others u w.db)
          × (others u (update_job_handler env (some claims) job_id change w).1.db ≡ others u w.db)
          × (others u (delete_job_handler env (some claims) job_id w).1.db ≡ others u w.db))
        is_user
        (handlers_spare_others env out.sha256_hex (some claims) reg change page page_size job_id w
          alone makes (rw is_user read) printed)

-- A request to the program, whatever route it takes and however its calls end, changes no job but
-- those of the user of its token: the jobs of everybody else are as they were, in the same order.
-- Without a valid token this holds whoever the user is. The id of the user of a token is assumed to be as the server
-- prints it, as are the job ids of the idempotency keys, and no other session to be at work.
pub serve_spares_others :
    (env : Env) (out : Outside) (root : Logger) (req : Request) (input : Input) (user : String)
    (w : World)
    → Alone env
    → MakesUuids env
    → KeysPrinted env w.db
    → ((claims : LocalClaims)
        → token_claims out req ≡ some claims
        → (claims.subject ≡ user) × (env.uuid_in user ≡ some user))
    → others user (serve env out root req input w).1.1.db ≡ others user w.db
serve_spares_others env out root req input user w alone makes printed owns =
    serve_world env out (Kept env out alone user w) w root req input refl
      (users-Kept env out alone user w)
      (λ claims valid.
        let (is_user, read) = owns claims valid in
        jobs-Kept env out alone user w makes printed claims is_user read)
