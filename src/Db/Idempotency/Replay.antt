-- ===== src/Db/Idempotency/Replay.antt =====
-- `CreateJobWithIdempotency` is idempotent: a request that is repeated finds the job of the first.
use mathlib.Core.Path.{subst}
use digital_ocean_assignment.Db.Sql.Laws.{find-All}
use digital_ocean_assignment.Base.{
  sym, ap, ◌∙◌, ℕ, suc, ◌≡◌, String, Bool, true, false, none, some, eq_refl, ok, arith,
}
use digital_ocean_assignment.Db.Rows.{StoreJob, StoreIdempotencyKey, StoreCreateJobParams, Database}
use digital_ocean_assignment.Db.Session.{
  Env, World, done, on_tx, begin_tx, commit, query_row, defer_rollback, ◌>>=◌,
}
use digital_ocean_assignment.Db.Session.Rules.{world}
use digital_ocean_assignment.Db.Sql.{find}
use digital_ocean_assignment.Db.Jobs.{has_id, select_job, get_job_by_id_tx}
use digital_ocean_assignment.Db.Keys.{is_request, select_key}
use digital_ocean_assignment.Db.Idempotency.{reuse_job, after_lookup, create_job_with_idempotency}
use digital_ocean_assignment.Db.Idempotency.Atomic.{
  MakesUuids, HasPrintedJob, KeysPrinted, Creates, create_job-Creates,
}

-- No call fails, and no other session is at work.
abbrev pub AllDone : Env → Type 0
AllDone env = (n : ℕ) → env.fate n ≡ done

abbrev pub Alone : Env → Type 0
Alone env = (n : ℕ) (db : Database) → env.peers n db ≡ db

-- The tables hold the job of a request.
pub record Knows (env : Env) (user hash : String) (job : StoreJob) (db : Database) : Type 0 where
  pub key : StoreIdempotencyKey
  pub found : find (is_request user hash) db.idempotency_keys ≡ some key
  pub points : key.job_id ≡ some job.id
  pub printed : env.uuid_in job.id ≡ some job.id
  pub stored : find (has_id job.id) db.jobs ≡ some job

module _ (env : Env) (all_done : AllDone env) {user hash : String} (user_id method path : String)
    (params : StoreCreateJobParams) (read : env.uuid_in user_id ≡ some user) where
  -- Such a request is answered with that job, and the tables stay as they are.
  pub create_job-known :
      (w : World) {job : StoreJob}
      → Knows env user hash job (env.peers w.calls w.db)
      → create_job_with_idempotency env user_id hash method path params w
        ≡ (ok (job, true), world (suc (suc (suc (suc w.calls)))) (env.peers w.calls w.db) none)
  unfolding create_job_with_idempotency after_lookup reuse_job get_job_by_id_tx query_row on_tx
      begin_tx commit defer_rollback ◌>>=◌ select_key select_job
  create_job-known w {job} k = ground (
    arith,
    all_done w.calls,
    all_done (suc w.calls),
    all_done (suc (suc w.calls)),
    all_done (suc (suc (suc w.calls))),
    k.found,
    k.points,
    k.printed,
    k.stored,
  )

-- What a successful call leaves behind.
Knows-of_Creates :
    (env : Env) {user hash : String} (params : StoreCreateJobParams) (before after : Database)
    (job : StoreJob) (reused : Bool)
    → KeysPrinted env before
    → Creates env user hash params before (ok (job, reused)) after
    → Knows env user hash job after
unfolding find
Knows-of_Creates env {user} {hash} params before after job false printed r = record {
  key = r.key;
  found = ground (arith, r.stored, r.key_user, r.key_hash, eq_refl user, eq_refl hash);
  points = r.key_job;
  printed = r.printed;
  stored = ground (arith, r.stored, eq_refl job.id);
}
Knows-of_Creates env {user} {hash} params before after job true printed
      (same, key, found, points, stored) =
    record {
      key = key;
      found = ground arith;
      points = points;
      printed =
          find-All (HasPrintedJob env) (is_request user hash) before.idempotency_keys printed found
            job.id points;
      stored = ground arith;
    }

-- A request that has succeeded, new or known, is answered with the same job as an earlier
-- registration when it is sent again, and the tables stay as the first call left them; the second
-- call may name another method, path and parameters. Every call is assumed to succeed with no
-- other session at work.
pub create_job_twice :
    (env : Env) (user hash method path method' path' : String)
    (params params' : StoreCreateJobParams) (w : World) (job : StoreJob) (reused : Bool)
    → AllDone env
    → Alone env
    → MakesUuids env
    → env.uuid_in params.user_id ≡ some user
    → KeysPrinted env w.db
    → (create_job_with_idempotency env params.user_id hash method path params w).0
      ≡ ok (job, reused)
    → let first = (create_job_with_idempotency env params.user_id hash method path params w).1 in
      let (again, second) =
        create_job_with_idempotency env params.user_id hash method' path' params' first in
      (again ≡ ok (job, true)) × (second.db ≡ first.db)
create_job_twice env user hash method path method' path' params params' w job reused all_done alone
      makes read printed e =
    (ap (λ r. r.0) q, ap (λ r. r.1.db) q ∙ alone first.calls first.db)
  where
    seen : Database
    seen = env.peers w.calls w.db

    first : World
    first = (create_job_with_idempotency env params.user_id hash method path params w).1

    printed_seen : KeysPrinted env seen
    printed_seen = subst (KeysPrinted env) (sym (alone w.calls w.db)) printed

    known : Knows env user hash job first.db
    known = Knows-of_Creates env params seen first.db job reused printed_seen (
        subst (λ r. Creates env user hash params seen r first.db) e
          (create_job-Creates env user hash method path params w makes read printed_seen))

    q : create_job_with_idempotency env params.user_id hash method' path' params' first ≡ (
      ok (job, true),
      world (suc (suc (suc (suc first.calls)))) (env.peers first.calls first.db) none,
    )
    q =
        create_job-known env all_done params.user_id method' path' params' read first
          (subst (Knows env user hash job) (sym (alone first.calls first.db)) known)
