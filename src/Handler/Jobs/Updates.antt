-- ===== src/Handler/Jobs/Updates.antt =====
-- PUT /jobs/{id} on a user's own job.
use mathlib.Core.Option
use mathlib.Core.Path.{subst}
use digital_ocean_assignment.Base.{
  ℕ, zero, suc, none, ◌≡◌, ◌≢◌, refl, sym, ap, ◌∙◌, inl, inr, String, true, Option, some, arith,
  Option-cases, if◌then◌else◌, eq_iff, eq_refl,
}
use digital_ocean_assignment.Base.Int.{ℤ, pos, negsuc, fits_int4}
use digital_ocean_assignment.Db.Rows.{StoreJob, Database}
use digital_ocean_assignment.Db.Session.{Env, World, PrintsUuids, on_pool}
use digital_ocean_assignment.Db.Session.Rules.{world}
use digital_ocean_assignment.Db.Sql.{find, update, takes_text}
use digital_ocean_assignment.Db.Sql.Laws.{find_test, find-update}
use digital_ocean_assignment.Db.Jobs.{
  has_id, is_owned, set_details, update_details, update_job_details,
}
use digital_ocean_assignment.Db.Idempotency.Replay.{AllDone, Alone}
use digital_ocean_assignment.Service.JobPayload.{positive_or}
use digital_ocean_assignment.Service.Token.{LocalClaims}
use digital_ocean_assignment.Handler.Http.{UpdateJobRequest, empty, write_json, get_user_id}
use digital_ocean_assignment.Handler.Jobs.{
  has_fields, given_or, apply_update, store_update, update_job, update_job_handler,
}
use digital_ocean_assignment.Handler.Jobs.Access.{known_user, get_job-found}

-- The value that a request gives, or the old one.
abbrev pub text_after : Option String → String → String
text_after (some new) old = new
text_after none old = old

-- The number that a request gives, if it is above 0, or the old one.
abbrev pub number_after : Option ℤ → ℤ → ℤ
number_after (some (pos (suc n))) old = pos (suc n)
number_after (some (pos zero)) old = old
number_after (some (negsuc n)) old = old
number_after none old = old

-- What a request makes of a job, at a time.
abbrev pub updated : UpdateJobRequest → ℕ → StoreJob → StoreJob
updated req now job = record {
  id = job.id;
  user_id = job.user_id;
  type = job.type;
  name = text_after req.name job.name;
  webhook_url = text_after req.webhook_url job.webhook_url;
  payload = job.payload;
  version = number_after req.version job.version;
  max_retries = number_after req.max_retries job.max_retries;
  timeout_seconds = number_after req.timeout_seconds job.timeout_seconds;
  state = job.state;
  attempts = job.attempts;
  scheduled_at = job.scheduled_at;
  last_error = job.last_error;
  result = job.result;
  created_at = job.created_at;
  updated_at = now;
}

-- The server takes the texts, and the numbers fit in the columns.
abbrev pub Fits : Env → StoreJob → Type 0
Fits env job =
    (takes_text env job.name ≡ true)
    × (takes_text env job.webhook_url ≡ true)
    × (fits_int4 job.max_retries ≡ true)
    × (fits_int4 job.timeout_seconds ≡ true)
    × (fits_int4 job.version ≡ true)

positive_or-after : (old : ℤ) (given : Option ℤ) → positive_or old given ≡ number_after given old
positive_or-after old none = refl
positive_or-after old (some (pos zero)) = ground arith
positive_or-after old (some (pos (suc n))) = ground arith
positive_or-after old (some (negsuc n)) = ground arith

given_or-after : (old : String) (given : Option String) → given_or old given ≡ text_after given old
given_or-after old none = refl
given_or-after old (some new) = refl

apply_update-updated :
    (req : UpdateJobRequest) (now : ℕ) (job : StoreJob)
    → record (apply_update req job) { updated_at = now } ≡ updated req now job
apply_update-updated req now job = rw (given_or-after job.name req.name) (
    rw (given_or-after job.webhook_url req.webhook_url) (
      rw (positive_or-after job.version req.version) (
        rw (positive_or-after job.max_retries req.max_retries)
          (rw (positive_or-after job.timeout_seconds req.timeout_seconds) refl))))

-- The tables with the details of a job set.
abbrev changed : UpdateJobRequest → ℕ → StoreJob → Database → Database
changed req now job db =
    let new = apply_update req job in
    record db {
      jobs =
          update (is_owned job.id job.user_id)
            (set_details new.name new.webhook_url new.max_retries new.timeout_seconds new.version
              now)
            db.jobs;
    }

module _ (env : Env) (all_done : AllDone env) (alone : Alone env) (req : UpdateJobRequest)
    (job : StoreJob) (printed : env.uuid_in job.id ≡ some job.id)
    (owner : env.uuid_in job.user_id ≡ some job.user_id)
    (fits : Fits env (apply_update req job)) where
  store_update-done :
      (w : World)
      → store_update env req job w
        ≡ write_json 200 "job updated" empty
            (world (suc w.calls) (changed req (env.now w.calls) job w.db) w.tx)
  unfolding store_update update_job_details on_pool update_details
  store_update-done w = ground (arith, all_done w.calls, alone w.calls w.db, printed, owner, fits)

-- The changed job is found under its id, and every other job as it was.
module _ (req : UpdateJobRequest) (now : ℕ) (job : StoreJob) (db : Database)
    (found : find (has_id job.id) db.jobs ≡ some job) where
  abbrev set : StoreJob → StoreJob
  set =
      let new = apply_update req job in
      set_details new.name new.webhook_url new.max_retries new.timeout_seconds new.version now

  find-changed :
      (id : String)
      → find (has_id id) (changed req now job db).jobs
        ≡ Option.map
            (λ x. if is_owned job.id job.user_id x then set x else x)
            (find (has_id id) db.jobs)
  find-changed id = find-update (has_id id) (is_owned job.id job.user_id) set db.jobs (λ x. refl)

  find-changed_same :
      find (has_id job.id) (changed req now job db).jobs ≡ some (updated req now job)
  find-changed_same =
      ground (arith, found, eq_refl job.id, eq_refl job.user_id, find-changed job.id)
      ∙ ap some (apply_update-updated req now job)

  find-changed_other :
      (other : String)
      → other ≢ job.id
      → find (has_id other) (changed req now job db).jobs ≡ find (has_id other) db.jobs
  find-changed_other other apart = elim (Option-cases (find (has_id other) db.jobs)) [
    | inl missing ↦ ground (arith, missing, find-changed other)
    | inr (x, there) ↦
        let at : x.id ≡ other = (eq_iff x.id other).0 (find_test (has_id other) db.jobs there) in
        ground (arith, there, at, eq_iff x.id job.id, find-changed other)
  ]

-- A user who changes a job of the user's own is answered by 200. The job then has the name and the
-- URL of the request and those of its numbers that are above 0, where it gives them, and is
-- otherwise as before but for the time of its change. No other job and no other table changes. The
-- request is assumed to give a field, the calls to succeed with no other session at work, the new
-- texts and numbers to be taken by their columns, and the user's id to be as the server prints it.
pub update_job_handler_lem :
    (env : Env) (claims : Option LocalClaims) (job_id : String) (req : UpdateJobRequest)
    (job : StoreJob) (w : World)
    → AllDone env
    → Alone env
    → PrintsUuids env
    → get_user_id claims ≢ ""
    → has_fields req ≡ true
    → env.uuid_in job_id ≡ some job.id
    → find (has_id job.id) w.db.jobs ≡ some job
    → job.user_id ≡ get_user_id claims
    → env.uuid_in job.user_id ≡ some job.user_id
    → Fits env (updated req 0 job)
    → let (answer, w') = update_job_handler env claims job_id (some req) w in
      (answer ≡ record { status = 200; message = "job updated"; content = empty })
      × ((now : ℕ) × (find (has_id job.id) w'.db.jobs ≡ some (updated req now job)))
      × ((other : String)
          → other ≢ job.id
          → find (has_id other) w'.db.jobs ≡ find (has_id other) w.db.jobs)
      × (w'.db ≡ record w.db { jobs = w'.db.jobs })
unfolding update_job_handler update_job
update_job_handler_lem env claims job_id req job w all_done alone prints known given read found own
      owner fits =
    (
      ap (λ r. r.0) served,
      (
        now,
        ap (λ r. find (has_id job.id) r.1.db.jobs) served
            ∙ find-changed_same req now job w.db found,
      ),
      λ other apart.
          ap (λ r. find (has_id other) r.1.db.jobs) served
          ∙ find-changed_other req now job w.db found other apart,
      ap (λ r. r.1.db) served ∙ ap (λ r. record w.db { jobs = r.1.db.jobs }) (sym served),
    )
  where
    fetched : World
    fetched = world (suc w.calls) w.db w.tx

    now : ℕ
    now = env.now (suc w.calls)

    served :
        update_job_handler env claims job_id (some req) w
        ≡ write_json 200 "job updated" empty
            (world (suc (suc w.calls)) (changed req now job w.db) w.tx)
    served =
        known_user claims (update_job env job_id (some req)) w known
        ∙ ground (
          arith,
          given,
          alone w.calls w.db,
          eq_iff job.user_id (get_user_id claims),
          get_job-found env all_done w job_id read {job = job},
          store_update-done env all_done alone req job (prints job_id job.id read) owner
              (subst (Fits env) (sym (apply_update-updated req 0 job)) fits) fetched,
        )
