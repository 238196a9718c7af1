-- ===== src/Db/Idempotency/Atomic.antt =====
-- `CreateJobWithIdempotency` is atomic: a job, its key and its event are stored together, or
-- nothing is.
use digital_ocean_assignment.Base.{
  ℕ, suc, ◌≡◌, refl, ◌⊎◌, inl, inr, String, Bool, true, false, some, ◌∷◌, All, any, eq_refl, Error,
  Result, ok, err, no_rows, arith,
}
use digital_ocean_assignment.Base.Int.{pos}
use digital_ocean_assignment.Base.Utf8.{Bytes}
use digital_ocean_assignment.Db.Outbox.{new_event, insert_event}
use digital_ocean_assignment.Db.Rows.{
  StoreJob, StoreIdempotencyKey, StoreOutboxEvent, StoreCreateJobParams,
  StoreCreateOutboxEventParams, Database,
}
use digital_ocean_assignment.Db.Session.{Env, World}
use digital_ocean_assignment.Db.Session.Rules.{
  world, Ends, ends, claim, on_tx-Outcome, on_tx-Ends, lift-Ends, commit-Ends, begin_tx-Ends,
  defer_rollback-Ends,
}
use digital_ocean_assignment.Db.Sql.{find}
use digital_ocean_assignment.Db.Sql.Laws.{find-All}
use digital_ocean_assignment.Db.Jobs.{has_id, select_job, get_job_by_id_tx}
use digital_ocean_assignment.Db.Session.{query_row}
use digital_ocean_assignment.Db.Keys.{
  is_request, select_key, new_job, new_key, insert_job, insert_key,
}
use digital_ocean_assignment.Db.Keys.Inserts.{
  insert_job-ok, insert_key-ok, insert_event-ok, select_job-ok, select_key-ok,
}
use digital_ocean_assignment.Db.Idempotency.{
  with_defaults, reuse_job, register_job, after_lookup, create_job_with_idempotency,
}

-- Documented behaviour: `gen_random_uuid` yields UUIDs, as the server prints them.
abbrev pub MakesUuids : Env → Type 0
MakesUuids env = (n : ℕ) → env.uuid_in (env.fresh_id n) ≡ some (env.fresh_id n)

-- `after` is `before` with a new pending job, its key for the request and its unpublished event.
pub record IsRegistered (env : Env) (user hash : String) (params : StoreCreateJobParams)
    (job : StoreJob) (before after : Database) : Type 0 where
  pub key : StoreIdempotencyKey
  pub event : StoreOutboxEvent
  pub stored : after ≡ record {
    users = before.users;
    jobs = job ∷ before.jobs;
    idempotency_keys = key ∷ before.idempotency_keys;
    outbox = event ∷ before.outbox;
  }
  pub new_id : any (has_id job.id) before.jobs ≡ false
  pub new_request : any (is_request user hash) before.idempotency_keys ≡ false
  pub printed : env.uuid_in job.id ≡ some job.id
  pub owner : job.user_id ≡ user
  pub pending : job.state ≡ "pending"
  pub untried : job.attempts ≡ pos 0
  pub type : job.type ≡ params.type
  pub name : job.name ≡ params.name
  pub webhook_url : job.webhook_url ≡ params.webhook_url
  pub key_user : key.user_id ≡ user
  pub key_hash : key.request_hash ≡ hash
  pub key_job : key.job_id ≡ some job.id
  pub event_job : event.aggregate_id ≡ job.id
  pub event_type : event.event_type ≡ "job_created"
  pub unpublished : event.published ≡ false

-- What a call has done to the committed tables, by how it ended.
module _ (env : Env) (user hash : String) (params : StoreCreateJobParams) (before : Database) where
  abbrev pub Creates : Result (StoreJob × Bool) → Database → Type 0
  Creates (ok (job, true)) after =
      (after ≡ before)
      × (key : StoreIdempotencyKey) × (find (is_request user hash) before.idempotency_keys
          ≡ some key)
      × (key.job_id ≡ some job.id)
      × (find (has_id job.id) before.jobs ≡ some job)
  Creates (ok (job, false)) after = IsRegistered env user hash params job before after
  Creates (err e) after =
      (after ≡ before) ⊎ ((job : StoreJob) × IsRegistered env user hash params job before after)

  abbrev CreatesAt : Result (StoreJob × Bool) × World → Type 0
  CreatesAt r = Creates r.0 r.1.db

abbrev created_event : String → Bytes → StoreCreateOutboxEventParams
created_event id payload = record {
  aggregate_type = "job";
  aggregate_id = id;
  event_type = "job_created";
  payload = payload;
  published = false;
}

-- The four rows that a new request leaves behind, from what each statement has checked.
module _ (env : Env) (makes : MakesUuids env) {user : String} (hash method path : String)
    (params : StoreCreateJobParams) (read : env.uuid_in params.user_id ≡ some user) where
  -- The tables after the four statements.
  IsRegistered-of_steps :
      (n m k l expires_at : ℕ) (payload : Bytes) {db d₁ d₂ d₃ d₄ : Database} {id event_id : String}
      {job : StoreJob}
      → insert_job env (with_defaults params) n db ≡ ok (id, d₁)
      → insert_key env params.user_id hash id method path expires_at m d₁ ≡ ok (tt, d₂)
      → insert_event env (created_event id payload) k d₂ ≡ ok (event_id, d₃)
      → select_job env id l d₃ ≡ ok (job, d₄)
      → IsRegistered env user hash params job db d₄
  unfolding find
  IsRegistered-of_steps n m k l expires_at payload {db} {d₁} {d₂} {d₃} {d₄} {id} {event_id} {job} e₁
        e₂ e₃ e₄ =
      let row = insert_job-ok env (with_defaults params) n db e₁ in
      let (user', job_id, read_user, read_job, new, _, _, keys) =
        insert_key-ok env params.user_id hash id method path expires_at m d₁ e₂ in
      let (aggregate, stored, read_aggregate, _, _, _, events) =
        insert_event-ok env (created_event id payload) k d₂ e₃ in
      let (id', read_id, found, same, kept) = select_job-ok env id l d₃ e₄ in
      let printed : env.uuid_in id ≡ some id = rw row.id_given (makes n) in
      let new_row = new_job (with_defaults params) id user row.payload (env.now n) in
      let job_is : job ≡ new_row = ground (arith, eq_refl id, row.stored, row.user_read) in
      record {
        key = new_key (env.fresh_id m) user hash id method path (env.now m) expires_at;
        event = new_event (created_event id payload) event_id id stored (env.now k);
        stored = ground (arith, row.stored, row.user_read);
        new_id = ground (arith, row.fresh);
        new_request = ground (arith, row.stored);
        printed = ground (arith, printed);
        owner = ground arith;
        pending = ground arith;
        untried = ground arith;
        type = ground arith;
        name = ground arith;
        webhook_url = ground arith;
        key_user = refl;
        key_hash = refl;
        key_job = ground arith;
        event_job = ground arith;
        event_type = refl;
        unpublished = refl;
      }

  register_job-Creates :
      (n : ℕ) (db : Database)
      → Ends
          (CreatesAt env user hash params db)
          (register_job env params.user_id hash method path params (world n db (some db)))
  unfolding register_job get_job_by_id_tx query_row
  register_job-Creates n db =
      on_tx-Ends env P _ _ _ _ _ (λ e. inl refl)
        (λ id d₁ e₁.
          on_tx-Ends env P _ _ _ _ _ (λ e. inl refl)
            (λ _ d₂ e₂.
              lift-Ends P _ _ _ (λ e. inl refl)
                (λ payload _.
                  on_tx-Ends env P _ _ _ _ _ (λ e. inl refl)
                    (λ event_id d₃ e₃.
                      on_tx-Ends env P _ _ _ _ _ (λ e. inl refl)
                        (λ job d₄ e₄.
                          let done = IsRegistered-of_steps n _ _ _ _ payload e₁ e₂ e₃ e₄ in
                          commit-Ends env P _ _ _ _ (inl refl) (inr (job, done))
                            (ends P _ done))))))
    where
      P : Result (StoreJob × Bool) × World → Type 0
      P = CreatesAt env user hash params db

  -- The path of a known request reads the key's job.
  reuse_job-Creates :
      (n : ℕ) (db : Database) {key : StoreIdempotencyKey} {id : String}
      → find (is_request user hash) db.idempotency_keys ≡ some key
      → key.job_id ≡ some id
      → env.uuid_in id ≡ some id
      → Ends (CreatesAt env user hash params db) (reuse_job env id (world n db (some db)))
  unfolding reuse_job get_job_by_id_tx query_row
  reuse_job-Creates n db {key} {id} found points printed =
      on_tx-Ends env P _ _ _ _ _ (λ e. inl refl)
        (λ job d e.
          let (id', read_id, at, same, kept) = select_job-ok env id n db e in
          commit-Ends env P _ _ _ _ (inl refl) (inl kept)
            (ends P _ (kept, key, found, ground arith, ground arith)))
    where
      P : Result (StoreJob × Bool) × World → Type 0
      P = CreatesAt env user hash params db

-- Every key holds its job's id as the server prints it.
abbrev pub HasPrintedJob : Env → StoreIdempotencyKey → Type 0
HasPrintedJob env key = (id : String) → key.job_id ≡ some id → env.uuid_in id ≡ some id

abbrev pub KeysPrinted : Env → Database → Type 0
KeysPrinted env db = All (HasPrintedJob env) db.idempotency_keys

-- A call that asks for a job with the hash of a request either reuses the job of an earlier
-- request and changes nothing, or stores a new job, its key and its event together; if it fails,
-- it has done nothing or, when the answer to its commit was lost, all of it.
pub create_job-Creates :
    (env : Env) (user hash method path : String) (params : StoreCreateJobParams) (w : World)
    → MakesUuids env
    → env.uuid_in params.user_id ≡ some user
    → KeysPrinted env (env.peers w.calls w.db)
    → let (result, w') = create_job_with_idempotency env params.user_id hash method path params w in
      Creates env user hash params (env.peers w.calls w.db) result w'.db
unfolding create_job_with_idempotency after_lookup find
create_job-Creates env user hash method path params w makes read printed = claim P _ (
    begin_tx-Ends env P _ w (inl refl) (
      defer_rollback-Ends P _ _ (
        on_tx-Outcome env (select_key env params.user_id hash) Q n seen seen
          (λ id d e.
            let (user', key, read', found, points, kept) =
              select_key-ok env params.user_id hash n seen e in
            let same : user' ≡ user = ground arith in
            let found' = rw same at found in
            rw kept (
              reuse_job-Creates env makes hash method path params read (suc n) seen found' points (
                find-All (HasPrintedJob env) (is_request user hash) seen.idempotency_keys printed
                  found' id points)))
          (λ e why. missing e))))
  where
    n : ℕ
    n = suc w.calls

    seen : Database
    seen = env.peers w.calls w.db

    P : Result (StoreJob × Bool) × World → Type 0
    P = CreatesAt env user hash params seen

    Q : Result String × World → Type 0
    Q r = Ends P (after_lookup env params.user_id hash method path params r.0 r.1)

    missing : (e : Error) → Q (err e, world (suc n) seen (some seen))
    missing no_rows = register_job-Creates env makes hash method path params read (suc n) seen
    missing e = ends P _ (inl refl)
