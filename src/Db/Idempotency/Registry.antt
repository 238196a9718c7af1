-- ===== src/Db/Idempotency/Registry.antt =====
-- What `CreateJobWithIdempotency` promises: a registry of job ids by user and request.
use digital_ocean_assignment.Base.{
  ◌≡◌, refl, ap, sym, ◌∙◌, ◌⊎◌, inl, inr, String, Bool, true, false, Bool-cases, Option, none, some,
  List, [], ◌∷◌, any, Result, ok, err, if◌then◌else◌, ◌==◌, ◌&&◌, arith,
}
use digital_ocean_assignment.Db.Rows.{StoreJob, StoreIdempotencyKey, StoreCreateJobParams, Database}
use digital_ocean_assignment.Db.Session.{Env, World}
use digital_ocean_assignment.Db.Sql.{find}
use digital_ocean_assignment.Db.Keys.{is_request}
use digital_ocean_assignment.Db.Idempotency.{create_job_with_idempotency}
use digital_ocean_assignment.Db.Idempotency.Atomic.{
  MakesUuids, KeysPrinted, IsRegistered, Creates, create_job-Creates,
}

-- The job that stands for a user's request.
abbrev pub Registry : Type 0
Registry = (user hash : String) → Option String

abbrev pub bind : Registry → (user hash id : String) → Registry
bind r user hash id user' hash' = if user == user' && hash == hash' then some id else r user' hash'

abbrev found_or_bind :
    Registry → (user hash fresh : String) → Option String → Registry × String × Bool
found_or_bind r user hash fresh (some id) = (r, id, true)
found_or_bind r user hash fresh none = (bind r user hash fresh, fresh, false)

-- The specification: a known request yields its job and `true`, a new one is bound to `fresh`.
abbrev pub look_up_or_bind : Registry → (user hash fresh : String) → Registry × String × Bool
look_up_or_bind r user hash fresh = found_or_bind r user hash fresh (r user hash)

abbrev job_of : Option StoreIdempotencyKey → Option String
job_of none = none
job_of (some key) = key.job_id

-- The registry that a table of keys stands for.
unfoldable pub registry : List StoreIdempotencyKey → Registry
unfolding find
registry keys user hash = job_of (find (is_request user hash) keys)

abbrev pub registry_of : Database → Registry
registry_of db = registry db.idempotency_keys

registry-unknown :
    (user hash : String) (keys : List StoreIdempotencyKey)
    → any (is_request user hash) keys ≡ false
    → registry keys user hash ≡ none
unfolding registry find
registry-unknown user hash [] h = refl
registry-unknown user hash (key ∷ keys) h = elim (Bool-cases (is_request user hash key)) [
  | inl same ↦ ground (arith, same, h)
  | inr other ↦ rw other (registry-unknown user hash keys (ground (arith, other, h)))
]

registry-cons :
    (user hash id : String) (key : StoreIdempotencyKey) (keys : List StoreIdempotencyKey)
    → key.user_id ≡ user
    → key.request_hash ≡ hash
    → key.job_id ≡ some id
    → registry (key ∷ keys) ≡ bind (registry keys) user hash id
unfolding registry find
registry-cons user hash id key keys same_user same_hash points = λ i user' hash'. at user' hash' i
  where
    at :
        (user' hash' : String)
        → registry (key ∷ keys) user' hash' ≡ bind (registry keys) user hash id user' hash'
    at user' hash' = elim (Bool-cases (is_request user' hash' key)) [
      | inl this ↦ ground (arith, this, same_user, same_hash, points)
      | inr other ↦ ground (arith, other, same_user, same_hash)
    ]

-- A call of the store against the specification, by how it ended.
module _ (user hash : String) (before : Database) where
  abbrev pub Refines : Result (StoreJob × Bool) → Database → Type 0
  Refines (ok (job, known)) after =
      look_up_or_bind (registry_of before) user hash job.id ≡ (registry_of after, job.id, known)
  Refines (err e) after =
      (registry_of after ≡ registry_of before)
      ⊎ ((id : String) × (look_up_or_bind (registry_of before) user hash id
            ≡ (registry_of after, id, false)))

module _ (env : Env) (user hash : String) (params : StoreCreateJobParams) (before : Database) where
  bound :
      (job : StoreJob) (after : Database)
      → IsRegistered env user hash params job before after
      → look_up_or_bind (registry_of before) user hash job.id ≡ (registry_of after, job.id, false)
  bound job after new =
      ap (found_or_bind (registry_of before) user hash job.id)
        (registry-unknown user hash before.idempotency_keys new.new_request)
      ∙ ap (λ r. (r, job.id, false))
          (sym (
            ap registry_of new.stored
            ∙ registry-cons user hash job.id new.key before.idempotency_keys new.key_user
                new.key_hash new.key_job))

  known :
      (job : StoreJob) (key : StoreIdempotencyKey)
      → find (is_request user hash) before.idempotency_keys ≡ some key
      → key.job_id ≡ some job.id
      → registry_of before user hash ≡ some job.id
  unfolding registry
  known job key found points = rw found points

  Creates-Refines :
      (result : Result (StoreJob × Bool)) (after : Database)
      → Creates env user hash params before result after
      → Refines user hash before result after
  Creates-Refines (ok (job, true)) after (same, key, found, points, _) =
      ap (found_or_bind (registry_of before) user hash job.id) (known job key found points)
      ∙ ap (λ db. (registry_of db, job.id, true)) (sym same)
  Creates-Refines (ok (job, false)) after new = bound job after new
  Creates-Refines (err e) after (inl same) = inl (ap registry_of same)
  Creates-Refines (err e) after (inr (job, new)) = inr (job.id, bound job after new)

pub create_job-Refines :
    (env : Env) (user hash method path : String) (params : StoreCreateJobParams) (w : World)
    → MakesUuids env
    → env.uuid_in params.user_id ≡ some user
    → KeysPrinted env (env.peers w.calls w.db)
    → let (result, w') = create_job_with_idempotency env params.user_id hash method path params w in
      Refines user hash (env.peers w.calls w.db) result w'.db
create_job-Refines env user hash method path params w makes read printed =
    Creates-Refines env user hash params _ _ _
      (create_job-Creates env user hash method path params w makes read printed)
