-- ===== src/Db/Valid.antt =====
-- The invariant of the tables: what the constraints of the migrations and the states that the code
-- writes amount to.
pub mod Tables
pub mod Statements
pub mod Programs
use digital_ocean_assignment.Base.{
  ◌≡◌, String, Bool, true, false, some, List, [], ◌∷◌, ◌==◌, any, All,
}
use digital_ocean_assignment.Db.Rows.{StoreUser, StoreJob, StoreIdempotencyKey, Database}
use digital_ocean_assignment.Db.Jobs.{has_id}
use digital_ocean_assignment.Db.Keys.{is_request}

-- No row is the same as a later one.
abbrev pub Apart : {A : Type 0} → (A → A → Bool) → List A → Type 0
Apart same [] = Unit
Apart same (x ∷ xs) = (any (same x) xs ≡ false) × Apart same xs

abbrev pub same_job : StoreJob → StoreJob → Bool
same_job a = has_id a.id

abbrev pub same_request : StoreIdempotencyKey → StoreIdempotencyKey → Bool
same_request a = is_request a.user_id a.request_hash

abbrev pub has_email : String → StoreUser → Bool
has_email email user = user.email == email

abbrev pub same_email : StoreUser → StoreUser → Bool
same_email a = has_email a.email

abbrev pub is_user : String → StoreUser → Bool
is_user id user = user.id == id

abbrev pub known_state : String → Bool
known_state state =
    any (λ s. state == s) ("pending" ∷ "running" ∷ "queued" ∷ "completed" ∷ "failed" ∷ [])

abbrev pub HasState : StoreJob → Type 0
HasState job = known_state job.state ≡ true

abbrev pub IsOwned : List StoreUser → StoreJob → Type 0
IsOwned users job = any (is_user job.user_id) users ≡ true

abbrev pub Points : List StoreJob → StoreIdempotencyKey → Type 0
Points jobs key = (id : String) → key.job_id ≡ some id → any (has_id id) jobs ≡ true

-- Emails, job ids and requests are unique; a job has an owner and one of the five states; and a key
-- points to a stored job.
pub record IsValid (db : Database) : Type 0 where
  pub users_apart : Apart same_email db.users
  pub jobs_apart : Apart same_job db.jobs
  pub requests_apart : Apart same_request db.idempotency_keys
  pub states : All HasState db.jobs
  pub owners : All (IsOwned db.users) db.jobs
  pub points : All (Points db.jobs) db.idempotency_keys
