-- ===== src/Db/Valid/Tables.antt =====
-- What an insertion, an assignment and a deletion keep of the invariant.
use digital_ocean_assignment.Base.{
  ◌≡◌, refl, ap, String, Bool, true, false, List, [], ◌∷◌, ◌==◌, any, All, All-map, arith,
  Bool-cases, inl, inr, eq_iff,
}
use digital_ocean_assignment.Db.Rows.{StoreUser, StoreJob, StoreIdempotencyKey, Database}
use digital_ocean_assignment.Db.Sql.{update, delete}
use digital_ocean_assignment.Db.Sql.Laws.{any-update, update-All, delete-All}
use digital_ocean_assignment.Db.Jobs.{has_id, is_owned, refers_to}
use digital_ocean_assignment.Db.Keys.{is_request}
use digital_ocean_assignment.Db.Valid.{
  Apart, same_job, same_request, has_email, HasState, IsOwned, Points, IsValid,
}

module _ {A : Type 0} where
  pub any-delete-false :
      (q p : A → Bool) (xs : List A) → any q xs ≡ false → any q (delete p xs) ≡ false
  unfolding delete
  any-delete-false q p [] h = refl
  any-delete-false q p (x ∷ xs) h = ground (arith, any-delete-false q p xs)

  -- A test that no deleted row passes.
  any-delete :
      (q p : A → Bool) (xs : List A)
      → ((x : A) → q x ≡ true → p x ≡ false)
      → any q (delete p xs) ≡ any q xs
  unfolding delete
  any-delete q p [] apart = refl
  any-delete q p (x ∷ xs) apart = ground (arith, apart x, any-delete q p xs apart)

  delete_none : (p : A → Bool) (xs : List A) → any p xs ≡ false → delete p xs ≡ xs
  unfolding delete
  delete_none p [] h = refl
  delete_none p (x ∷ xs) h = ground (arith, delete_none p xs)

  pub any_weaken :
      (q p : A → Bool) (xs : List A)
      → ((x : A) → q x ≡ true → p x ≡ true)
      → any p xs ≡ false
      → any q xs ≡ false
  any_weaken q p [] within h = refl
  any_weaken q p (x ∷ xs) within h = ground (arith, within x, any_weaken q p xs within)

  module _ (same : A → A → Bool) where
    Apart-delete : (p : A → Bool) (xs : List A) → Apart same xs → Apart same (delete p xs)
    unfolding delete
    Apart-delete p [] h = tt
    Apart-delete p (x ∷ xs) (new, h) = elim (Bool-cases (p x)) [
      | inl hit ↦ rw hit (Apart-delete p xs h)
      | inr miss ↦ rw miss (any-delete-false (same x) p xs new, Apart-delete p xs h)
    ]

    Apart-update :
        (p : A → Bool) (f : A → A) (xs : List A)
        → ((x : A) → same (f x) ≡ same x)
        → ((x y : A) → same x (f y) ≡ same x y)
        → Apart same xs
        → Apart same (update p f xs)
    unfolding update
    Apart-update p f [] left right h = tt
    Apart-update p f (x ∷ xs) left right (new, h) =
        let rest = Apart-update p f xs left right h in
        elim (Bool-cases (p x)) [
          | inl hit ↦ rw hit (rw (left x) (rw (any-update (same x) p f xs (right x)) new), rest)
          | inr miss ↦ rw miss (rw (any-update (same x) p f xs (right x)) new, rest)
        ]

-- An assignment to jobs that keeps their ids and owners and gives them a known state.
module _ (p : StoreJob → Bool) (f : StoreJob → StoreJob)
    (id_kept : (job : StoreJob) → (f job).id ≡ job.id)
    (owner_kept : (job : StoreJob) → (f job).user_id ≡ job.user_id)
    (state_kept : (job : StoreJob) → HasState job → HasState (f job)) (db : Database) where
  pub IsValid-update : IsValid db → IsValid (record db { jobs = update p f db.jobs })
  IsValid-update valid = record {
    users_apart = valid.users_apart;
    jobs_apart =
        Apart-update same_job p f db.jobs (λ job. ap has_id (id_kept job))
          (λ job other. ap (λ id. id == job.id) (id_kept other)) valid.jobs_apart;
    requests_apart = valid.requests_apart;
    states = update-All HasState p f db.jobs state_kept valid.states;
    owners =
        update-All (IsOwned db.users) p f db.jobs (λ job owned. rw (owner_kept job) owned)
          valid.owners;
    points =
        All-map (Points db.jobs) (Points (update p f db.jobs))
          (λ key points id at.
            rw (any-update (has_id id) p f db.jobs (λ job. ap (λ i. i == id) (id_kept job)))
              (points id at))
          db.idempotency_keys valid.points;
  }

pub IsValid-user :
    (user : StoreUser) (db : Database)
    → any (has_email user.email) db.users ≡ false
    → IsValid db
    → IsValid (record db { users = user ∷ db.users })
IsValid-user user db new valid = record {
  users_apart = (new, valid.users_apart);
  jobs_apart = valid.jobs_apart;
  requests_apart = valid.requests_apart;
  states = valid.states;
  owners =
      All-map (IsOwned db.users) (IsOwned (user ∷ db.users)) (λ job owned. ground arith) db.jobs
        valid.owners;
  points = valid.points;
}

pub IsValid-job :
    (job : StoreJob) (db : Database)
    → any (has_id job.id) db.jobs ≡ false
    → HasState job
    → IsOwned db.users job
    → IsValid db
    → IsValid (record db { jobs = job ∷ db.jobs })
IsValid-job job db new state owned valid = record {
  users_apart = valid.users_apart;
  jobs_apart = (new, valid.jobs_apart);
  requests_apart = valid.requests_apart;
  states = (state, valid.states);
  owners = (owned, valid.owners);
  points =
      All-map (Points db.jobs) (Points (job ∷ db.jobs))
        (λ key points id at. ground (arith, points id at)) db.idempotency_keys valid.points;
}

pub IsValid-key :
    (key : StoreIdempotencyKey) (db : Database)
    → any (is_request key.user_id key.request_hash) db.idempotency_keys ≡ false
    → Points db.jobs key
    → IsValid db
    → IsValid (record db { idempotency_keys = key ∷ db.idempotency_keys })
IsValid-key key db new points valid = record {
  users_apart = valid.users_apart;
  jobs_apart = valid.jobs_apart;
  requests_apart = (new, valid.requests_apart);
  states = valid.states;
  owners = valid.owners;
  points = (points, valid.points);
}

pub IsValid-events :
    (outbox : List _) (db : Database) → IsValid db → IsValid (record db { outbox = outbox })
IsValid-events outbox db valid = record {
  users_apart = valid.users_apart;
  jobs_apart = valid.jobs_apart;
  requests_apart = valid.requests_apart;
  states = valid.states;
  owners = valid.owners;
  points = valid.points;
}

-- The deletion of a job with the keys that point to it.
module _ (id user : String) (db : Database) where
  abbrev without_job : Database
  without_job = record db {
    jobs = delete (is_owned id user) db.jobs;
    idempotency_keys = delete (refers_to id) db.idempotency_keys;
  }

  Points-delete :
      (key : StoreIdempotencyKey)
      → refers_to id key ≡ false
      → Points db.jobs key
      → Points (delete (is_owned id user) db.jobs) key
  Points-delete key free points other at =
      rw
        (any-delete (has_id other) (is_owned id user) db.jobs
          (λ job hit. ground (arith, at, eq_iff job.id other, eq_iff other id)))
        (points other at)

  All-Points :
      (keys : List StoreIdempotencyKey)
      → All (Points db.jobs) keys
      → All (Points (delete (is_owned id user) db.jobs)) (delete (refers_to id) keys)
  unfolding delete
  All-Points [] h = tt
  All-Points (key ∷ keys) (points, h) = elim (Bool-cases (refers_to id key)) [
    | inl gone ↦ rw gone (All-Points keys h)
    | inr free ↦ rw free (Points-delete key free points, All-Points keys h)
  ]

  pub IsValid-delete : IsValid db → IsValid without_job
  IsValid-delete valid = record {
    users_apart = valid.users_apart;
    jobs_apart = Apart-delete same_job (is_owned id user) db.jobs valid.jobs_apart;
    requests_apart =
        Apart-delete same_request (refers_to id) db.idempotency_keys valid.requests_apart;
    states = delete-All HasState (is_owned id user) db.jobs valid.states;
    owners = delete-All (IsOwned db.users) (is_owned id user) db.jobs valid.owners;
    points = All-Points db.idempotency_keys valid.points;
  }

  -- No such job: nothing is deleted.
  pub IsValid-no_delete :
      any (is_owned id user) db.jobs ≡ false
      → IsValid db
      → IsValid (record db { jobs = delete (is_owned id user) db.jobs })
  IsValid-no_delete none_owned valid = rw (delete_none (is_owned id user) db.jobs none_owned) valid
