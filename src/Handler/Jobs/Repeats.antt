-- ===== src/Handler/Jobs/Repeats.antt =====
-- A repeated POST /jobs, and what is left of a deleted job.
use digital_ocean_assignment.Base.{
  ◌≡◌, ◌≢◌, refl, sym, ap, ◌∙◌, inl, inr, String, Bool, true, false, Option, some, Result, ok, err,
  arith, Bool-cases, str-cases,
}
use digital_ocean_assignment.Base.Utf8.{Bytes}
use digital_ocean_assignment.Db.Rows.{StoreJob}
use digital_ocean_assignment.Db.Session.{Env, World}
use digital_ocean_assignment.Db.Idempotency.{create_job_with_idempotency}
use digital_ocean_assignment.Db.Idempotency.Atomic.{MakesUuids, KeysPrinted}
use digital_ocean_assignment.Db.Idempotency.Replay.{AllDone, Alone, create_job_twice}
use digital_ocean_assignment.Service.Token.{LocalClaims}
use digital_ocean_assignment.Handler.Http.{RegisterJobRequest, Response, job_state, get_user_id}
use digital_ocean_assignment.Handler.Jobs.{
  with_user, created, has_required, payload_of, job_params, request_hash, create_job,
  create_job_handler,
}
use digital_ocean_assignment.Handler.Jobs.Access.{known_user}
use digital_ocean_assignment.Handler.Jobs.Isolation.{world-created}

-- The answer of 200 for a job that is already registered.
abbrev pub already : StoreJob → Response
already job = record {
  status = 200;
  message = "job already registered";
  content = job_state job.id job.state;
}

-- Only a new job is answered by 202.
accepted :
    (r : Result (StoreJob × Bool) × World)
    → (created r).0.status ≡ 202
    → (job : StoreJob) × (r.0 ≡ ok (job, false))
      × ((created r).0.content ≡ job_state job.id job.state)
accepted (ok (job, false), w) h = (job, refl, refl)
accepted (ok (job, true), w) h = ground arith
accepted (err e, w) h = ground arith

repeated :
    (r : Result (StoreJob × Bool) × World) (job : StoreJob)
    → r.0 ≡ ok (job, true)
    → (created r).0 ≡ already job
repeated (ok (job', true), w) job h = ground arith
repeated (ok (job', false), w) job h = ground arith
repeated (err e, w) job h = ground arith

module _ (env : Env) (sha256_hex : Bytes → String) (claims : Option LocalClaims)
    (req : RegisterJobRequest) (w : World) where
  abbrev user : String
  user = get_user_id claims

  abbrev hash : String
  hash = request_hash sha256_hex (payload_of req)

  call : World → Result (StoreJob × Bool) × World
  call =
      create_job_with_idempotency env user hash "POST" "/jobs"
        (job_params user req (payload_of req))

  -- Past the checks, the handler is the call of the store and its answer.
  create_job_handler-call :
      user ≢ ""
      → has_required req ≡ true
      → (s : World) → create_job_handler env sha256_hex claims (some req) s ≡ created (call s)
  unfolding create_job_handler create_job call
  create_job_handler-call known complete s =
      known_user claims (create_job env sha256_hex (some req)) s known ∙ ground arith

  -- A request that is answered by 202 has passed the checks.
  create_job_handler-checks :
      (create_job_handler env sha256_hex claims (some req) w).0.status ≡ 202
      → (user ≢ "") × (has_required req ≡ true)
  unfolding create_job_handler create_job with_user
  create_job_handler-checks status = elim (str-cases user "") [
    | inl (hit, nobody) ↦ ground arith
    | inr (miss, known) ↦ elim (Bool-cases (has_required req)) [
      | inl complete ↦ (known, complete)
      | inr lacking ↦ ground arith
    ]
  ]

-- A POST /jobs that is answered by 202 and then sent again is answered by 200 with the id and state
-- of the same job, and the second request leaves the tables as the first left them. Every call is
-- assumed to succeed with no other session at work, and the user's id and the keys' job ids to be
-- as the server prints them.
pub create_job_handler_twice :
    (env : Env) (sha256_hex : Bytes → String) (claims : Option LocalClaims)
    (req : RegisterJobRequest) (w : World)
    → AllDone env
    → Alone env
    → MakesUuids env
    → env.uuid_in (get_user_id claims) ≡ some (get_user_id claims)
    → KeysPrinted env w.db
    → (create_job_handler env sha256_hex claims (some req) w).0.status ≡ 202
    → let (first, w') = create_job_handler env sha256_hex claims (some req) w in
      let (second, w'') = create_job_handler env sha256_hex claims (some req) w' in
      (job : StoreJob) × (first.content ≡ job_state job.id job.state)
      × (second ≡ already job)
      × (w''.db ≡ w'.db)
unfolding call
create_job_handler_twice env sha256_hex claims req w all_done alone makes read printed status =
    let user = get_user_id claims in
    let payload = payload_of req in
    let params = job_params user req payload in
    let (known, complete) = create_job_handler-checks env sha256_hex claims req w status in
    let through = create_job_handler-call env sha256_hex claims req w known complete in
    let run = call env sha256_hex claims req w in
    let (job, made, content) = accepted (run w) (ap (λ r. r.0.status) (sym (through w)) ∙ status) in
    let (again, same) =
      create_job_twice env user (request_hash sha256_hex payload) "POST" "/jobs" "POST" "/jobs"
        params params w job false all_done alone makes read printed made in
    let after : (create_job_handler env sha256_hex claims (some req) w).1 ≡ (run w).1 =
      ap (λ r. r.1) (through w) ∙ world-created (run w) in
    let twice : create_job_handler env sha256_hex claims (some req)
          (create_job_handler env sha256_hex claims (some req) w).1
        ≡ created (run (run w).1) =
      ap (create_job_handler env sha256_hex claims (some req)) after ∙ through (run w).1 in
    (
      job,
      ap (λ r. r.0.content) (through w) ∙ content,
      ap (λ r. r.0) twice ∙ repeated (run (run w).1) job again,
      ap (λ r. r.1.db) twice
          ∙ ap (λ s. s.db) (world-created (run (run w).1))
          ∙ same
          ∙ sym (ap (λ s. s.db) after),
    )
