-- ===== src/Service/Processor/Attempts.antt =====
-- One attempt at a job whose webhook always fails.
use mathlib.Core.Option
use mathlib.Core.Path.{subst}
use digital_ocean_assignment.Base.{
  ℕ, suc, ◌+◌, ◌<◌, ◌≤◌, ◌≡◌, refl, ap, sym, ◌∙◌, String, true, false, some, ◌∷◌, ◌==◌, ok, arith,
  any, eq_refl,
}
use digital_ocean_assignment.Base.Int.{ℤ, pos, ◌+ℤ◌, leb_ℤ, fits_int4}
use digital_ocean_assignment.Base.Utf8.{Bytes}
use digital_ocean_assignment.Db.Rows.{StoreJob}
use digital_ocean_assignment.Db.Session.{Env, World}
use digital_ocean_assignment.Db.Sql.{find}
use digital_ocean_assignment.Db.Sql.Laws.{find-update}
use digital_ocean_assignment.Db.Jobs.{has_id, set_state}
use digital_ocean_assignment.Db.Outbox.{is_event, new_event}
use digital_ocean_assignment.Db.Idempotency.{event_payload}
use digital_ocean_assignment.Db.Idempotency.Replay.{AllDone, Alone}
use digital_ocean_assignment.Service.Task.{Task}
use digital_ocean_assignment.Service.Processor.{
  Outside, record_failure, failure, execute_job_webhook, run_job, finish_job, process_job_task,
}
use digital_ocean_assignment.Service.Processor.Start.{next_attempt}
use digital_ocean_assignment.Service.Processor.Finish.{
  with_state, retry_event, record_failure-retry, record_failure-retry_calls,
}
use digital_ocean_assignment.Service.Processor.Outcomes.{
  IsReady, started, process_job_task-eq, with_state-with_state, process_job-failed,
}

-- What a task reads of a job besides its id and its counters.
abbrev pub SameWork : StoreJob → StoreJob → Type 0
SameWork a b =
    (a.type ≡ b.type)
    × (a.name ≡ b.name)
    × (a.webhook_url ≡ b.webhook_url)
    × (a.payload ≡ b.payload)

-- A worker at a task of a job whose webhook always fails, with calls of the store that succeed. The
-- event of a retry of this job is valid JSON.
pub record IsHopeless (env : Env) (out : Outside) (task : Task) (id : String) (origin : StoreJob)
    (text : Bytes) : Type 0 where
  pub all_done : AllDone env
  pub alone : Alone env
  pub outbox_id : String
  pub parsed : out.unmarshal task.payload ≡ some (record { job_id = id; outbox_id = outbox_id })
  pub printed : env.uuid_in id ≡ some id
  pub not_cancelled : out.cancelled ≡ false
  pub not_injected : out.injected ≡ false
  pub message : Bytes
  pub refuses : execute_job_webhook out origin ≡ failure message
  pub read : env.text_in message ≡ some text
  pub event : Bytes
  pub stored_event : Bytes
  pub encodes :
      event_payload env id origin.type origin.name origin.webhook_url origin.payload ≡ ok event
  pub accepts : env.json_in event ≡ some stored_event
  pub new_ids : (n m : ℕ) → n < m → (env.fresh_id n == env.fresh_id m) ≡ false

-- The tables after a number of attempts, with the state of the job.
pub record Tried (env : Env) (id : String) (origin : StoreJob) (state : String)
    (attempts retries : ℕ) (w : World) : Type 0 where
  pub job : StoreJob
  pub found : find (has_id id) w.db.jobs ≡ some job
  pub same_id : job.id ≡ id
  pub same_work : SameWork job origin
  pub counted : job.attempts ≡ pos attempts
  pub limit : job.max_retries ≡ pos retries
  pub is_state : job.state ≡ state
  pub free : (n : ℕ) → w.calls ≤ n → any (is_event (env.fresh_id n)) w.db.outbox ≡ false

execute_job_webhook-SameWork :
    (out : Outside) (a b : StoreJob)
    → SameWork a b
    → execute_job_webhook out a ≡ execute_job_webhook out b
unfolding execute_job_webhook
execute_job_webhook-SameWork out a b (type, name, url, payload) = rw url (rw payload refl)

event_payload-SameWork :
    (env : Env) (id : String) (a b : StoreJob)
    → SameWork a b
    → event_payload env id a.type a.name a.webhook_url a.payload
      ≡ event_payload env id b.type b.name b.webhook_url b.payload
event_payload-SameWork env id a b (type, name, url, payload) =
    rw type (rw name (rw url (rw payload refl)))

module _ (env : Env) (out : Outside) (task : Task) (id : String) (origin : StoreJob) (text : Bytes)
    (hopeless : IsHopeless env out task id origin text) (w : World) {state : String}
    {attempts retries : ℕ} (tried : Tried env id origin state attempts retries w)
    (fits : fits_int4 (pos retries) ≡ true) where
  next : next_attempt tried.job ≡ pos (suc attempts)
  next = ap (λ a. a +ℤ pos 1) tried.counted ∙ ground arith

  ready : attempts < retries → IsReady env out task w tried.job
  ready more = record {
    all_done = hopeless.all_done;
    alone = hopeless.alone;
    outbox_id = hopeless.outbox_id;
    parsed =
        subst
          (λ i.
            out.unmarshal task.payload
            ≡ some (record { job_id = i; outbox_id = hopeless.outbox_id }))
          (sym tried.same_id) hopeless.parsed;
    found = subst (λ i. find (has_id i) w.db.jobs ≡ some tried.job) (sym tried.same_id) tried.found;
    printed = subst (λ i. env.uuid_in i ≡ some i) (sym tried.same_id) hopeless.printed;
    fits = ground (arith, next);
  }

  -- The job's row after its state has been set.
  find-with_state :
      (s : String) (e : _) (n : ℤ) (now : ℕ)
      → find (has_id id) (with_state tried.job.id s e Option.none n now w.db).jobs
        ≡ some (set_state s e Option.none n now tried.job)
  find-with_state s e n now = ground (
    arith,
    tried.found,
    tried.same_id,
    eq_refl id,
    find-update (has_id id) (has_id tried.job.id) (set_state s e Option.none n now) w.db.jobs
        (λ x. refl),
  )

  refused : execute_job_webhook out tried.job ≡ failure hopeless.message
  refused = execute_job_webhook-SameWork out tried.job origin tried.same_work ∙ hopeless.refuses

  encoded :
      event_payload env tried.job.id tried.job.type tried.job.name tried.job.webhook_url
        tried.job.payload
      ≡ ok hopeless.event
  encoded =
      ap
        (λ i.
          event_payload env i tried.job.type tried.job.name tried.job.webhook_url tried.job.payload)
        tried.same_id
      ∙ event_payload-SameWork env id tried.job origin tried.same_work
      ∙ hopeless.encodes

  -- One more attempt that is not the last.
  pub retry :
      suc attempts < retries
      → Tried env id origin "queued" (suc attempts) retries (process_job_task env out task w).1
  unfolding run_job finish_job
  retry more =
      let job = tried.job in
      let ready_now = ready (omega arith) in
      let begun = started env out task w job ready_now in
      let payload = hopeless.event in
      let stored = hopeless.stored_event in
      let valid = hopeless.accepts in
      let again : leb_ℤ job.max_retries (next_attempt job) ≡ false =
        ground (arith, next, tried.limit) in
      let fresh : any (is_event (env.fresh_id (suc (suc begun.calls)))) w.db.outbox ≡ false =
        tried.free (suc (suc begun.calls)) (omega arith) in
      let through : (process_job_task env out task w).1
          ≡ (record_failure env job hopeless.message (next_attempt job) begun).1 =
        ground (
          arith,
          hopeless.not_cancelled,
          hopeless.not_injected,
          refused,
          process_job_task-eq env out task w job ready_now,
        ) in
      let now = env.now (suc begun.calls) in
      let event =
        new_event (retry_event job payload) (env.fresh_id (suc (suc begun.calls))) job.id stored
          (env.now (suc (suc begun.calls))) in
      let after : (process_job_task env out task w).1.db
          ≡ record (with_state job.id "queued" (some text) Option.none (next_attempt job) now
              w.db) { outbox = event ∷ w.db.outbox } =
        ground (
          arith,
          through,
          record_failure-retry env hopeless.all_done hopeless.alone begun job (next_attempt job)
              ready_now.printed ready_now.fits hopeless.message hopeless.read again encoded valid
              fresh,
          with_state-with_state job.id "running" "queued" Option.none (some text) Option.none
              Option.none (next_attempt job) (next_attempt job) (env.now (suc (suc (suc w.calls))))
              now w.db,
        ) in
      let calls : (process_job_task env out task w).1.calls ≡ 4 + begun.calls =
        ap (λ v. v.calls) through
        ∙ record_failure-retry_calls env hopeless.all_done hopeless.alone begun job
            (next_attempt job) ready_now.printed ready_now.fits hopeless.message hopeless.read again
            encoded valid fresh in
      record {
        job = set_state "queued" (some text) Option.none (next_attempt job) now job;
        found =
            ap (λ d. find (has_id id) d.jobs) after
            ∙ find-with_state "queued" (some text) (next_attempt job) now;
        same_id = tried.same_id;
        same_work = tried.same_work;
        counted = next;
        limit = tried.limit;
        is_state = refl;
        free = λ n late. ground (
          arith,
          after,
          hopeless.new_ids (suc (suc begun.calls)) n (omega (arith, calls, late)),
          tried.free n (omega (arith, calls, late)),
        );
      }

  -- The last attempt.
  pub give_up :
      suc attempts ≡ retries
      → (job : StoreJob) × (find (has_id id) (process_job_task env out task w).1.db.jobs ≡ some job)
        × (job.state ≡ "failed")
        × (job.attempts ≡ pos retries)
        × (job.last_error ≡ some text)
  give_up last =
      let job = tried.job in
      let ready_now = ready (omega (arith, last)) in
      let (answer, now, after) =
        process_job-failed env out task w job ready_now hopeless.not_cancelled hopeless.not_injected
          {message = hopeless.message} {text = text} refused hopeless.read
          (ground (arith, next, tried.limit, last)) in
      (
        set_state "failed" (some text) Option.none (next_attempt job) now job,
        ap (λ d. find (has_id id) d.jobs) after
            ∙ find-with_state "failed" (some text) (next_attempt job) now,
        refl,
        next ∙ ap pos last,
        refl,
      )
