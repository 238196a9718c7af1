-- ===== src/Tests/Retries.antt =====
-- A job whose webhook always fails, at a concrete input.
use Prim.Native.String.compare
use text.Mathlib.Text.{is_eq}
use digital_ocean_assignment.Base.{ap, ◌∙◌, ℕ, zero, suc, ◌<◌, ◌≡◌, refl, false, some, ◌==◌, arith}
use digital_ocean_assignment.Base.Int.{pos}
use digital_ocean_assignment.Base.Utf8.{bytes}
use digital_ocean_assignment.Db.Rows.{StoreJob}
use digital_ocean_assignment.Db.Sql.{find}
use digital_ocean_assignment.Db.Jobs.{has_id}
use digital_ocean_assignment.Db.Idempotency.{event_payload}
use digital_ocean_assignment.Service.Processor.{response, execute_job_webhook}
use digital_ocean_assignment.Service.Processor.Retries.{retried, hopeless_job_fails}
use digital_ocean_assignment.Service.Processor.Attempts.{IsHopeless, Tried}
use digital_ocean_assignment.Tests.Fixtures.{calm, id_of, job_one, start}
use digital_ocean_assignment.Tests.Processing.{worker, task_one}

other_ids : (n m : ℕ) → n < m → (id_of n == id_of m) ≡ false
other_ids zero zero h = ground (arith, h)
other_ids zero (suc m) h = ap is_eq (compare.cons-cons "i" "x" "d" (id_of m))
other_ids (suc n) zero h = ground (arith, h)
other_ids (suc n) (suc m) h =
    ap is_eq (compare.cons-cons "x" "x" (id_of n) (id_of m)) ∙ other_ids n m (omega (arith, h))

free_ids : (n : ℕ) → ("event" == id_of n) ≡ false
free_ids zero = refl
free_ids (suc n) = ap is_eq (compare.cons-cons "e" "x" "vent" (id_of n))

IsHopeless-busy :
    IsHopeless calm
      (worker false false (response 503 (bytes "busy")))
      task_one
      "one"
      job_one
      (bytes "busy")
unfolding execute_job_webhook event_payload
IsHopeless-busy = record {
  all_done = λ n. refl;
  alone = λ n db. refl;
  outbox_id = "event";
  parsed = refl;
  printed = refl;
  not_cancelled = refl;
  not_injected = refl;
  message = bytes "busy";
  refuses = refl;
  read = refl;
  event = _;
  stored_event = _;
  encodes = refl;
  accepts = refl;
  new_ids = other_ids;
}

Tried-one : Tried calm "one" job_one "pending" 0 2 start
unfolding find
Tried-one = record {
  job = job_one;
  found = refl;
  same_id = refl;
  same_work = (refl, refl, refl, refl);
  counted = refl;
  limit = refl;
  is_state = refl;
  free = λ n h. ground (arith, free_ids n);
}

hopeless_job_fails_example :
    let run = retried calm (worker false false (response 503 (bytes "busy"))) task_one in
    ((k : ℕ)
      → suc k < 2
      → (job : StoreJob) × (find (has_id "one") (run (suc k) start).db.jobs ≡ some job)
        × (job.state ≡ "queued")
        × (job.attempts ≡ pos (suc k)))
    × (job : StoreJob) × (find (has_id "one") (run 2 start).db.jobs ≡ some job)
    × (job.state ≡ "failed")
    × (job.attempts ≡ pos 2)
    × (job.last_error ≡ some (bytes "busy"))
hopeless_job_fails_example =
    hopeless_job_fails calm (worker false false (response 503 (bytes "busy"))) task_one "one"
      "pending" job_one (bytes "busy") 1 start IsHopeless-busy Tried-one refl
