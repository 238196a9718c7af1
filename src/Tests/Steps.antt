-- ===== src/Tests/Steps.antt =====
-- The steps of the service, at concrete inputs.
use digital_ocean_assignment.Base.{refl, false, []}
use digital_ocean_assignment.Base.Int.{pos}
use digital_ocean_assignment.Db.Session.{World, done}
use digital_ocean_assignment.Db.Valid.{IsValid}
use digital_ocean_assignment.Service.Poller.{poll_once}
use digital_ocean_assignment.Service.Processor.{response, process_job_task}
use digital_ocean_assignment.System.{Step, Reaches, IsValid-Reaches}
use digital_ocean_assignment.Tests.Fixtures.{calm, tables, start}
use digital_ocean_assignment.Tests.Processing.{worker, task_one}
use digital_ocean_assignment.Base.Utf8.{bytes}

pub IsValid-tables : IsValid tables
IsValid-tables = record {
  users_apart = (refl, tt);
  jobs_apart = (refl, tt);
  requests_apart = tt;
  states = (refl, tt);
  owners = (refl, tt);
  points = tt;
}

-- After a round of the poller and the processing of a task.
abbrev polled : World
polled = (poll_once calm (λ task. done) (pos 10) (record { world = start; queue = [] })).1.world

abbrev processed : World
processed =
    (process_job_task calm (worker false false (response 200 (bytes "{}"))) task_one polled).1

IsValid-Reaches_example : IsValid processed.db
IsValid-Reaches_example =
    IsValid-Reaches calm start processed (λ n db valid. valid) refl IsValid-tables
      (Reaches.then (Reaches.then Reaches.here (Step.poll (λ task. done) (pos 10) [] start))
        (Step.process (worker false false (response 200 (bytes "{}"))) task_one polled))
