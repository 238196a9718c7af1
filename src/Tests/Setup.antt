-- ===== src/Tests/Setup.antt =====
-- The set-up of the programs and the loops of the pollers, at concrete inputs.
use digital_ocean_assignment.Base.{
  ℕ, ◌≡◌, refl, String, true, some, List, [], ◌∷◌, ◌==◌, ◌&&◌, not, if◌then◌else◌, arith,
}
use digital_ocean_assignment.Base.Int.{pos}
use digital_ocean_assignment.Db.Session.{done, failed}
use digital_ocean_assignment.Service.Poller.{Polling}
use digital_ocean_assignment.Service.Poller.Loop.{
  cancelled, ticked, Turn, is_active, start_outbox_pollers,
}
use digital_ocean_assignment.Service.Poller.Loop.Stops.{
  sees_cancellation, start_outbox_pollers_loop,
}
use digital_ocean_assignment.Programs.{
  Machine, no_change, migrate, opened, closed, checked_out, migrated, listening, fatal,
  open_database, run_api,
}
use digital_ocean_assignment.Programs.Startup.{serves, has_database, run_api-serves}
use digital_ocean_assignment.Tests.Fixtures.{calm, start}

-- Everything is set but PORT, and the migrations are up to date.
abbrev settings : String → String
settings name = if name == "PORT" then "" else if name == "REDIS_DB" then "2" else "value"

abbrev machine : Machine
machine = record {
  getenv = settings;
  new_logger = true;
  abs = λ path. some path;
  opens = λ call url. true;
  pings = λ call url. true;
  with_instance = true;
  new_migration = λ source. true;
  up = no_change;
  runs = λ opt. true;
}

api_run : run_api machine ≡ (
  opened ∷ checked_out ∷ migrated ∷ closed ∷ opened ∷ listening "8000" ∷ [],
  fatal "server failed",
)
unfolding run_api migrate open_database
api_run = refl

run_api-serves_example :
    serves (run_api machine).0
    ≡ (true && not ("value" == "") && has_database machine "value" && not ("value" == ""))
run_api-serves_example = run_api-serves machine

abbrev turn : ℕ → Turn
turn i = record { poller = i; redis = λ task. done; wake = ticked }

abbrev last_turn : ℕ → Turn
last_turn i = record { poller = i; redis = λ task. failed; wake = cancelled }

abbrev turns : List Turn
turns = turn 0 ∷ turn 1 ∷ last_turn 1 ∷ turn 0 ∷ last_turn 0 ∷ []

abbrev idle : Polling
idle = record { world = start; queue = [] }

start_outbox_pollers_loop_example :
    is_active 1 (start_outbox_pollers calm (pos 10) 2 turns idle).active
    ≡ not (sees_cancellation 1 turns)
start_outbox_pollers_loop_example =
    start_outbox_pollers_loop calm (pos 10) 2 turns idle 1 (omega arith)
