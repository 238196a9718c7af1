-- ===== src/Tests/Draining.antt =====
-- Pollers that drain the outbox, at concrete inputs.
use digital_ocean_assignment.Base.{
  ◌≡◌, ◌≤◌, refl, String, [], ◌∷◌, Bool-cases, inl, inr, arith, ◌==◌, length,
}
use digital_ocean_assignment.Base.Int.{pos}
use digital_ocean_assignment.Db.Session.{done}
use digital_ocean_assignment.Db.Sql.{find}
use digital_ocean_assignment.Service.Poller.{Polling}
use digital_ocean_assignment.Service.Poller.Loop.{ticked, Turn, start_outbox_pollers}
use digital_ocean_assignment.Service.Poller.Once.{count}
use digital_ocean_assignment.Service.Poller.Drain.{waiting}
use digital_ocean_assignment.Service.Poller.Drain.Turns.{Ready, start_outbox_pollers_drain}
use digital_ocean_assignment.Tests.Fixtures.{calm, start, tables}

abbrev accepted_turn : Turn
accepted_turn = record { poller = 1; redis = λ task. done; wake = ticked }

abbrev idle : Polling
idle = record { world = start; queue = [] }

one_event : (id : String) → count id tables.outbox ≤ 1
one_event id = elim (Bool-cases ("event" == id)) [
  | inl this ↦ rw this (omega arith)
  | inr other ↦ rw other (omega arith)
]

turn-Ready : Ready 2 accepted_turn
turn-Ready = (refl, omega arith, λ task. refl)

few : length (waiting tables) ≤ 1
unfolding find
few = omega arith

start_outbox_pollers_drain_example :
    waiting (start_outbox_pollers calm (pos 10) 2 (accepted_turn ∷ []) idle).polling.world.db ≡ []
start_outbox_pollers_drain_example =
    start_outbox_pollers_drain calm 10 2 (accepted_turn ∷ []) idle (λ n. refl) (λ n db. refl)
      (λ n id. refl) (omega arith) (turn-Ready, tt) one_event (refl, tt) few
