-- ===== src/Service/Poller/Loop.antt =====
-- `StartOutboxPollers` of service/outbox_poller.go: the goroutines by their numbers. A turn of one
-- is a round and the `select` behind it; the turns of the goroutines come in any order.
pub mod Stops
use digital_ocean_assignment.Base.{
  ℕ, zero, suc, ◌<◌, ◌≡◌, refl, Bool, true, false, List, [], ◌∷◌, Result, ok, err, if◌then◌else◌,
  not, any, keep, ◌=ᵇ◌,
}
use digital_ocean_assignment.Base.Int.{ℤ}
use digital_ocean_assignment.Db.Session.{Env, Fate}
use digital_ocean_assignment.Service.Task.{Task}
use digital_ocean_assignment.Service.Poller.{Polling, poll_once}

-- What ends the `select`: the context, or the interval.
pub data Wake : Type 0 where
  cancelled ticked : Wake

-- A turn: the number of the poller, the answers of the queue, and the end of its `select`.
pub record Turn : Type 0 where
  pub poller : ℕ
  pub redis : Task → Fate
  pub wake : Wake

-- The pollers that have not returned.
pub record Pollers : Type 0 where
  pub polling : Polling
  pub active : List ℕ

abbrev pub is_active : ℕ → List ℕ → Bool
is_active i active = any (λ j. i =ᵇ j) active

abbrev pub returned : Wake → ℕ → List ℕ → List ℕ
returned cancelled i active = keep (λ j. not (i =ᵇ j)) active
returned ticked i active = active

abbrev pub numbers : ℕ → List ℕ
numbers zero = []
numbers (suc n) = n ∷ numbers n

module _ (env : Env) (limit : ℤ) where
  -- An error of the round is logged only.
  unfoldable pub take_turn : Turn → Pollers → Pollers
  unfolding poll_once
  take_turn turn s =
      if is_active turn.poller s.active
      then record {
        polling = (poll_once env turn.redis limit s.polling).1;
        active = returned turn.wake turn.poller s.active;
      }
      else s

  unfoldable pub take_turns : List Turn → Pollers → Pollers
  unfolding take_turn
  take_turns [] s = s
  take_turns (turn ∷ turns) s = take_turns turns (take_turn turn s)

  unfoldable pub start_outbox_pollers : (count : ℕ) → List Turn → Polling → Pollers
  unfolding take_turns
  start_outbox_pollers count turns polling =
      take_turns turns (record { polling = polling; active = numbers count })
