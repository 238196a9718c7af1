-- ===== src/Tests/Polling.antt =====
-- The rounds of the poller, at concrete inputs.
use mathlib.Core.List.{reverse}
use digital_ocean_assignment.Base.{
  ℕ, ◌≡◌, ◌<◌, ◌+◌, zero, suc, ◌≤◌, refl, String, true, false, [], ok, err, unavailable, length,
  All, keep, map, ◌++◌, arith, ltb, if◌then◌else◌,
}
use digital_ocean_assignment.Base.Int.{pos}
use digital_ocean_assignment.Db.Session.{Env, Fate, done, lost}
use digital_ocean_assignment.Db.Sql.{delete, order_by, place}
use digital_ocean_assignment.Db.Outbox.{pending_events}
use digital_ocean_assignment.Service.Task.{Task}
use digital_ocean_assignment.Service.Poller.{Polling, poll_once}
use digital_ocean_assignment.Service.Poller.Marks.{status, flagged, claimed_in}
use digital_ocean_assignment.Service.Poller.Claims.{batch, IsPending}
use digital_ocean_assignment.Service.Poller.Rounds.{
  task_of, reaches, failed_in, poll_once_round, poll_once_lost,
}
use digital_ocean_assignment.Tests.Fixtures.{calm, tables, start}

abbrev idle : Polling
idle = record { world = start; queue = [] }

-- A queue that takes every task and reports an error all the same.
abbrev late_queue : Task → Fate
late_queue task = lost

-- The answer of the fourth call, the commit of a round with one event, is lost.
abbrev losing : Env
losing = record calm { fate = λ n. if ltb n 3 then done else lost }

early : (k : ℕ) → k < 2 + length (batch losing 10 start) → losing.fate k ≡ done
unfolding batch pending_events delete order_by place
early zero h = refl
early (suc zero) h = refl
early (suc (suc zero)) h = refl
early (suc (suc (suc k))) h = ground arith

poll_once_round_example :
    let events = batch calm 10 start in
    let (result, s) = poll_once calm late_queue (pos 10) idle in
    (result ≡ ok tt)
    × All (IsPending calm 1) events
    × (length events ≤ 10)
    × ((id : String)
        → status id s.world.db
          ≡ flagged
              (failed_in late_queue events id)
              false
              (flagged (claimed_in events id) true (status id tables)))
    × (s.queue ≡ reverse (map task_of (keep (reaches late_queue) events)) ++ [])
poll_once_round_example =
    poll_once_round calm late_queue 10 idle (λ n. refl) (λ n db. refl) (refl, tt)

poll_once_lost_example :
    let (result, s) = poll_once losing late_queue (pos 10) idle in
    (result ≡ err unavailable)
    × (s.queue ≡ [])
    × ((id : String)
        → status id s.world.db
          ≡ flagged (claimed_in (batch losing 10 start) id) true (status id tables))
unfolding batch pending_events delete order_by place
poll_once_lost_example =
    poll_once_lost losing late_queue 10 idle (λ n db. refl) (refl, tt) early refl
