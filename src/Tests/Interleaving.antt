-- ===== src/Tests/Interleaving.antt =====
-- Two goroutines whose statements alternate, at concrete inputs.
use digital_ocean_assignment.Base.{
  ℕ, ◌+◌, ◌≤◌, ◌≡◌, refl, String, ◌==◌, inl, inr, List, [], ◌∷◌, Bool-cases, arith,
}
use digital_ocean_assignment.Base.Int.{pos}
use digital_ocean_assignment.Db.Session.{done}
use digital_ocean_assignment.Db.Sql.{order_by, place, delete}
use digital_ocean_assignment.Db.Outbox.{select_unpublished, pending_events}
use digital_ocean_assignment.Service.Task.{new_job_process_task}
use digital_ocean_assignment.Service.Poller.Once.{count}
use digital_ocean_assignment.Service.Poller.Interleaved.{
  Move, run_goroutines, make_moves, make_move, move_from, advance,
}
use digital_ocean_assignment.Service.Poller.Interleaved.Single.{
  Told, open_ids, due_ids, run_goroutines_single,
}
use digital_ocean_assignment.Tests.Fixtures.{calm, tables, event_one}

abbrev call : ℕ → Move
call i = record { poller = i; call = done; redis = done; count = 0 }

-- The second goroutine reads while the first holds the only event.
abbrev moves : List Move
moves = call 0 ∷ call 1 ∷ call 0 ∷ call 1 ∷ call 0 ∷ call 0 ∷ call 1 ∷ call 0 ∷ []

moves_run : (run_goroutines calm (pos 10) 2 moves tables).desk.queued ≡ event_one ∷ []
unfolding run_goroutines make_moves make_move move_from advance select_unpublished pending_events
    delete order_by place new_job_process_task
moves_run = refl

distinct : (id : String) → count id tables.outbox ≤ 1
distinct id = elim (Bool-cases ("event" == id)) [
  | inl this ↦ rw this (omega arith)
  | inr other ↦ rw other (omega arith)
]

run_goroutines_single_example :
    let s = run_goroutines calm (pos 10) 2 moves tables in
    open_ids "event" s + due_ids "event" s + count "event" s.desk.queued ≤ 1
run_goroutines_single_example =
    run_goroutines_single calm (pos 10) 2 moves tables "event" distinct (
      all_told,
      (all_told, (all_told, (all_told, (all_told, (all_told, (all_told, (all_told, tt))))))),
    )
  where
    all_told : Told (call 0)
    all_told e = ground (arith, e)
