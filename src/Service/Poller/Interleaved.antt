-- ===== src/Service/Poller/Interleaved.antt =====
-- `StartOutboxPollers` and `pollOnce` of service/outbox_poller.go with their goroutines interleaved
-- statement by statement: each goroutine stands in front of a call, and a move makes that call. The
-- rows that one transaction has selected stay locked until its end.
pub mod Counts
pub mod Rows
pub mod Single
use digital_ocean_assignment.Base.{
  ℕ, zero, suc, String, Bool, Option, none, some, List, [], ◌∷◌, ok, err, any, ◌||◌,
}
use digital_ocean_assignment.Base.Int.{ℤ}
use digital_ocean_assignment.Db.Rows.{StoreOutboxEvent, Database}
use digital_ocean_assignment.Db.Session.{Env, Fate, done, failed, lost}
use digital_ocean_assignment.Db.Sql.{update}
use digital_ocean_assignment.Db.Outbox.{is_event, unpublish, select_unpublished}
use digital_ocean_assignment.Service.Task.{new_job_process_task}
use digital_ocean_assignment.Service.Poller.Marks.{marked, claimed_in}

-- Where a goroutine stands: in front of `BeginTx`, of the SELECT, of the UPDATE of the first event
-- that is left, of `Commit`, or of `Enqueue` for the first of the remaining events.
pub data Phase : Type 0 where
  idle selecting : Phase
  marking : (taken left : List StoreOutboxEvent) → Phase
  committing : (taken : List StoreOutboxEvent) → Phase
  enqueuing : (events : List StoreOutboxEvent) → Phase

-- The rows that its transaction holds locked.
abbrev pub held : Phase → List StoreOutboxEvent
held (marking taken left) = taken
held (committing taken) = taken
held _ = []

-- The committed tables, and the events whose tasks have reached the queue.
pub record Desk : Type 0 where
  pub db : Database
  pub queued : List StoreOutboxEvent

-- The goroutines, by their numbers.
pub record Goroutines : Type 0 where
  pub desk : Desk
  pub phases : List Phase

-- A move of a goroutine: how its call of the store ends, how the enqueuing ends, and the number of
-- the statement in front of it.
pub record Move : Type 0 where
  pub poller : ℕ
  pub call : Fate
  pub redis : Fate
  pub count : ℕ

abbrev pub is_locked : List Phase → String → Bool
is_locked phases id = any (λ p. claimed_in (held p) id) phases

-- Rows that other processes lock, and those that the goroutines lock.
abbrev pub with_locks : Env → List Phase → Env
with_locks env phases = record env { locked = λ n id. env.locked n id || is_locked phases id }

abbrev pub selected : List StoreOutboxEvent → Phase
selected [] = committing []
selected (event ∷ events) = marking (event ∷ events) (event ∷ events)

abbrev pub after_mark : List StoreOutboxEvent → List StoreOutboxEvent → Phase
after_mark taken [] = committing taken
after_mark taken (event ∷ left) = marking taken (event ∷ left)

module _ (env : Env) (limit : ℤ) (move : Move) where
  abbrev pub unpublish_event : String → Desk → Desk
  unpublish_event id d =
      let db = d.db in
      let cleaned = record d {
        db = record db {
          outbox = update (is_event id) (unpublish (env.now (suc move.count))) db.outbox;
        };
      } in
      elim move.call [ done ↦ cleaned | failed ↦ d | lost ↦ cleaned ]

  abbrev pub enqueue_event : StoreOutboxEvent → Desk → Desk
  enqueue_event event d = elim (new_job_process_task event.aggregate_id event.id) [
    | err _ ↦ unpublish_event event.id d
    | ok task ↦ elim move.redis [
      | done ↦ record d { queued = event ∷ d.queued }
      | failed ↦ unpublish_event event.id d
      | lost ↦ unpublish_event event.id (record d { queued = event ∷ d.queued })
    ]
  ]

  -- An error in front of `Commit` rolls the transaction back.
  unfoldable pub advance : List Phase → Phase → Desk → Phase × Desk
  unfolding select_unpublished new_job_process_task
  advance phases idle d = (elim move.call [ done ↦ selecting | failed ↦ idle | lost ↦ idle ], d)
  advance phases selecting d = elim move.call [
    | done ↦ elim (select_unpublished (with_locks env phases) limit (suc move.count) d.db) [
      | err _ ↦ (idle, d)
      | ok (events, _) ↦ (selected events, d)
    ]
    | failed ↦ (idle, d)
    | lost ↦ (idle, d)
  ]
  advance phases (marking taken []) d = (committing taken, d)
  advance phases (marking taken (event ∷ left)) d =
      (elim move.call [ done ↦ after_mark taken left | failed ↦ idle | lost ↦ idle ], d)
  advance phases (committing taken) d =
      let published = record d { db = marked env (suc move.count) taken d.db } in
      elim move.call [
        | done ↦ (enqueuing taken, published)
        | failed ↦ (idle, d)
        | lost ↦ (idle, published)
      ]
  advance phases (enqueuing []) d = (idle, d)
  advance phases (enqueuing (event ∷ events)) d = (enqueuing events, enqueue_event event d)

abbrev pub phase_at : ℕ → List Phase → Option Phase
phase_at i [] = none
phase_at zero (p ∷ phases) = some p
phase_at (suc i) (p ∷ phases) = phase_at i phases

abbrev pub set_phase : ℕ → Phase → List Phase → List Phase
set_phase i new [] = []
set_phase zero new (p ∷ phases) = new ∷ phases
set_phase (suc i) new (p ∷ phases) = p ∷ set_phase i new phases

module _ (env : Env) (limit : ℤ) where
  -- A number of no goroutine makes no move.
  unfoldable pub move_from : Move → Goroutines → Option Phase → Goroutines
  unfolding advance
  move_from move s none = s
  move_from move s (some phase) =
      let (next, desk) = advance env limit move s.phases phase s.desk in
      record { desk = desk; phases = set_phase move.poller next s.phases }

  unfoldable pub make_move : Move → Goroutines → Goroutines
  unfolding move_from
  make_move move s = move_from move s (phase_at move.poller s.phases)

  unfoldable pub make_moves : List Move → Goroutines → Goroutines
  unfolding make_move
  make_moves [] s = s
  make_moves (move ∷ moves) s = make_moves moves (make_move move s)

abbrev pub all_idle : ℕ → List Phase
all_idle zero = []
all_idle (suc n) = idle ∷ all_idle n

unfoldable pub run_goroutines : Env → ℤ → (number : ℕ) → List Move → Database → Goroutines
unfolding make_moves
run_goroutines env limit number moves db =
    make_moves env limit moves
      (record { desk = record { db = db; queued = [] }; phases = all_idle number })
