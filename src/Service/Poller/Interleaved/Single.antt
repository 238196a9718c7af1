-- ===== src/Service/Poller/Interleaved/Single.antt =====
-- service/outbox_poller.go: no two goroutines claim one event. The rows that a transaction has selected are skipped by the
-- others until they are published.
use digital_ocean_assignment.Base.{
  ℕ, suc, ◌+◌, ◌≤◌, ◌≡◌, ◌≢◌, refl, String, false, inl, inr, Option, none, some, List, [], ◌∷◌, ok,
  err, arith, All,
}
use digital_ocean_assignment.Base.Int.{ℤ, pos, negsuc}
use digital_ocean_assignment.Db.Rows.{StoreOutboxEvent, Database}
use digital_ocean_assignment.Db.Session.{Env, lost}
use digital_ocean_assignment.Db.Session.Rules.{world, Fate-cases}
use digital_ocean_assignment.Db.Outbox.{select_unpublished}
use digital_ocean_assignment.Service.Task.{new_job_process_task}
use digital_ocean_assignment.Service.Poller.Marks.{names}
use digital_ocean_assignment.Service.Poller.Claims.{batch}
use digital_ocean_assignment.Service.Poller.Once.{one_if, count}
use digital_ocean_assignment.Service.Poller.Interleaved.{
  Phase, idle, selecting, marking, committing, enqueuing, held, Desk, Goroutines, Move, is_locked,
  with_locks, selected, after_mark, unpublish_event, enqueue_event, advance, phase_at, move_from,
  make_move, make_moves, all_idle, run_goroutines,
}
use digital_ocean_assignment.Service.Poller.Interleaved.Counts.{
  remaining, total, total-set_phase, total-all_idle, total-unlocked,
}
use digital_ocean_assignment.Service.Poller.Interleaved.Rows.{
  Sound, Sound-less, take_rows, publish_rows, take_back,
}

-- The queue's answers arrive.
abbrev pub Told : Move → Type 0
Told move = move.redis ≢ lost

module _ (env : Env) (limit : ℤ) (move : Move) where
  module _ (busy due : String → ℕ) where
    unpublish_event-Sound :
        (event : StoreOutboxEvent) (d : Desk)
        → Sound busy (λ id. one_if (names id event) + due id) d
        → Sound busy due (unpublish_event env limit move event.id d)
    unpublish_event-Sound event d sound = elim (Fate-cases move.call) [
      | inl f ↦ rw f (take_back busy due d event (env.now (suc move.count)) sound)
      | inr (inl f) ↦ rw f (Sound-less (λ id. omega arith) (λ id. omega arith) sound)
      | inr (inr f) ↦ rw f (take_back busy due d event (env.now (suc move.count)) sound)
    ]

    queue_event :
        (event : StoreOutboxEvent) (d : Desk)
        → Sound busy (λ id. one_if (names id event) + due id) d
        → Sound busy due (record d { queued = event ∷ d.queued })
    queue_event event d sound = record {
      once = sound.once;
      single = λ id. omega (arith, sound.single id);
      unset = sound.unset;
      set = λ id h. sound.set id (omega (arith, h));
    }

    enqueue_event-Sound :
        Told move
        → (event : StoreOutboxEvent) (d : Desk)
        → Sound busy (λ id. one_if (names id event) + due id) d
        → Sound busy due (enqueue_event env limit move event d)
    unfolding new_job_process_task
    enqueue_event-Sound told event d sound = elim (Fate-cases move.redis) [
      | inl f ↦ rw f (queue_event event d sound)
      | inr (inl f) ↦ rw f (unpublish_event-Sound event d sound)
      | inr (inr f) ↦ absurd (told f)
    ]

  -- What a goroutine holds and has to enqueue, besides the others.
  abbrev Beside : (busy due : String → ℕ) → Phase → Desk → Type 0
  Beside busy due p d =
      Sound (λ id. count id (held p) + busy id) (λ id. count id (remaining p) + due id) d

  module _ (busy due : String → ℕ) (phases : List Phase)
      (free : (id : String) → is_locked phases id ≡ false → busy id ≡ 0) (d : Desk) where
    leave : (p : Phase) → Beside busy due p d → Beside busy due idle d
    leave p = Sound-less (λ id. omega arith) (λ id. omega arith)

    select_rows :
        (limit : ℤ)
        → Beside busy due selecting d
        → let result : Phase × Desk =
            elim (select_unpublished (with_locks env phases) limit (suc move.count) d.db) [
              | err _ ↦ (idle, d)
              | ok (events, _) ↦ (selected events, d)
            ] in
          Beside busy due result.0 result.1
    unfolding select_unpublished batch
    select_rows (negsuc n) sound = leave selecting sound
    select_rows (pos n) sound =
        let env' = with_locks env phases in
        go (batch env' n (world move.count d.db none)) (
          take_rows (λ id. 0 + busy id) (λ id. 0 + due id) d env' n move.count
            (λ id h. omega (arith, free id (ground (arith, h)))) sound)
      where
        go :
            (rows : List StoreOutboxEvent)
            → Sound (λ id. count id rows + (0 + busy id)) (λ id. 0 + due id) d
            → Beside busy due (selected rows) d
        go [] s = Sound-less (λ id. omega arith) (λ id. omega arith) s
        go (x ∷ rows) s = Sound-less (λ id. omega arith) (λ id. omega arith) s

    after_mark-Beside :
        (taken left : List StoreOutboxEvent)
        → Beside busy due (committing taken) d
        → Beside busy due (after_mark taken left) d
    after_mark-Beside taken [] s = s
    after_mark-Beside taken (event ∷ left) s = s

    advance-Beside :
        Told move
        → (p : Phase) → Beside busy due p d
        → Beside busy due
            (advance env limit move phases p d).0
            (advance env limit move phases p d).1
    unfolding advance
    advance-Beside told idle s = elim (Fate-cases move.call) [
      | inl f ↦ rw f s
      | inr (inl f) ↦ rw f s
      | inr (inr f) ↦ rw f s
    ]
    advance-Beside told selecting s = elim (Fate-cases move.call) [
      | inl f ↦ rw f (select_rows limit s)
      | inr (inl f) ↦ rw f (leave selecting s)
      | inr (inr f) ↦ rw f (leave selecting s)
    ]
    advance-Beside told (marking taken []) s = s
    advance-Beside told (marking taken (event ∷ left)) s = elim (Fate-cases move.call) [
      | inl f ↦ rw f (after_mark-Beside taken left s)
      | inr (inl f) ↦ rw f (leave (committing taken) s)
      | inr (inr f) ↦ rw f (leave (committing taken) s)
    ]
    advance-Beside told (committing taken) s =
        let published = publish_rows busy (λ id. 0 + due id) d env (suc move.count) taken s in
        elim (Fate-cases move.call) [
          | inl f ↦ rw f (Sound-less (λ id. omega arith) (λ id. omega arith) published)
          | inr (inl f) ↦ rw f (leave (committing taken) s)
          | inr (inr f) ↦ rw f (Sound-less (λ id. omega arith) (λ id. omega arith) published)
        ]
    advance-Beside told (enqueuing []) s = leave (enqueuing []) s
    advance-Beside told (enqueuing (event ∷ events)) s =
        Sound-less (λ id. omega arith) (λ id. omega arith)
          (enqueue_event-Sound (λ id. busy id) (λ id. count id events + due id) told event d
            (Sound-less (λ id. omega arith) (λ id. omega arith) s))

-- The ids that all the goroutines hold or have to enqueue, with those in the queue.
abbrev pub open_ids : String → Goroutines → ℕ
open_ids id s = total (λ p. count id (held p)) s.phases

abbrev pub due_ids : String → Goroutines → ℕ
due_ids id s = total (λ p. count id (remaining p)) s.phases

abbrev IsSound : Goroutines → Type 0
IsSound s = Sound (λ id. open_ids id s) (λ id. due_ids id s) s.desk

module _ (env : Env) (limit : ℤ) where
  make_move-IsSound :
      (move : Move) (s : Goroutines) → Told move → IsSound s → IsSound (make_move env limit move s)
  unfolding make_move move_from
  make_move-IsSound move s told sound = go (phase_at move.poller s.phases) refl
    where
      go :
          (phase : Option Phase)
          → phase_at move.poller s.phases ≡ phase
          → IsSound (move_from env limit move s phase)
      go none missing = sound
      go (some p) at =
          let open_rest =
            λ (id : String). total-set_phase (λ q. count id (held q)) move.poller p s.phases at in
          let due_rest = λ (id : String).
            total-set_phase (λ q. count id (remaining q)) move.poller p s.phases at in
          let next = (advance env limit move s.phases p s.desk).0 in
          let after =
            advance-Beside env limit move (λ id. (open_rest id).0) (λ id. (due_rest id).0) s.phases
              (λ id free. omega (arith, total-unlocked id s.phases free, (open_rest id).1)) s.desk
              told p
              (Sound-less (λ id. omega (arith, (open_rest id).1))
                (λ id. omega (arith, (due_rest id).1)) sound) in
          Sound-less (λ id. omega (arith, (open_rest id).2 next))
            (λ id. omega (arith, (due_rest id).2 next)) after

  make_moves-IsSound :
      (moves : List Move) (s : Goroutines)
      → All Told moves
      → IsSound s
      → IsSound (make_moves env limit moves s)
  unfolding make_moves
  make_moves-IsSound [] s told sound = sound
  make_moves-IsSound (move ∷ moves) s (first, rest) sound =
      make_moves-IsSound moves (make_move env limit move s) rest
        (make_move-IsSound move s first sound)

-- However the statements of the goroutines alternate and however their calls of the store end, no
-- id is more than once among the rows that the open transactions hold, the events that are still to
-- be enqueued, and those whose tasks are in the queue. The queue is assumed to be empty at first, the
-- ids of the outbox to be distinct, and the queue's answers to arrive.
pub run_goroutines_single :
    (env : Env) (limit : ℤ) (number : ℕ) (moves : List Move) (db : Database) (id : String)
    → ((other : String) → count other db.outbox ≤ 1)
    → All Told moves
    → let s = run_goroutines env limit number moves db in
      open_ids id s + due_ids id s + count id s.desk.queued ≤ 1
unfolding run_goroutines
run_goroutines_single env limit number moves db id distinct told =
    (make_moves-IsSound env limit moves _ told (record {
      once = distinct;
      single = λ other. omega (arith, none_open other, none_due other);
      unset = λ other h. ground (arith, h, none_open other);
      set = λ other h. ground (arith, h, none_due other);
    })).single
      id
  where
    none_open : (other : String) → total (λ p. count other (held p)) (all_idle number) ≡ 0
    none_open other = total-all_idle (λ p. count other (held p)) number refl

    none_due : (other : String) → total (λ p. count other (remaining p)) (all_idle number) ≡ 0
    none_due other = total-all_idle (λ p. count other (remaining p)) number refl
