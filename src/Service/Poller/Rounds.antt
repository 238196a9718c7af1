-- ===== src/Service/Poller/Rounds.antt =====
-- What `pollOnce` does with the events of a round, when the calls that it makes succeed.
use mathlib.Core.List.{reverse, reverse_aux, reverse_aux-eq}
use digital_ocean_assignment.Base.{
  ℕ, suc, ◌+◌, ◌≤◌, ◌≡◌, refl, ap, ◌∙◌, String, Bool, true, false, none, List, [], ◌∷◌, ◌++◌, map,
  ◌&&◌, ok, err, arith, length, keep, All, any, inl, inr, if◌then◌else◌, unavailable,
}
use digital_ocean_assignment.Base.Int.{pos}
use digital_ocean_assignment.Db.Rows.{StoreOutboxEvent}
use digital_ocean_assignment.Db.Session.{Env, World, Fate, done, failed, lost, on_pool}
use digital_ocean_assignment.Db.Session.Rules.{world, Fate-cases}
use digital_ocean_assignment.Db.Sql.{update}
use digital_ocean_assignment.Db.Outbox.{
  is_event, unpublish, mark_unpublished, mark_outbox_event_unpublished,
}
use digital_ocean_assignment.Db.Idempotency.Replay.{AllDone, Alone}
use digital_ocean_assignment.Service.Task.{Task, marshal_task_payload, new_job_process_task}
use digital_ocean_assignment.Service.Poller.{
  Polling, claim, clean_up, enqueue, dispatch, dispatch_all, poll_once,
}
use digital_ocean_assignment.Service.Poller.Claims.{
  batch, IsPending, batch-All, batch-IsPending, length-batch-le, DoneBefore, claim-done, claim-lost,
}
use digital_ocean_assignment.Service.Poller.Marks.{
  status, names, IsPrinted, marked, status-update, marked-status, claimed_in, flagged,
  flagged_twice,
}

-- The task of an event: it names the job and the event.
abbrev pub task_of : StoreOutboxEvent → Task
task_of event = record {
  type = "job:process";
  payload = marshal_task_payload (record { job_id = event.aggregate_id; outbox_id = event.id });
}

module _ (redis : Task → Fate) where
  -- Whether the task of an event enters the queue.
  abbrev pub reaches : StoreOutboxEvent → Bool
  reaches event = elim (redis (task_of event)) [ done ↦ true | failed ↦ false | lost ↦ true ]

  -- Whether its enqueuing reports an error.
  abbrev pub fails : StoreOutboxEvent → Bool
  fails event = elim (redis (task_of event)) [ done ↦ false | failed ↦ true | lost ↦ true ]

  -- Whether one of the events has this id and its enqueuing reports an error.
  abbrev pub failed_in : List StoreOutboxEvent → String → Bool
  failed_in events id = any (λ event. names id event && fails event) events

  module _ (env : Env) (all_done : AllDone env) (alone : Alone env) where
    pub clean_up-done :
        (event : StoreOutboxEvent) (w : World)
        → IsPrinted env event
        → clean_up env event.id w
          ≡ world
              (suc w.calls)
              (record w.db {
                outbox = update (is_event event.id) (unpublish (env.now w.calls)) w.db.outbox;
              })
              w.tx
    unfolding clean_up mark_outbox_event_unpublished on_pool mark_unpublished
    clean_up-done event w printed = ground (arith, all_done w.calls, alone w.calls w.db)

    dispatch-status :
        (id : String) (event : StoreOutboxEvent) (s : Polling)
        → IsPrinted env event
        → status id (dispatch env redis event s).world.db
          ≡ flagged (names id event && fails event) false (status id s.world.db)
    unfolding dispatch enqueue new_job_process_task
    dispatch-status id event s printed =
        let cleaned = clean_up-done event s.world printed in
        let step =
          status-update id event.id (unpublish (env.now s.world.calls)) false s.world.db (λ x. refl)
            (λ x. refl) in
        elim (Fate-cases (redis (task_of event))) [
          | inl f ↦ ground (arith, f)
          | inr (inl f) ↦ ground (arith, f, cleaned, step)
          | inr (inr f) ↦ ground (arith, f, cleaned, step)
        ]

    dispatch-queue :
        (event : StoreOutboxEvent) (s : Polling)
        → (dispatch env redis event s).queue
          ≡ (if reaches event then task_of event ∷ s.queue else s.queue)
    unfolding dispatch enqueue new_job_process_task
    dispatch-queue event s = elim (Fate-cases (redis (task_of event))) [
      | inl f ↦ ground (arith, f)
      | inr (inl f) ↦ ground (arith, f)
      | inr (inr f) ↦ ground (arith, f)
    ]

    dispatch_all-status :
        (id : String) (events : List StoreOutboxEvent) (s : Polling)
        → All (IsPrinted env) events
        → status id (dispatch_all env redis events s).world.db
          ≡ flagged (failed_in events id) false (status id s.world.db)
    unfolding dispatch_all
    dispatch_all-status id [] s printed = refl
    dispatch_all-status id (event ∷ events) s (printed, rest) =
        dispatch_all-status id events (dispatch env redis event s) rest
        ∙ ap (flagged (failed_in events id) false) (dispatch-status id event s printed)
        ∙ flagged_twice (names id event && fails event) (failed_in events id) false
            (status id s.world.db)

    dispatch_all-queue :
        (events : List StoreOutboxEvent) (s : Polling)
        → (dispatch_all env redis events s).queue
          ≡ reverse_aux (map task_of (keep reaches events)) s.queue
    unfolding dispatch_all
    dispatch_all-queue [] s = refl
    dispatch_all-queue (event ∷ events) s =
        ground
          (arith, dispatch-queue event s, dispatch_all-queue events (dispatch env redis event s))

-- A round whose calls of the store succeed takes the oldest events that are neither published nor
-- locked, up to its limit, and no others. Each of them is published afterwards, unless the
-- enqueuing of its task has reported an error: then it is unpublished again. The flags of all other
-- events stay as they are. The queue gains exactly the tasks that have reached it, in the order of
-- the events. The ids in the outbox are assumed to be as the server prints them, and no other
-- session to be at work.
pub poll_once_round :
    (env : Env) (redis : Task → Fate) (limit : ℕ) (s : Polling)
    → AllDone env
    → Alone env
    → All (IsPrinted env) s.world.db.outbox
    → let events = batch env limit s.world in
      let (result, s') = poll_once env redis (pos limit) s in
      (result ≡ ok tt)
      × All (IsPending env (suc s.world.calls)) events
      × (length events ≤ limit)
      × ((id : String)
          → status id s'.world.db
            ≡ flagged
                (failed_in redis events id)
                false
                (flagged (claimed_in events id) true (status id s.world.db)))
      × (s'.queue ≡ reverse (map task_of (keep (reaches redis) events)) ++ s.queue)
unfolding poll_once
poll_once_round env redis limit s all_done alone printed = (
  ground (arith, claimed),
  batch-IsPending env limit s.world,
  length-batch-le env limit s.world,
  λ id. ground (
    arith,
    claimed,
    dispatch_all-status redis env all_done alone id events after
        (batch-All (IsPrinted env) env limit s.world printed),
    marked-status env id events (suc (suc s.world.calls)) s.world.db,
  ),
  ground (
    arith,
    claimed,
    dispatch_all-queue redis env all_done alone events after
        ∙ reverse_aux-eq (map task_of (keep (reaches redis) events)) s.queue,
  ),
)
  where
    events : List StoreOutboxEvent
    events = batch env limit s.world

    last : ℕ
    last = suc (suc s.world.calls) + length events

    after : Polling
    after = record s {
      world = world (suc last) (marked env (suc (suc s.world.calls)) events s.world.db) none;
    }

    claimed : claim env (pos limit) s.world ≡ (ok events, after.world)
    claimed = claim-done env alone limit s.world printed (λ k h. all_done k) (all_done last)

-- A round whose commit takes effect while its answer is lost ends with an error and queues
-- nothing, although the events that it took are published afterwards. The flags of all other events
-- stay as they are.
pub poll_once_lost :
    (env : Env) (redis : Task → Fate) (limit : ℕ) (s : Polling)
    → Alone env
    → All (IsPrinted env) s.world.db.outbox
    → DoneBefore env (suc (suc s.world.calls) + length (batch env limit s.world))
    → env.fate (suc (suc s.world.calls) + length (batch env limit s.world)) ≡ lost
    → let (result, s') = poll_once env redis (pos limit) s in
      (result ≡ err unavailable)
      × (s'.queue ≡ s.queue)
      × ((id : String)
          → status id s'.world.db
            ≡ flagged (claimed_in (batch env limit s.world) id) true (status id s.world.db))
unfolding poll_once
poll_once_lost env redis limit s alone printed all_done last = (
  ground (arith, claimed),
  ground (arith, claimed),
  λ id. ground (
    arith,
    claimed,
    marked-status env id (batch env limit s.world) (suc (suc s.world.calls)) s.world.db,
  ),
)
  where
    claimed : claim env (pos limit) s.world ≡ (
      err unavailable,
      world
          (suc (suc (suc s.world.calls) + length (batch env limit s.world)))
          (marked env (suc (suc s.world.calls)) (batch env limit s.world) s.world.db)
          none,
    )
    claimed = claim-lost env alone limit s.world printed all_done last
