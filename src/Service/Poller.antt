-- ===== src/Service/Poller.antt =====
-- `pollOnce` of service/outbox_poller.go. The client of the queue is not part of the repository:
-- `redis` says how the enqueuing of each task ends.
pub mod Marks
pub mod Claims
pub mod Rounds
pub mod Loop
pub mod Once
pub mod Drain
pub mod Interleaved
pub mod Invariant
use digital_ocean_assignment.Base.{String, List, [], ◌∷◌, Result, ok, err}
use digital_ocean_assignment.Base.Int.{ℤ}
use digital_ocean_assignment.Db.Rows.{StoreOutboxEvent}
use digital_ocean_assignment.Db.Session.{
  Env, World, Action, Fate, done, failed, lost, begin_tx, commit, defer_rollback, pure, ◌>>=◌, ◌>>◌,
}
use digital_ocean_assignment.Db.Outbox.{
  get_unpublished_outbox_events_tx, mark_outbox_event_published_tx, mark_outbox_event_unpublished,
}
use digital_ocean_assignment.Service.Task.{Task, new_job_process_task}

-- The session and the tasks in the queue, the newest first.
pub record Polling : Type 0 where
  pub world : World
  pub queue : List Task

module _ (env : Env) where
  unfoldable pub mark_all : List StoreOutboxEvent → Action (Unit {0})
  unfolding mark_outbox_event_published_tx
  mark_all [] = pure tt
  mark_all (event ∷ events) = do mark_outbox_event_published_tx env event.id; mark_all events

  unfoldable pub claim_events : List StoreOutboxEvent → Action (List StoreOutboxEvent)
  unfolding mark_all commit
  claim_events [] = do commit env; pure []
  claim_events (event ∷ events) = do mark_all (event ∷ events); commit env; pure (event ∷ events)

  -- The transaction of a round: the events that it has marked as published.
  unfoldable pub claim : ℤ → Action (List StoreOutboxEvent)
  unfolding claim_events begin_tx get_unpublished_outbox_events_tx
  claim limit = do
    begin_tx env
    defer_rollback do events ← get_unpublished_outbox_events_tx env limit; claim_events events

  -- An error of the clean-up is logged only.
  unfoldable pub clean_up : String → World → World
  unfolding mark_outbox_event_unpublished
  clean_up outbox_id w = (mark_outbox_event_unpublished env outbox_id w).1

  module _ (redis : Task → Fate) where
    unfoldable pub enqueue : Task → String → Polling → Polling
    unfolding clean_up
    enqueue task outbox_id s = elim (redis task) [
      | done ↦ record s { queue = task ∷ s.queue }
      | failed ↦ record s { world = clean_up outbox_id s.world }
      | lost ↦ record { world = clean_up outbox_id s.world; queue = task ∷ s.queue }
    ]

    -- One round of the loop over the claimed events.
    unfoldable pub dispatch : StoreOutboxEvent → Polling → Polling
    unfolding enqueue new_job_process_task clean_up
    dispatch event s = elim (new_job_process_task event.aggregate_id event.id) [
      | err _ ↦ record s { world = clean_up event.id s.world }
      | ok task ↦ enqueue task event.id s
    ]

    unfoldable pub dispatch_all : List StoreOutboxEvent → Polling → Polling
    unfolding dispatch
    dispatch_all [] s = s
    dispatch_all (event ∷ events) s = dispatch_all events (dispatch event s)

    unfoldable pub poll_once : ℤ → Polling → Result (Unit {0}) × Polling
    unfolding claim dispatch_all
    poll_once limit s =
        let (claimed, w) = claim limit s.world in
        let s' = record s { world = w } in
        elim claimed [ err e ↦ (err e, s') | ok events ↦ (ok tt, dispatch_all events s') ]
