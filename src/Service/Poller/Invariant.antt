-- ===== src/Service/Poller/Invariant.antt =====
-- A round of the poller keeps the invariant of the tables.
use digital_ocean_assignment.Base.{List, [], ◌∷◌, Result, ok, err}
use digital_ocean_assignment.Base.Int.{ℤ}
use digital_ocean_assignment.Db.Rows.{StoreOutboxEvent}
use digital_ocean_assignment.Db.Session.{Env, World, Fate, done, failed, lost}
use digital_ocean_assignment.Db.Outbox.{
  get_unpublished_outbox_events_tx, mark_outbox_event_published_tx, mark_outbox_event_unpublished,
}
use digital_ocean_assignment.Db.Valid.Statements.{
  mark_published-Keeps, mark_unpublished-Keeps, select_unpublished-Keeps,
}
use digital_ocean_assignment.Db.Valid.Programs.{
  PeersKeep, IsSound, Preserves, run, bind-Preserves, pure-Preserves, defer_rollback-Preserves,
  begin_tx-Preserves, on_tx-Preserves, on_pool-Preserves, commit-Preserves,
}
use digital_ocean_assignment.Service.Task.{Task, new_job_process_task}
use digital_ocean_assignment.Service.Poller.Rounds.{task_of}
use digital_ocean_assignment.Service.Poller.{
  Polling, mark_all, claim_events, claim, clean_up, enqueue, dispatch, dispatch_all, poll_once,
}

module _ (env : Env) where
  mark_all-Preserves : (events : List StoreOutboxEvent) → Preserves (mark_all env events)
  unfolding mark_all mark_outbox_event_published_tx
  mark_all-Preserves [] = pure-Preserves tt
  mark_all-Preserves (event ∷ events) =
      bind-Preserves _ _ (on_tx-Preserves env _ (mark_published-Keeps env event.id))
        (λ _. mark_all-Preserves events)

  claim_events-Preserves : (events : List StoreOutboxEvent) → Preserves (claim_events env events)
  unfolding claim_events
  claim_events-Preserves [] = bind-Preserves _ _ (commit-Preserves env) (λ _. pure-Preserves [])
  claim_events-Preserves (event ∷ events) =
      bind-Preserves _ _ (mark_all-Preserves (event ∷ events))
        (λ _. bind-Preserves _ _ (commit-Preserves env) (λ _. pure-Preserves (event ∷ events)))

  module _ (peers : PeersKeep env) where
    claim-Preserves : (limit : ℤ) → Preserves (claim env limit)
    unfolding claim get_unpublished_outbox_events_tx
    claim-Preserves limit = bind-Preserves _ _ (begin_tx-Preserves env peers) (λ _.
        defer_rollback-Preserves _ (
          bind-Preserves _ _ (on_tx-Preserves env _ (select_unpublished-Keeps env limit))
            claim_events-Preserves))

    clean_up-IsSound : (id : _) (w : World) → IsSound w → IsSound (clean_up env id w)
    unfolding clean_up mark_outbox_event_unpublished
    clean_up-IsSound id w sound =
        run _ (on_pool-Preserves env peers _ (mark_unpublished-Keeps env id)) w sound

    dispatch-IsSound :
        (redis : Task → Fate) (event : StoreOutboxEvent) (s : Polling)
        → IsSound s.world
        → IsSound (dispatch env redis event s).world
    unfolding dispatch enqueue new_job_process_task
    dispatch-IsSound redis event s sound = go (redis (task_of event))
      where
        go :
            (fate : Fate)
            → let end : Polling = elim fate [
              | done ↦ record s { queue = task_of event ∷ s.queue }
              | failed ↦ record s { world = clean_up env event.id s.world }
              | lost ↦ record {
                world = clean_up env event.id s.world;
                queue = task_of event ∷ s.queue;
              }
            ] in
              IsSound end.world
        go done = sound
        go failed = clean_up-IsSound event.id s.world sound
        go lost = clean_up-IsSound event.id s.world sound

    dispatch_all-IsSound :
        (redis : Task → Fate) (events : List StoreOutboxEvent) (s : Polling)
        → IsSound s.world
        → IsSound (dispatch_all env redis events s).world
    unfolding dispatch_all
    dispatch_all-IsSound redis [] s sound = sound
    dispatch_all-IsSound redis (event ∷ events) s sound =
        dispatch_all-IsSound redis events (dispatch env redis event s)
          (dispatch-IsSound redis event s sound)

    pub poll_once-IsSound :
        (redis : Task → Fate) (limit : ℤ) (s : Polling)
        → IsSound s.world
        → IsSound (poll_once env redis limit s).1.world
    unfolding poll_once
    poll_once-IsSound redis limit s sound =
        go (claim env limit s.world).0 (claim env limit s.world).1
          (run _ (claim-Preserves limit) s.world sound)
      where
        go :
            (r : Result (List StoreOutboxEvent)) (w : World)
            → IsSound w
            → let s' = record s { world = w } in
              let end : Result (Unit {0}) × Polling = elim r [
                | err e ↦ (err e, s')
                | ok events ↦ (ok tt, dispatch_all env redis events s')
              ] in
              IsSound end.1.world
        go (ok events) w h = dispatch_all-IsSound redis events (record s { world = w }) h
        go (err e) w h = h
