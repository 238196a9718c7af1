-- ===== src/Service/Poller/Once/Ids.antt =====
-- service/outbox_poller.go: the ids in the outbox before and after a round.
use mathlib.Core.Path.{subst}
use digital_ocean_assignment.Base.{
  none, ◌==◌, some, ℕ, suc, ◌+◌, ◌≡◌, refl, ap, ◌∙◌, String, Bool, Bool-cases, inl, inr, List, [],
  ◌∷◌, map, length, arith, All, ok,
}
use digital_ocean_assignment.Base.Int.{pos}
use digital_ocean_assignment.Db.Rows.{StoreOutboxEvent, Database}
use digital_ocean_assignment.Db.Session.{Env, Fate}
use digital_ocean_assignment.Db.Session.Rules.{world, Fate-cases}
use digital_ocean_assignment.Db.Sql.{update}
use digital_ocean_assignment.Db.Outbox.{is_event, publish, unpublish}
use digital_ocean_assignment.Db.Idempotency.Replay.{AllDone, Alone}
use digital_ocean_assignment.Service.Task.{Task, new_job_process_task}
use digital_ocean_assignment.Service.Poller.{
  Polling, claim, enqueue, dispatch, dispatch_all, poll_once,
}
use digital_ocean_assignment.Service.Poller.Marks.{names, IsPrinted, marked}
use digital_ocean_assignment.Service.Poller.Claims.{batch, batch-All, claim-done}
use digital_ocean_assignment.Service.Poller.Rounds.{task_of, clean_up-done}
use digital_ocean_assignment.Service.Poller.Once.{count, one_if}

-- The ids in the outbox, in order.
abbrev pub ids_of : List StoreOutboxEvent → List String
ids_of events = map StoreOutboxEvent.id events

pub ids-update :
    (p : StoreOutboxEvent → Bool) (f : StoreOutboxEvent → StoreOutboxEvent)
    (xs : List StoreOutboxEvent)
    → ((x : StoreOutboxEvent) → (f x).id ≡ x.id)
    → ids_of (update p f xs) ≡ ids_of xs
unfolding update
ids-update p f [] same = refl
ids-update p f (x ∷ xs) same = elim (Bool-cases (p x)) [
  | inl hit ↦ rw hit (cc (same x, ids-update p f xs same))
  | inr miss ↦ rw miss (cc (ids-update p f xs same))
]

cons_same : {A : Type 0} {x y : A} {xs ys : List A} → x ∷ xs ≡ y ∷ ys → (x ≡ y) × (xs ≡ ys)
cons_same e = (cc e, cc e)

-- What depends on the ids alone.
pub count_ids :
    (id : String) (xs ys : List StoreOutboxEvent)
    → ids_of xs ≡ ids_of ys
    → count id xs ≡ count id ys
count_ids id [] [] e = refl
count_ids id [] (y ∷ ys) e = ground (arith, e)
count_ids id (x ∷ xs) [] e = ground (arith, e)
count_ids id (x ∷ xs) (y ∷ ys) e =
    let (first, rest) = cons_same e in
    ap (λ i. one_if (i == id) + count id xs) first
    ∙ ap (λ n. one_if (names id y) + n) (count_ids id xs ys rest)

module _ (env : Env) where
  pub IsPrinted-ids :
      (xs ys : List StoreOutboxEvent)
      → ids_of xs ≡ ids_of ys
      → All (IsPrinted env) xs
      → All (IsPrinted env) ys
  IsPrinted-ids [] [] e h = tt
  IsPrinted-ids [] (y ∷ ys) e h = ground (arith, e)
  IsPrinted-ids (x ∷ xs) [] e h = ground (arith, e)
  IsPrinted-ids (x ∷ xs) (y ∷ ys) e (h, hs) =
      let (first, rest) = cons_same e in
      (subst (λ i. env.uuid_in i ≡ some i) first h, IsPrinted-ids xs ys rest hs)

  pub marked-ids :
      (events : List StoreOutboxEvent) (n : ℕ) (db : Database)
      → ids_of (marked env n events db).outbox ≡ ids_of db.outbox
  unfolding marked
  marked-ids [] n db = refl
  marked-ids (event ∷ events) n db =
      marked-ids events (suc n) _
      ∙ ids-update (is_event event.id) (publish (env.now n)) db.outbox (λ x. refl)

  module _ (all_done : AllDone env) (alone : Alone env) (redis : Task → Fate) where
    dispatch-ids :
        (event : StoreOutboxEvent) (s : Polling)
        → IsPrinted env event
        → ids_of (dispatch env redis event s).world.db.outbox ≡ ids_of s.world.db.outbox
    unfolding dispatch enqueue new_job_process_task
    dispatch-ids event s printed =
        let cleaned = clean_up-done redis env all_done alone event s.world printed in
        let step =
          ids-update (is_event event.id) (unpublish (env.now s.world.calls)) s.world.db.outbox
            (λ x. refl) in
        elim (Fate-cases (redis (task_of event))) [
          | inl f ↦ ground (arith, f)
          | inr (inl f) ↦ ground (arith, f, cleaned, step)
          | inr (inr f) ↦ ground (arith, f, cleaned, step)
        ]

    dispatch_all-ids :
        (events : List StoreOutboxEvent) (s : Polling)
        → All (IsPrinted env) events
        → ids_of (dispatch_all env redis events s).world.db.outbox ≡ ids_of s.world.db.outbox
    unfolding dispatch_all
    dispatch_all-ids [] s printed = refl
    dispatch_all-ids (event ∷ events) s (printed, rest) =
        dispatch_all-ids events (dispatch env redis event s) rest ∙ dispatch-ids event s printed

    pub poll_once-ids :
        (limit : ℕ) (s : Polling)
        → All (IsPrinted env) s.world.db.outbox
        → ids_of (poll_once env redis (pos limit) s).1.world.db.outbox ≡ ids_of s.world.db.outbox
    unfolding poll_once
    poll_once-ids limit s printed =
        let events = batch env limit s.world in
        let start = suc (suc s.world.calls) in
        let last = start + length events in
        let after = world (suc last) (marked env start events s.world.db) none in
        let claimed : claim env (pos limit) s.world ≡ (ok events, after) =
          claim-done env alone limit s.world printed (λ k h. all_done k) (all_done last) in
        ground (
          arith,
          claimed,
          dispatch_all-ids events (record s { world = after })
                (batch-All (IsPrinted env) env limit s.world printed)
              ∙ marked-ids events start s.world.db,
        )
