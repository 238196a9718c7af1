-- ===== src/Service/Poller/Claims.antt =====
-- The transaction of a round: the events that `pollOnce` takes.
use digital_ocean_assignment.Base.{
  ℕ, suc, ◌+◌, ◌<◌, ◌≤◌, ◌≡◌, Bool, false, some, none, List, [], ◌∷◌, ok, err, arith, length, All,
  All-take, All-map, length-take-le, ◌||◌, unavailable,
}
use digital_ocean_assignment.Base.Int.{pos}
use digital_ocean_assignment.Db.Rows.{StoreOutboxEvent, Database}
use digital_ocean_assignment.Db.Session.{
  Env, World, done, lost, on_tx, begin_tx, commit, defer_rollback, ◌>>=◌,
}
use digital_ocean_assignment.Db.Session.Rules.{world}
use digital_ocean_assignment.Db.Sql.{order_by, page_of}
use digital_ocean_assignment.Db.Sql.Laws.{order_by-All, delete-All, delete_rest}
use digital_ocean_assignment.Db.Outbox.{
  oldest_first, pending_events, select_unpublished, get_unpublished_outbox_events_tx,
}
use digital_ocean_assignment.Db.Idempotency.Replay.{Alone}
use digital_ocean_assignment.Service.Poller.{claim_events, claim}
use digital_ocean_assignment.Service.Poller.Marks.{IsPrinted, marked, marked-nil, mark_all-marked}

-- The events of a round: the oldest that are neither published nor locked, up to the limit.
unfoldable pub batch : Env → ℕ → World → List StoreOutboxEvent
batch env limit w =
    page_of limit 0 (order_by oldest_first (pending_events env (suc w.calls) w.db.outbox))

-- An event that a round may take.
abbrev pub IsPending : Env → ℕ → StoreOutboxEvent → Type 0
IsPending env n event = (event.published ≡ false) × (env.locked n event.id ≡ false)

abbrev is_taken : Env → ℕ → StoreOutboxEvent → Bool
is_taken env n event = event.published || env.locked n event.id

abbrev IsFree : Env → ℕ → StoreOutboxEvent → Type 0
IsFree env n event = is_taken env n event ≡ false

pub batch-All :
    (P : StoreOutboxEvent → Type 0) (env : Env) (limit : ℕ) (w : World)
    → All P w.db.outbox
    → All P (batch env limit w)
unfolding batch pending_events
batch-All P env limit w h =
    let taken = is_taken env (suc w.calls) in
    All-take P limit _ (order_by-All P oldest_first _ (delete-All P taken w.db.outbox h))

pub batch-IsPending :
    (env : Env) (limit : ℕ) (w : World) → All (IsPending env (suc w.calls)) (batch env limit w)
unfolding batch pending_events
batch-IsPending env limit w =
    let taken = is_taken env (suc w.calls) in
    All-map (IsFree env (suc w.calls)) (IsPending env (suc w.calls))
      (λ event h. (ground arith, ground arith)) _
      (All-take (IsFree env (suc w.calls)) limit _
        (order_by-All (IsFree env (suc w.calls)) oldest_first _ (delete_rest taken w.db.outbox)))

pub length-batch-le : (env : Env) (limit : ℕ) (w : World) → length (batch env limit w) ≤ limit
unfolding batch
length-batch-le env limit w = length-take-le limit _

module _ (env : Env) where
  -- The calls from the first to this one, less the last, succeed.
  abbrev pub DoneBefore : ℕ → Type 0
  DoneBefore m = (k : ℕ) → k < m → env.fate k ≡ done

  claim_events-done :
      (events : List StoreOutboxEvent) (n : ℕ) (db d : Database)
      → DoneBefore (n + length events)
      → All (IsPrinted env) events
      → env.fate (n + length events) ≡ done
      → claim_events env events (world n db (some d))
        ≡ (ok events, world (suc (n + length events)) (marked env n events d) none)
  unfolding claim_events ◌>>=◌ commit
  claim_events-done [] n db d all_done printed last = ground (arith, last, marked-nil env n d)
  claim_events-done (event ∷ events) n db d all_done printed last =
      ground (arith, last, mark_all-marked env (event ∷ events) n db d all_done printed)

  claim_events-lost :
      (events : List StoreOutboxEvent) (n : ℕ) (db d : Database)
      → DoneBefore (n + length events)
      → All (IsPrinted env) events
      → env.fate (n + length events) ≡ lost
      → claim_events env events (world n db (some d))
        ≡ (err unavailable, world (suc (n + length events)) (marked env n events d) none)
  unfolding claim_events ◌>>=◌ commit
  claim_events-lost [] n db d all_done printed last = ground (arith, last, marked-nil env n d)
  claim_events-lost (event ∷ events) n db d all_done printed last =
      ground (arith, last, mark_all-marked env (event ∷ events) n db d all_done printed)

  module _ (alone : Alone env) (limit : ℕ) (w : World)
      (printed : All (IsPrinted env) w.db.outbox) where
    abbrev events : List StoreOutboxEvent
    events = batch env limit w

    -- The number of the commit.
    abbrev last_call : ℕ
    last_call = suc (suc w.calls) + length events

    pub claim-done :
        DoneBefore last_call
        → env.fate last_call ≡ done
        → claim env (pos limit) w
          ≡ (ok events, world (suc last_call) (marked env (suc (suc w.calls)) events w.db) none)
    unfolding claim begin_tx get_unpublished_outbox_events_tx select_unpublished on_tx ◌>>=◌
        defer_rollback batch
    claim-done all_done last = ground (
      arith,
      all_done w.calls (omega arith),
      all_done (suc w.calls) (omega arith),
      alone w.calls w.db,
      claim_events-done events (suc (suc w.calls)) w.db w.db all_done
          (batch-All (IsPrinted env) env limit w printed) last,
    )

    pub claim-lost :
        DoneBefore last_call
        → env.fate last_call ≡ lost
        → claim env (pos limit) w ≡ (
          err unavailable,
          world (suc last_call) (marked env (suc (suc w.calls)) events w.db) none,
        )
    unfolding claim begin_tx get_unpublished_outbox_events_tx select_unpublished on_tx ◌>>=◌
        defer_rollback batch
    claim-lost all_done last = ground (
      arith,
      all_done w.calls (omega arith),
      all_done (suc w.calls) (omega arith),
      alone w.calls w.db,
      claim_events-lost events (suc (suc w.calls)) w.db w.db all_done
          (batch-All (IsPrinted env) env limit w printed) last,
    )
