-- ===== src/Service/Poller/Drain/Turns.antt =====
-- service/outbox_poller.go: the events that wait while the pollers take their turns.
use mathlib.Core.Path.{subst}
use digital_ocean_assignment.Base.{
  ℕ, zero, suc, ◌-◌, ◌≤◌, ◌<◌, ◌≡◌, refl, sym, ap, ◌∙◌, String, Bool, true, false, Bool-cases,
  Option, none, some, inl, inr, List, [], ◌∷◌, ◌==◌, eq_refl, any, keep, length, take, arith, ◌&&◌,
  not, leb, All,
}
use digital_ocean_assignment.Base.Int.{pos}
use digital_ocean_assignment.Db.Rows.{StoreOutboxEvent}
use digital_ocean_assignment.Db.Session.{Env, Fate, done}
use digital_ocean_assignment.Db.Sql.{order_by}
use digital_ocean_assignment.Db.Outbox.{oldest_first, pending_events}
use digital_ocean_assignment.Db.Idempotency.Replay.{AllDone, Alone}
use digital_ocean_assignment.Service.Task.{Task}
use digital_ocean_assignment.Service.Poller.{Polling, poll_once}
use digital_ocean_assignment.Service.Poller.Loop.{
  ticked, Turn, Pollers, is_active, numbers, take_turn, take_turns, start_outbox_pollers,
}
use digital_ocean_assignment.Service.Poller.Loop.Stops.{is_active-numbers}
use digital_ocean_assignment.Service.Poller.Marks.{IsPrinted, status, flagged, claimed_in}
use digital_ocean_assignment.Service.Poller.Claims.{batch}
use digital_ocean_assignment.Service.Poller.Rounds.{failed_in, task_of, poll_once_round}
use digital_ocean_assignment.Service.Poller.Once.{count, batch_status}
use digital_ocean_assignment.Service.Poller.Once.Ids.{
  ids_of, count_ids, IsPrinted-ids, poll_once-ids,
}
use digital_ocean_assignment.Service.Poller.Drain.{
  unset, waiting, length-keep-le, length-keep-lt, length-order_by, unset_there,
}

-- The queue takes every task and says so.
abbrev pub Accepts : (Task → Fate) → Type 0
Accepts redis = (task : Task) → redis task ≡ done

none_refused :
    (redis : Task → Fate)
    → Accepts redis
    → (id : String) (xs : List StoreOutboxEvent) → failed_in redis xs id ≡ false
none_refused redis accepts id [] = refl
none_refused redis accepts id (x ∷ xs) =
    ground (arith, accepts (task_of x), none_refused redis accepts id xs)

unset-flagged :
    (hit : Bool) (old : Option Bool)
    → unset (flagged false false (flagged hit true old)) ≡ (unset old && not hit)
unset-flagged true none = refl
unset-flagged true (some flag) = ground arith
unset-flagged false none = refl
unset-flagged false (some flag) = ground arith

both_true : (a b : Bool) → (a && b) ≡ true → a ≡ true
both_true a b h = ground (arith, h)

no_more : (a : Bool) → (a && not true) ≡ false
no_more a = ground arith

some_kept :
    {A : Type 0} (p : A → Bool) (xs : List A) → 1 ≤ length (keep p xs) → (x : A) × (p x ≡ true)
some_kept p [] h = ground (arith, h)
some_kept p (x ∷ xs) h = elim (Bool-cases (p x)) [
  | inl yes_x ↦ (x, yes_x)
  | inr no_x ↦ some_kept p xs (rw no_x at h)
]

some_first :
    {A : Type 0} (n : ℕ) (xs : List A)
    → 1 ≤ n
    → 1 ≤ length xs
    → (x : A) × (rest : List A) × (take n xs ≡ x ∷ rest)
some_first zero xs h k = ground (arith, h)
some_first (suc n) [] h k = ground (arith, k)
some_first (suc n) (x ∷ xs) h k = (x, take n xs, refl)

-- The turn of a poller that is not cancelled and whose queue takes every task.
abbrev pub Ready : ℕ → Turn → Type 0
Ready pollers turn = (turn.wake ≡ ticked) × (turn.poller < pollers) × Accepts turn.redis

module _ (env : Env) (all_done : AllDone env) (alone : Alone env)
    (unlocked : (n : ℕ) (id : String) → env.locked n id ≡ false) (limit : ℕ)
    (some_limit : 1 ≤ limit) where
  module _ (s : Polling) (apart : (id : String) → count id s.world.db.outbox ≤ 1) where
    abbrev events : List StoreOutboxEvent
    events = batch env limit s.world

    -- A round takes an event while one waits.
    one_taken :
        1 ≤ length (waiting s.world.db)
        → (id : String) × (unset (status id s.world.db) ≡ true)
          × (claimed_in events id ≡ true)
          × (any (λ i. i == id) (ids_of s.world.db.outbox) ≡ true)
    unfolding batch pending_events
    one_taken h =
        let (j, waits) =
          some_kept (λ id. unset (status id s.world.db)) (ids_of s.world.db.outbox) h in
        let pending = pending_events env (suc s.world.calls) s.world.db.outbox in
        let locked = env.locked (suc s.world.calls) in
        let free = unlocked (suc s.world.calls) in
        let (_, enough) = unset_there j locked free s.world.db.outbox waits in
        let (x, rest, first) =
          some_first limit (order_by oldest_first pending) some_limit
            (omega (arith, length-order_by pending, enough)) in
        let named : claimed_in events x.id ≡ true = rw first (rw (eq_refl x.id) refl) in
        let counted : 1 ≤ count x.id events = rw first (rw (eq_refl x.id) (omega arith)) in
        let flag = batch_status env limit s.world x.id (apart x.id) counted in
        let waits_x : unset (status x.id s.world.db) ≡ true = rw flag refl in
        let (there, _) = unset_there x.id locked free s.world.db.outbox waits_x in
        (x.id, waits_x, named, there)

    module _ (redis : Task → Fate) (accepts : Accepts redis)
        (printed : All (IsPrinted env) s.world.db.outbox) where
      abbrev after : Polling
      after = (poll_once env redis (pos limit) s).1

      unset_after :
          (id : String)
          → unset (status id after.world.db)
            ≡ (unset (status id s.world.db) && not (claimed_in events id))
      unset_after id =
          ap unset ((poll_once_round env redis limit s all_done alone printed).3 id)
          ∙ rw (none_refused redis accepts id events)
              (unset-flagged (claimed_in events id) (status id s.world.db))

      pub fewer_waiting : length (waiting after.world.db) ≤ length (waiting s.world.db) - 1
      fewer_waiting =
          let p = λ (id : String). unset (status id s.world.db) in
          let q = λ (id : String). unset (status id after.world.db) in
          let ids = ids_of s.world.db.outbox in
          let within : (x : String) → q x ≡ true → p x ≡ true =
            λ x h. both_true (p x) (not (claimed_in events x)) (sym (unset_after x) ∙ h) in
          let same_ids : waiting after.world.db ≡ keep q ids =
            ap (keep q) (poll_once-ids env all_done alone redis limit s printed) in
          elim (Bool-cases (leb 1 (length (waiting s.world.db)))) [
            | inl some_wait ↦
                let (i, waits, taken, there) = one_taken (ground (arith, some_wait)) in
                let gone : q i ≡ false = unset_after i ∙ rw taken (no_more (p i)) in
                rw same_ids (omega (arith, length-keep-lt p q i ids within waits gone there))
            | inr nothing ↦
                let zero_left : length (waiting s.world.db) ≡ 0 = ground (arith, nothing) in
                rw same_ids (omega (arith, length-keep-le p q within ids, zero_left))
          ]

  module _ (pollers : ℕ) where
    abbrev AllActive : List ℕ → Type 0
    AllActive active = (i : ℕ) → i < pollers → is_active i active ≡ true

    take_turn-Ready :
        (turn : Turn) (s : Pollers)
        → Ready pollers turn
        → AllActive s.active
        → take_turn env (pos limit) turn s ≡ record {
          polling = (poll_once env turn.redis (pos limit) s.polling).1;
          active = s.active;
        }
    unfolding take_turn
    take_turn-Ready turn s (wake, small, accepts) active =
        let busy = active turn.poller small in rw busy (rw wake refl)

    turns_drain :
        (turns : List Turn) (s : Pollers)
        → All (Ready pollers) turns
        → AllActive s.active
        → ((id : String) → count id s.polling.world.db.outbox ≤ 1)
        → All (IsPrinted env) s.polling.world.db.outbox
        → length (waiting (take_turns env (pos limit) turns s).polling.world.db)
          ≤ length (waiting s.polling.world.db) - length turns
    unfolding take_turns
    turns_drain [] s ready active apart printed = omega arith
    turns_drain (turn ∷ turns) s (first, rest) active apart printed =
        let same = poll_once-ids env all_done alone turn.redis limit s.polling printed in
        let next : Pollers = record {
          polling = (poll_once env turn.redis (pos limit) s.polling).1;
          active = s.active;
        } in
        let later =
          turns_drain turns next rest active (λ id. rw (count_ids id _ _ same) (apart id))
            (IsPrinted-ids env _ _ (sym same) printed) in
        let moved =
          ap (λ v. length (waiting (take_turns env (pos limit) turns v).polling.world.db))
            (take_turn-Ready turn s first active) in
        let fewer = fewer_waiting s.polling apart turn.redis first.2 printed in
        let left : length (waiting next.polling.world.db) - length turns
            ≤ length (waiting s.polling.world.db) - suc (length turns) =
          omega (arith, fewer) in
        subst (λ n. n ≤ length (waiting s.polling.world.db) - suc (length turns)) (sym moved)
          (omega (arith, later, left))

no_waiting : (xs : List String) → length xs ≤ 0 → xs ≡ []
no_waiting [] h = refl
no_waiting (x ∷ xs) h = ground (arith, h)

-- If the pollers, which are not cancelled, take at least as many turns as there are unpublished
-- events, all events are published in the end, however the turns alternate: the calls of the store
-- succeed, the queue takes every task, no row is locked, and a round takes at least one event. The
-- ids in the outbox are assumed to be different, and as the server prints them, and no other
-- session to be at work.
pub start_outbox_pollers_drain :
    (env : Env) (limit pollers : ℕ) (turns : List Turn) (polling : Polling)
    → AllDone env
    → Alone env
    → ((n : ℕ) (id : String) → env.locked n id ≡ false)
    → 1 ≤ limit
    → All (Ready pollers) turns
    → ((id : String) → count id polling.world.db.outbox ≤ 1)
    → All (IsPrinted env) polling.world.db.outbox
    → length (waiting polling.world.db) ≤ length turns
    → waiting (start_outbox_pollers env (pos limit) pollers turns polling).polling.world.db ≡ []
unfolding start_outbox_pollers
start_outbox_pollers_drain env limit pollers turns polling all_done alone unlocked some_limit ready
      apart printed enough =
    no_waiting _ (
      omega (
        arith,
        enough,
        turns_drain env all_done alone unlocked limit some_limit pollers turns
            (record { polling = polling; active = numbers pollers }) ready
            (λ i h. is_active-numbers i pollers h) apart printed,
      ))
