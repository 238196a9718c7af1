-- ===== src/Service/Poller/Marks.antt =====
-- The two loops of `pollOnce` over the claimed events, when the calls that they make succeed.
use mathlib.Core.Option
use digital_ocean_assignment.Base.{
  ℕ, suc, ◌+◌, ◌<◌, ◌≡◌, refl, ap, ◌∙◌, String, Bool, true, false, Option, none, some, List, [],
  ◌∷◌, ◌==◌, ok, arith, length, All, any, Bool-cases, inl, inr, if◌then◌else◌, eq_iff, eq_refl,
  Option-cases,
}
use digital_ocean_assignment.Db.Rows.{StoreOutboxEvent, Database}
use digital_ocean_assignment.Db.Session.{Env, done, on_tx, ◌>>=◌}
use digital_ocean_assignment.Db.Session.Rules.{world}
use digital_ocean_assignment.Db.Sql.{find, update}
use digital_ocean_assignment.Db.Sql.Laws.{find-update, find_test}
use digital_ocean_assignment.Db.Outbox.{
  is_event, publish, mark_published, mark_outbox_event_published_tx,
}
use digital_ocean_assignment.Service.Poller.{mark_all}

-- Whether the event of this id is published, if there is one.
abbrev pub status : String → Database → Option Bool
status id db = Option.map StoreOutboxEvent.published (find (is_event id) db.outbox)

abbrev pub names : String → StoreOutboxEvent → Bool
names id event = event.id == id

module _ (env : Env) where
  abbrev pub IsPrinted : StoreOutboxEvent → Type 0
  IsPrinted event = env.uuid_in event.id ≡ some event.id

  -- The tables after the events have been marked, from the number of the first call.
  unfoldable pub marked : ℕ → List StoreOutboxEvent → Database → Database
  marked n [] db = db
  marked n (event ∷ events) db =
      marked (suc n) events
        (record db { outbox = update (is_event event.id) (publish (env.now n)) db.outbox })

  pub marked-nil : (n : ℕ) (db : Database) → marked n [] db ≡ db
  unfolding marked
  marked-nil n db = refl

  pub mark_all-marked :
      (events : List StoreOutboxEvent) (n : ℕ) (db d : Database)
      → ((k : ℕ) → k < n + length events → env.fate k ≡ done)
      → All IsPrinted events
      → mark_all env events (world n db (some d))
        ≡ (ok tt, world (n + length events) db (some (marked n events d)))
  unfolding mark_all marked mark_outbox_event_published_tx on_tx ◌>>=◌ mark_published
  mark_all-marked [] n db d all_done printed = ground arith
  mark_all-marked (event ∷ events) n db d all_done (printed, rest) = ground (
    arith,
    all_done n (omega arith),
    printed,
    mark_all-marked events (suc n) db
        (record d { outbox = update (is_event event.id) (publish (env.now n)) d.outbox })
        (λ k h. all_done k (omega arith)) rest,
  )

-- The flag, if there is one, after it is set under a condition.
abbrev pub flagged : Bool → Bool → Option Bool → Option Bool
flagged hit flag old = if hit then Option.map (λ _. flag) old else old

pub flagged_twice :
    (a b flag : Bool) (old : Option Bool)
    → flagged b flag (flagged a flag old) ≡ flagged (if a then true else b) flag old
flagged_twice true true flag none = refl
flagged_twice true true flag (some _) = refl
flagged_twice true false flag old = refl
flagged_twice false b flag old = refl

-- An assignment to the row of one event changes the flag of that event only.
pub status-update :
    (id other : String) (f : StoreOutboxEvent → StoreOutboxEvent) (flag : Bool) (db : Database)
    → ((x : StoreOutboxEvent) → (f x).id ≡ x.id)
    → ((x : StoreOutboxEvent) → (f x).published ≡ flag)
    → status id (record db { outbox = update (is_event other) f db.outbox })
      ≡ flagged (other == id) flag (status id db)
status-update id other f flag db same set =
    let moved = find-update (is_event id) (is_event other) f db.outbox (λ x. rw (same x) refl) in
    elim (Option-cases (find (is_event id) db.outbox)) [
      | inl missing ↦ ground (arith, moved)
      | inr (x, found) ↦
          let at : x.id ≡ id = (eq_iff x.id id).0 (find_test (is_event id) db.outbox found) in
          elim (Bool-cases (other == id)) [
            | inl hit ↦ ground (arith, moved, set x, at, eq_iff other id, eq_refl id)
            | inr miss ↦ ground (arith, moved, at, eq_iff other id, eq_iff id other)
          ]
    ]

-- Whether one of the events has this id.
abbrev pub claimed_in : List StoreOutboxEvent → String → Bool
claimed_in events id = any (names id) events

pub marked-status :
    (env : Env) (id : String) (events : List StoreOutboxEvent) (n : ℕ) (db : Database)
    → status id (marked env n events db) ≡ flagged (claimed_in events id) true (status id db)
unfolding marked
marked-status env id [] n db = refl
marked-status env id (event ∷ events) n db =
    marked-status env id events (suc n)
      (record db { outbox = update (is_event event.id) (publish (env.now n)) db.outbox })
    ∙ ap (flagged (claimed_in events id) true)
        (status-update id event.id (publish (env.now n)) true db (λ x. refl) (λ x. refl))
    ∙ flagged_twice (names id event) (claimed_in events id) true (status id db)
