-- ===== src/Service/Poller/Once.antt =====
-- service/outbox_poller.go: the events of a round and of a table, counted by their ids.
pub mod Ids
use mathlib.Core.Option
use mathlib.Core.List.{reverse, reverse_aux}
use digital_ocean_assignment.Base.{
  ℕ, zero, suc, ◌+◌, ◌≤◌, ◌≡◌, ◌≢◌, refl, sym, ap, ◌∙◌, String, Bool, true, false, Bool-cases, inl,
  inr, none, some, List, [], ◌∷◌, ◌++◌, ◌==◌, map, any, keep, take, drop, arith, if◌then◌else◌,
  ◌&&◌, ◌||◌, All,
}
use digital_ocean_assignment.Db.Rows.{StoreOutboxEvent, Database}
use digital_ocean_assignment.Db.Session.{Env, Fate, lost, World}
use digital_ocean_assignment.Db.Session.Rules.{Fate-cases}
use digital_ocean_assignment.Db.Sql.{find, place, order_by, delete}
use digital_ocean_assignment.Db.Outbox.{is_event, pending_events, oldest_first}
use digital_ocean_assignment.Service.Task.{Task}
use digital_ocean_assignment.Service.Poller.Marks.{status, names, claimed_in}
use digital_ocean_assignment.Service.Poller.Claims.{batch}
use digital_ocean_assignment.Service.Poller.Rounds.{reaches, fails, failed_in, task_of}

abbrev pub one_if : Bool → ℕ
one_if true = 1
one_if false = 0

-- How many of the events have this id.
abbrev pub count : String → List StoreOutboxEvent → ℕ
count id [] = 0
count id (event ∷ events) = one_if (names id event) + count id events

count-place :
    (id : String) (x : StoreOutboxEvent) (xs : List StoreOutboxEvent)
    → count id (place oldest_first x xs) ≡ one_if (names id x) + count id xs
unfolding place
count-place id x [] = refl
count-place id x (y ∷ ys) = elim (Bool-cases (oldest_first x y)) [
  | inl front ↦ rw front refl
  | inr behind ↦ rw behind (omega (arith, count-place id x ys))
]

count-order_by :
    (id : String) (xs : List StoreOutboxEvent) → count id (order_by oldest_first xs) ≡ count id xs
unfolding order_by
count-order_by id [] = refl
count-order_by id (x ∷ xs) =
    count-place id x (order_by oldest_first xs)
    ∙ ap (λ n. one_if (names id x) + n) (count-order_by id xs)

count-take-le :
    (id : String) (n : ℕ) (xs : List StoreOutboxEvent) → count id (take n xs) ≤ count id xs
count-take-le id zero xs = omega arith
count-take-le id (suc n) [] = omega arith
count-take-le id (suc n) (x ∷ xs) = omega (arith, count-take-le id n xs)

count-delete-le :
    (id : String) (p : StoreOutboxEvent → Bool) (xs : List StoreOutboxEvent)
    → count id (delete p xs) ≤ count id xs
unfolding delete
count-delete-le id p [] = omega arith
count-delete-le id p (x ∷ xs) = elim (Bool-cases (p x)) [
  | inl gone ↦ rw gone (omega (arith, count-delete-le id p xs))
  | inr stays ↦ rw stays (omega (arith, count-delete-le id p xs))
]

pub count-keep-le :
    (id : String) (p : StoreOutboxEvent → Bool) (xs : List StoreOutboxEvent)
    → count id (keep p xs) ≤ count id xs
count-keep-le id p [] = omega arith
count-keep-le id p (x ∷ xs) = elim (Bool-cases (p x)) [
  | inl stays ↦ rw stays (omega (arith, count-keep-le id p xs))
  | inr gone ↦ rw gone (omega (arith, count-keep-le id p xs))
]

pub count-reverse_aux :
    (id : String) (xs ys : List StoreOutboxEvent)
    → count id (reverse_aux xs ys) ≡ count id xs + count id ys
count-reverse_aux id [] ys = omega arith
count-reverse_aux id (x ∷ xs) ys = omega (arith, count-reverse_aux id xs (x ∷ ys))

pub none_named :
    (id : String) (xs : List StoreOutboxEvent) → count id xs ≡ 0 → claimed_in xs id ≡ false
none_named id [] h = refl
none_named id (x ∷ xs) h = elim (Bool-cases (names id x)) [
  | inl this ↦ ground (arith, rw this at h)
  | inr other ↦ rw other (none_named id xs (omega (arith, rw other at h)))
]

pub some_named :
    (id : String) (xs : List StoreOutboxEvent) → 1 ≤ count id xs → claimed_in xs id ≡ true
some_named id [] h = ground (arith, h)
some_named id (x ∷ xs) h = elim (Bool-cases (names id x)) [
  | inl this ↦ rw this refl
  | inr other ↦ rw other (some_named id xs (omega (arith, rw other at h)))
]

-- An event that the round may take is the only one of its id, so the id's flag is not set.
pending_status :
    (id : String) (p : StoreOutboxEvent → Bool) (db : Database)
    → ((x : StoreOutboxEvent) → p x ≡ false → x.published ≡ false)
    → count id db.outbox ≤ 1
    → 1 ≤ count id (delete p db.outbox)
    → status id db ≡ some false
unfolding delete find
pending_status id p db free once taken = go db.outbox once taken
  where
    go :
        (xs : List StoreOutboxEvent)
        → count id xs ≤ 1
        → 1 ≤ count id (delete p xs)
        → Option.map StoreOutboxEvent.published (find (is_event id) xs) ≡ some false
    go [] h k = ground (arith, k)
    go (x ∷ xs) h k = elim (Bool-cases (names id x)) [
      | inl this ↦ elim (Bool-cases (p x)) [
        | inl gone ↦ ground (arith, rw this at h, rw gone at k, count-delete-le id p xs)
        | inr stays ↦ rw this (ap some (free x stays))
      ]
      | inr other ↦ elim (Bool-cases (p x)) [
        | inl gone ↦ rw other (go xs (omega (arith, rw other at h)) (rw gone at k))
        | inr stays ↦
            rw other
              (go xs (omega (arith, rw other at h)) (omega (arith, rw other at (rw stays at k))))
      ]
    ]

module _ (env : Env) (limit : ℕ) (w : World) (id : String) (once : count id w.db.outbox ≤ 1) where
  pub batch_once : count id (batch env limit w) ≤ 1
  unfolding batch pending_events
  batch_once =
      let pending = pending_events env (suc w.calls) w.db.outbox in
      omega (
        arith,
        count-take-le id limit (order_by oldest_first pending),
        count-order_by id pending,
        count-delete-le id (λ e. e.published || env.locked (suc w.calls) e.id) w.db.outbox,
        once,
      )

  pub batch_status : 1 ≤ count id (batch env limit w) → status id w.db ≡ some false
  unfolding batch pending_events
  batch_status h =
      let taken = λ (e : StoreOutboxEvent). e.published || env.locked (suc w.calls) e.id in
      let pending = pending_events env (suc w.calls) w.db.outbox in
      pending_status id taken w.db (λ x free. ground (arith, free)) once
        (omega (
          arith,
          count-take-le id limit (order_by oldest_first pending),
          count-order_by id pending,
          h,
        ))
