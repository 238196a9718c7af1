-- ===== src/Service/Poller/Drain.antt =====
-- service/outbox_poller.go: the events that wait in the outbox, and how many.
pub mod Turns
use mathlib.Core.Option
use digital_ocean_assignment.Base.{
  ℕ, zero, suc, ◌+◌, ◌≤◌, ◌<◌, ◌≡◌, refl, sym, ap, ◌∙◌, String, Bool, true, false, Bool-cases,
  Option, none, some, inl, inr, List, [], ◌∷◌, ◌==◌, eq_refl, eq_iff, ◌||◌, any, keep, length, take,
  arith, ◌&&◌, not, if◌then◌else◌, leb,
}
use digital_ocean_assignment.Db.Rows.{StoreOutboxEvent, Database}
use digital_ocean_assignment.Db.Session.{Env, Fate, done, World}
use digital_ocean_assignment.Db.Sql.{find, place, order_by, delete}
use digital_ocean_assignment.Db.Outbox.{is_event, oldest_first, pending_events}
use digital_ocean_assignment.Service.Task.{Task}
use digital_ocean_assignment.Service.Poller.Marks.{status, names, claimed_in}
use digital_ocean_assignment.Service.Poller.Claims.{batch}
use digital_ocean_assignment.Service.Poller.Rounds.{fails, failed_in, task_of}
use digital_ocean_assignment.Service.Poller.Once.{count, batch_status}
use digital_ocean_assignment.Service.Poller.Once.Ids.{ids_of}

abbrev pub unset : Option Bool → Bool
unset none = false
unset (some flag) = not flag

-- The ids of the events that are not published.
abbrev pub waiting : Database → List String
waiting db = keep (λ id. unset (status id db)) (ids_of db.outbox)

-- Lengths of selections.
module _ {A : Type 0} (p q : A → Bool) (within : (x : A) → q x ≡ true → p x ≡ true) where
  pub length-keep-le : (xs : List A) → length (keep q xs) ≤ length (keep p xs)
  length-keep-le [] = omega arith
  length-keep-le (x ∷ xs) = ground (arith, within x, length-keep-le xs)

pub length-keep-lt :
    (p q : String → Bool) (i : String) (xs : List String)
    → ((x : String) → q x ≡ true → p x ≡ true)
    → p i ≡ true
    → q i ≡ false
    → any (λ x. x == i) xs ≡ true
    → length (keep q xs) < length (keep p xs)
length-keep-lt p q i [] within yes_p no_q there = ground (arith, there)
length-keep-lt p q i (x ∷ xs) within yes_p no_q there = elim (Bool-cases (x == i)) [
  | inl this ↦
      let same = (eq_iff x i).0 this in
      let yes_x : p x ≡ true = rw same yes_p in
      let no_x : q x ≡ false = rw same no_q in
      rw yes_x (rw no_x (omega (arith, length-keep-le p q within xs)))
  | inr other ↦
      let rest = length-keep-lt p q i xs within yes_p no_q (rw other at there) in
      ground (arith, within x, rest)
]

length-place :
    (x : StoreOutboxEvent) (xs : List StoreOutboxEvent)
    → length (place oldest_first x xs) ≡ suc (length xs)
unfolding place
length-place x [] = refl
length-place x (y ∷ ys) = ground (arith, length-place x ys)

length-order_by : (xs : List StoreOutboxEvent) → length (order_by oldest_first xs) ≡ length xs
unfolding order_by
length-order_by [] = refl
length-order_by (x ∷ xs) = length-place x (order_by oldest_first xs) ∙ ap suc (length-order_by xs)

-- An id whose flag is not set is in the outbox, and its row can be taken if it is not locked.
module _ (id : String) (locked : String → Bool) (free : (i : String) → locked i ≡ false) where
  unset_there :
      (xs : List StoreOutboxEvent)
      → unset (Option.map StoreOutboxEvent.published (find (is_event id) xs)) ≡ true
      → (any (λ i. i == id) (ids_of xs) ≡ true)
        × (1 ≤ length (delete (λ e. e.published || locked e.id) xs))
  unfolding find delete
  unset_there [] h = ground (arith, h)
  unset_there (x ∷ xs) h = elim (Bool-cases (names id x)) [
    | inl this ↦ ground (arith, this, h, free x.id)
    | inr other ↦
        let (there, enough) = unset_there xs (rw other at h) in
        ground (arith, other, there, enough, free x.id)
  ]
