-- ===== src/Service/Poller/Interleaved/Rows.antt =====
-- service/outbox_poller.go: what selecting, publishing and taking back rows makes of the ids that
-- the goroutines hold.
use digital_ocean_assignment.Base.{
  ℕ, suc, ◌+◌, ◌≤◌, ◌≡◌, ◌⊎◌, zero, refl, ◌∙◌, String, true, false, Bool-cases, inl, inr, none,
  some, List, arith, All-map,
}
use digital_ocean_assignment.Db.Rows.{StoreOutboxEvent}
use digital_ocean_assignment.Db.Session.{Env}
use digital_ocean_assignment.Db.Session.Rules.{world}
use digital_ocean_assignment.Db.Sql.{update}
use digital_ocean_assignment.Db.Outbox.{is_event, unpublish}
use digital_ocean_assignment.Service.Poller.Marks.{
  status, names, marked, status-update, marked-status,
}
use digital_ocean_assignment.Service.Poller.Claims.{batch, IsPending, batch-IsPending}
use digital_ocean_assignment.Service.Poller.Once.{
  one_if, count, none_named, some_named, batch_once, batch_status,
}
use digital_ocean_assignment.Service.Poller.Once.Ids.{ids-update, count_ids, marked-ids}
use digital_ocean_assignment.Service.Poller.Interleaved.{Desk}
use digital_ocean_assignment.Service.Poller.Interleaved.Counts.{All-count}

-- The tables and the queue, when the goroutines hold an id so many times in open transactions and
-- have it so many times still to be enqueued.
pub record Sound (busy due : String → ℕ) (d : Desk) : Type 0 where
  pub once : (id : String) → count id d.db.outbox ≤ 1
  pub single : (id : String) → busy id + due id + count id d.queued ≤ 1
  pub unset : (id : String) → 1 ≤ busy id → status id d.db ≡ some false
  pub set : (id : String) → 1 ≤ due id + count id d.queued → status id d.db ≡ some true

pub Sound-less :
    {busy due busy' due' : String → ℕ} {d : Desk}
    → ((id : String) → busy' id ≤ busy id)
    → ((id : String) → due' id ≤ due id)
    → Sound busy due d
    → Sound busy' due' d
Sound-less less less' sound = record {
  once = sound.once;
  single = λ id. omega (arith, less id, less' id, sound.single id);
  unset = λ id h. sound.unset id (omega (arith, less id, h));
  set = λ id h. sound.set id (omega (arith, less' id, h));
}

positive : (n : ℕ) → (n ≡ 0) ⊎ (1 ≤ n)
positive zero = inl refl
positive (suc n) = inr (omega arith)

module _ (busy due : String → ℕ) (d : Desk) where
  -- New rows that are not locked are taken.
  pub take_rows :
      (env : Env) (limit k : ℕ)
      → ((id : String) → env.locked (suc k) id ≡ false → busy id ≡ 0)
      → Sound busy due d
      → Sound (λ id. count id (batch env limit (world k d.db none)) + busy id) due d
  take_rows env limit k free sound =
      let w = world k d.db none in
      let rows = batch env limit w in
      let unlocked =
        All-map (IsPending env (suc k)) (λ event. env.locked (suc k) event.id ≡ false)
          (λ event h. h.1) rows (batch-IsPending env limit w) in
      let none_open = λ (id : String) (h : 1 ≤ count id rows).
        free id (All-count (λ i. env.locked (suc k) i ≡ false) id rows unlocked h) in
      let still =
        λ (id : String) (h : 1 ≤ count id rows). batch_status env limit w id (sound.once id) h in
      record {
        once = sound.once;
        single = λ id. elim (positive (count id rows)) [
          | inl absent ↦ omega (arith, absent, sound.single id)
          | inr some_row ↦ elim (positive (due id + count id d.queued)) [
            | inl absent ↦
                omega
                  (arith, absent, none_open id some_row, batch_once env limit w id (sound.once id))
            | inr taken ↦ ground (arith, still id some_row, sound.set id taken)
          ]
        ];
        unset = λ id h. elim (positive (count id rows)) [
          | inl absent ↦ sound.unset id (omega (arith, absent, h))
          | inr some_row ↦ still id some_row
        ];
        set = sound.set;
      }

  -- The held rows of a transaction are published.
  pub publish_rows :
      (env : Env) (k : ℕ) (taken : List StoreOutboxEvent)
      → Sound (λ id. count id taken + busy id) due d
      → Sound busy (λ id. count id taken + due id) (record d { db = marked env k taken d.db })
  publish_rows env k taken sound =
      let after = λ (id : String). marked-status env id taken k d.db in
      record {
        once = λ id. omega (arith, sound.once id, count_ids id _ _ (marked-ids env taken k d.db));
        single = λ id. omega (arith, sound.single id);
        unset = λ id h.
            let absent : count id taken ≡ 0 = omega (arith, h, sound.single id) in
            after id ∙ rw (none_named id taken absent) (sound.unset id (omega (arith, h)));
        set = λ id h. elim (positive (count id taken)) [
          | inl absent ↦
              after id ∙ rw (none_named id taken absent) (sound.set id (omega (arith, absent, h)))
          | inr here ↦
              after id
              ∙ rw (some_named id taken here) (rw (sound.unset id (omega (arith, here))) refl)
        ];
      }

  -- An event that is not enqueued is unpublished.
  pub take_back :
      (event : StoreOutboxEvent) (now : ℕ)
      → Sound busy (λ id. one_if (names id event) + due id) d
      → Sound busy due (record d {
        db = record d.db { outbox = update (is_event event.id) (unpublish now) d.db.outbox };
      })
  take_back event now sound =
      let after = λ (id : String).
        status-update id event.id (unpublish now) false d.db (λ x. refl) (λ x. refl) in
      record {
        once = λ id. omega (
          arith,
          sound.once id,
          count_ids id _ _ (ids-update (is_event event.id) (unpublish now) d.db.outbox (λ x. refl)),
        );
        single = λ id. omega (arith, sound.single id);
        unset = λ id h. elim (Bool-cases (names id event)) [
          | inl this ↦ ground (arith, rw this at (sound.single id), h)
          | inr other ↦ after id ∙ rw other (sound.unset id h)
        ];
        set = λ id h. elim (Bool-cases (names id event)) [
          | inl this ↦ ground (arith, rw this at (sound.single id), h)
          | inr other ↦ after id ∙ rw other (sound.set id (omega (arith, h)))
        ];
      }
