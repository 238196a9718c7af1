-- ===== src/Db/Outbox.antt =====
-- The methods of db/store.go on the outbox (migrations/000004).
use digital_ocean_assignment.Base.{
  ℕ, String, Bool, true, false, none, some, List, ◌∷◌, ◌||◌, ◌==◌, ok, unique_violation, require,
  any, not, leb, ◌>>=◌, ◌>>◌,
}
use digital_ocean_assignment.Base.Int.{ℤ}
use digital_ocean_assignment.Base.Utf8.{Bytes}
use digital_ocean_assignment.Db.Rows.{StoreOutboxEvent, StoreCreateOutboxEventParams}
use digital_ocean_assignment.Db.Session.{Env, Action, Stmt, on_pool, on_tx}
use digital_ocean_assignment.Db.Sql.{update, delete, order_by, page_of, uuid, jsonb, row_count}

abbrev pub is_event : String → StoreOutboxEvent → Bool
is_event id event = event.id == id

-- ORDER BY created_at ASC.
abbrev pub oldest_first : StoreOutboxEvent → StoreOutboxEvent → Bool
oldest_first a b = leb a.created_at b.created_at

-- The rows of `WHERE published = false … SKIP LOCKED`.
unfoldable pub pending_events : Env → ℕ → List StoreOutboxEvent → List StoreOutboxEvent
unfolding delete
pending_events env n outbox = delete (λ event. event.published || env.locked n event.id) outbox

unfoldable pub select_unpublished : Env → ℤ → Stmt (List StoreOutboxEvent)
select_unpublished env limit n db = do
  count ← row_count limit
  ok (page_of count 0 (order_by oldest_first (pending_events env n db.outbox)), db)

unfoldable pub get_unpublished_outbox_events_tx : Env → ℤ → Action (List StoreOutboxEvent)
get_unpublished_outbox_events_tx env limit = on_tx env (select_unpublished env limit)

-- SET published = true, published_at = now(), updated_at = now().
abbrev pub publish : ℕ → StoreOutboxEvent → StoreOutboxEvent
publish now event = record event { published = true; published_at = some now; updated_at = now }

unfoldable pub mark_published : Env → String → Stmt (Unit {0})
mark_published env outbox_id n db = do
  id ← uuid env outbox_id
  ok (tt, record db { outbox = update (is_event id) (publish (env.now n)) db.outbox })

unfoldable pub mark_outbox_event_published_tx : Env → String → Action (Unit {0})
mark_outbox_event_published_tx env outbox_id = on_tx env (mark_published env outbox_id)

-- SET published = false, updated_at = now().
abbrev pub unpublish : ℕ → StoreOutboxEvent → StoreOutboxEvent
unpublish now event = record event { published = false; updated_at = now }

unfoldable pub mark_unpublished : Env → String → Stmt (Unit {0})
mark_unpublished env outbox_id n db = do
  id ← uuid env outbox_id
  ok (tt, record db { outbox = update (is_event id) (unpublish (env.now n)) db.outbox })

unfoldable pub mark_outbox_event_unpublished : Env → String → Action (Unit {0})
mark_outbox_event_unpublished env outbox_id = on_pool env (mark_unpublished env outbox_id)

abbrev pub new_event :
    StoreCreateOutboxEventParams → (id aggregate : String) → Bytes → ℕ → StoreOutboxEvent
new_event params id aggregate payload now = record {
  id = id;
  aggregate_type = params.aggregate_type;
  aggregate_id = aggregate;
  event_type = params.event_type;
  payload = payload;
  published = params.published;
  published_at = none;
  created_at = now;
  updated_at = now;
}

unfoldable pub insert_event : Env → StoreCreateOutboxEventParams → Stmt String
insert_event env params n db = do
  aggregate ← uuid env params.aggregate_id
  payload ← jsonb env params.payload
  let id = env.fresh_id n
  require (not (any (λ event. event.id == id) db.outbox)) unique_violation
  ok (id, record db { outbox = new_event params id aggregate payload (env.now n) ∷ db.outbox })

unfoldable pub create_outbox_event_tx : Env → StoreCreateOutboxEventParams → Action String
create_outbox_event_tx env params = on_tx env (insert_event env params)

unfoldable pub create_outbox_event : Env → StoreCreateOutboxEventParams → Action String
create_outbox_event env params = on_pool env (insert_event env params)
