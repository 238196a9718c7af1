-- ===== src/Tests/Fixtures.antt =====
-- The environments, rows and sessions of the tests.
use digital_ocean_assignment.Base.{ℕ, zero, suc, String, false, none, some, [], ◌∷◌}
use digital_ocean_assignment.Base.Int.{pos}
use digital_ocean_assignment.Base.Utf8.{bytes}
use digital_ocean_assignment.Db.Rows.{
  StoreUser, StoreJob, StoreOutboxEvent, StoreCreateJobParams, Database,
}
use digital_ocean_assignment.Db.Session.{Env, done, World}

abbrev pub id_of : ℕ → String
id_of zero = "id"
id_of (suc n) = String.◌∷◌ "x" (id_of n)

-- Every call succeeds, and every text is accepted as it is.
abbrev pub calm : Env
calm = record {
  fate = λ n. done;
  peers = λ n db. db;
  locked = λ n id. false;
  fresh_id = id_of;
  now = λ n. n;
  uuid_in = λ s. some s;
  json_in = λ s. some s;
  text_in = λ s. some s;
  compact = λ s. some s;
}

abbrev pub ada : StoreUser
ada = record {
  id = "ada";
  email = "ada@example.com";
  username = "ada";
  password_hash = "hash";
  created_at = 0;
  updated_at = 0;
}

abbrev pub job_one : StoreJob
job_one = record {
  id = "one";
  user_id = "ada";
  type = "email";
  name = "welcome";
  webhook_url = "http://webhook:9000/echo";
  payload = bytes "{}";
  version = pos 1;
  max_retries = pos 2;
  timeout_seconds = pos 30;
  state = "pending";
  attempts = pos 0;
  scheduled_at = 0;
  last_error = none;
  result = none;
  created_at = 0;
  updated_at = 0;
}

abbrev pub event_one : StoreOutboxEvent
event_one = record {
  id = "event";
  aggregate_type = "job";
  aggregate_id = "one";
  event_type = "job_created";
  payload = bytes "{}";
  published = false;
  published_at = none;
  created_at = 0;
  updated_at = 0;
}

abbrev pub tables : Database
tables = record {
  users = ada ∷ [];
  jobs = job_one ∷ [];
  idempotency_keys = [];
  outbox = event_one ∷ [];
}

abbrev pub start : World
start = record { calls = 0; db = tables; tx = none }

abbrev pub params_two : StoreCreateJobParams
params_two = record {
  user_id = "ada";
  type = "sms";
  name = "reminder";
  webhook_url = "http://webhook:9000/echo";
  payload = bytes "{}";
  max_retries = pos 5;
  timeout_seconds = pos 0;
  version = pos 1;
}
