-- ===== src/Db/Rows.antt =====
-- The rows of the four tables, as the structs of db/store.go hold them, and the tables together
-- (migrations/). A `time.Time` is a number of nanoseconds.
use digital_ocean_assignment.Base.{ℕ, String, Bool, Option, List, []}
use digital_ocean_assignment.Base.Int.{ℤ}
use digital_ocean_assignment.Base.Utf8.{Bytes}

pub record StoreUser : Type 0 where
  pub id : String
  pub email : String
  pub username : String
  pub password_hash : String
  pub created_at : ℕ
  pub updated_at : ℕ

-- `payload` and `result` are `jsonb`, so a row holds the server's own spelling of the value; a
-- NULL is `none`.
pub record StoreJob : Type 0 where
  pub id : String
  pub user_id : String
  pub type : String
  pub name : String
  pub webhook_url : String
  pub payload : Bytes
  pub version : ℤ
  pub max_retries : ℤ
  pub timeout_seconds : ℤ
  pub state : String
  pub attempts : ℤ
  pub scheduled_at : ℕ
  pub last_error : Option Bytes
  pub result : Option Bytes
  pub created_at : ℕ
  pub updated_at : ℕ

pub record StoreIdempotencyKey : Type 0 where
  pub id : String
  pub user_id : String
  pub request_hash : String
  pub job_id : Option String
  pub method : String
  pub path : String
  pub status_code : Option ℤ
  pub created_at : ℕ
  pub expires_at : ℕ

-- With the column `published_at`, which the struct leaves out.
pub record StoreOutboxEvent : Type 0 where
  pub id : String
  pub aggregate_type : String
  pub aggregate_id : String
  pub event_type : String
  pub payload : Bytes
  pub published : Bool
  pub published_at : Option ℕ
  pub created_at : ℕ
  pub updated_at : ℕ

pub record StoreCreateJobParams : Type 0 where
  pub user_id : String
  pub type : String
  pub name : String
  pub webhook_url : String
  pub payload : Bytes
  pub max_retries : ℤ
  pub timeout_seconds : ℤ
  pub version : ℤ

pub record StoreCreateOutboxEventParams : Type 0 where
  pub aggregate_type : String
  pub aggregate_id : String
  pub event_type : String
  pub payload : Bytes
  pub published : Bool

-- The newest row of a table stands first.
pub record Database : Type 0 where
  pub users : List StoreUser
  pub jobs : List StoreJob
  pub idempotency_keys : List StoreIdempotencyKey
  pub outbox : List StoreOutboxEvent

abbrev pub empty_database : Database
empty_database = record { users = []; jobs = []; idempotency_keys = []; outbox = [] }
