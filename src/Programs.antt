-- ===== src/Programs.antt =====
-- The set-up of the programs: db/open.go, db/migrate.go, cmd/main.go, cmd/worker/main.go and
-- cmd/webhook/main.go. What they call of other libraries is a parameter, and a run is the list of
-- what it does.
pub mod Startup
use digital_ocean_assignment.Base.{
  ℕ, ◌*◌, String, Bool, true, false, Option, none, some, List, [], ◌∷◌, ◌++◌, if◌then◌else◌, ◌==◌,
  not,
}
use digital_ocean_assignment.Base.Int.{ℤ, pos}
use digital_ocean_assignment.Base.Utf8.{Bytes}
use digital_ocean_assignment.Base.Strconv.{atoi}
use digital_ocean_assignment.Json.{marshal_string, marshal_object}

pub record RedisClientOpt : Type 0 where
  pub addr : String
  pub password : String
  pub db : ℤ

-- What a run does, in order. `migrated` is the call of `Up`, whatever it answers. `checked_out` is
-- the `sql.Conn` that `postgres.WithInstance` takes from the database: only `Close` of the migrator
-- gives it back, and no program calls that.
pub data Event : Type 0 where
  opened closed checked_out migrated client_opened client_closed : Event
  listening : (port : String) → Event
  polling : (count limit interval : ℕ) → Event
  working : RedisClientOpt → (concurrency : ℕ) → Event

-- Whether a call returns a nil error.
pub data Up : Type 0 where
  done no_change failed : Up

-- The libraries and the machine. `opens` and `pings` are given the number of the call.
pub record Machine : Type 0 where
  pub getenv : String → String
  pub new_logger : Bool
  pub abs : String → Option String
  pub opens : ℕ → String → Bool
  pub pings : ℕ → String → Bool
  pub with_instance : Bool
  pub new_migration : (source : String) → Bool
  pub up : Up
  pub runs : RedisClientOpt → Bool

-- `OpenDatabase`: whether it returns a connection.
unfoldable pub open_database : Machine → (call : ℕ) → (url : String) → List Event × Bool
open_database m call url =
    if not (m.opens call url)
    then ([], false)
    else if not (m.pings call url)
    then (opened ∷ closed ∷ [], false)
    else (opened ∷ [], true)

-- `err != nil && err != migrate.ErrNoChange`, negated.
abbrev pub accepted : Up → Bool
accepted done = true
accepted no_change = true
accepted failed = false

-- The part of `Migrate` behind the opened connection: the deferred call closes it.
abbrev pub migrate_with : Machine → (path : String) → List Event × Bool
migrate_with m path =
    if not m.with_instance
    then (closed ∷ [], false)
    else if not (m.new_migration path)
    then (checked_out ∷ closed ∷ [], false)
    else (checked_out ∷ migrated ∷ closed ∷ [], accepted m.up)

abbrev pub after_open : Machine → String → List Event × Bool → List Event × Bool
after_open m path (events, false) = (events, false)
after_open m path (events, true) =
    let (more, result) = migrate_with m path in (events ++ more, result)

-- `Migrate`: whether it returns a nil error. Its connection is the first that is opened. The
-- source is the path of the migrations, without the `file://` in front.
unfoldable pub migrate : Machine → (url : String) → List Event × Bool
unfolding open_database
migrate m url = elim (m.abs "migrations") [
  | none ↦ ([], false)
  | some path ↦ after_open m path (open_database m 0 url)
]

-- How a run ends. `logger.Fatal` ends the process, so that no deferred call is made.
pub data Exit : Type 0 where
  panicked returned : Exit
  fatal : (message : String) → Exit

-- The second part of the run follows the first one's success.
abbrev pub on_success : List Event × Bool → String → List Event × Exit → List Event × Exit
on_success (events, true) message (more, exit) = (events ++ more, exit)
on_success (events, false) message rest = (events, fatal message)

-- The part of both programs that both begin with, in front of `rest`.
abbrev pub with_database : Machine → (url : String) → List Event × Exit → List Event × Exit
with_database m url rest =
    on_success (migrate m url) "database migration failed"
      (on_success (open_database m 1 url) "failed to open database" rest)

abbrev pub port_of : Machine → String
port_of m = if m.getenv "PORT" == "" then "8000" else m.getenv "PORT"

-- `http.ListenAndServe` only returns with an error.
abbrev pub listen : Machine → List Event × Exit
listen m = (listening (port_of m) ∷ [], fatal "server failed")

-- cmd/main.go.
unfoldable pub run_api : Machine → List Event × Exit
unfolding migrate open_database
run_api m =
    if not m.new_logger
    then ([], panicked)
    else let url = m.getenv "DATABASE_URL" in
      if url == ""
      then ([], fatal "DATABASE_URL is required")
      else with_database m url
          (if m.getenv "JWT_SECRET" == "" then ([], fatal "JWT_SECRET is required") else listen m)

-- REDIS_DB, or none if it is no integer.
abbrev pub redis_db : String → Option ℤ
redis_db text =
    if text == "" then some (pos 0) else if (atoi text).1 then some (atoi text).0 else none

abbrev pub second : ℕ
second = 1000000000

-- The queue's client and server, and the pollers in front of the server's run.
abbrev pub work : Machine → RedisClientOpt → List Event × Exit
work m opt =
    let start = client_opened ∷ polling 2 10 (5 * second) ∷ working opt 10 ∷ [] in
    if not (m.runs opt)
    then (start, fatal "asynq server failed")
    else (start ++ client_closed ∷ closed ∷ [], returned)

-- cmd/worker/main.go.
unfoldable pub run_worker : Machine → List Event × Exit
unfolding migrate open_database
run_worker m =
    if not m.new_logger
    then ([], panicked)
    else let url = m.getenv "DATABASE_URL" in
      if url == ""
      then ([], fatal "DATABASE_URL is required")
      else let addr = m.getenv "REDIS_ADDR" in
        if addr == ""
        then ([], fatal "REDIS_ADDR is required")
        else elim (redis_db (m.getenv "REDIS_DB")) [
          | none ↦ ([], fatal "REDIS_DB must be an integer")
          | some db ↦
              with_database m url
                (work m (record { addr = addr; password = m.getenv "REDIS_PASSWORD"; db = db }))
        ]

-- The answer of cmd/webhook/main.go to a request at /echo: `Encode` ends its text with a newline.
-- The body is only logged.
unfoldable pub echo : (body : Bytes) → (content_type : String) × Bytes
unfolding marshal_object marshal_string
echo body =
    ("application/json", marshal_object (("status", marshal_string "ok") ∷ []) ++ b'\n' ∷ [])
