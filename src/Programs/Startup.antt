-- ===== src/Programs/Startup.antt =====
-- When the programs under cmd/ come to serve.
use digital_ocean_assignment.Base.{
  ◌≡◌, refl, ap, ◌∙◌, String, Bool, true, false, Option, none, some, List, [], ◌∷◌, ◌++◌, ◌&&◌,
  ◌||◌, inl, inr, Option-cases, if◌then◌else◌, ◌==◌, not, any, arith,
}
use digital_ocean_assignment.Base.Strconv.{atoi}
use digital_ocean_assignment.Programs.{
  Up, done, no_change, failed, accepted, Event, listening, polling, working, Exit, Machine,
  open_database, migrate_with, after_open, migrate, on_success, with_database, listen, run_api,
}

-- The program has come to serve requests or tasks.
abbrev pub is_service : Event → Bool
is_service (listening port) = true
is_service (working opt concurrency) = true
is_service (polling count limit interval) = true
is_service _ = false

abbrev pub serves : List Event → Bool
serves events = any is_service events

any-append :
    {A : Type 0} (p : A → Bool) (xs ys : List A) → any p ys ≡ false → any p (xs ++ ys) ≡ any p xs
any-append p [] ys h = h
any-append p (x ∷ xs) ys h = ground (arith, any-append p xs ys h)

serves_after : (xs ys : List Event) → serves xs ≡ false → serves (xs ++ ys) ≡ serves ys
serves_after [] ys h = refl
serves_after (x ∷ xs) ys h = ground (arith, h, serves_after xs ys)

serves-on_success :
    (first : List Event × Bool) (message : String) (rest : List Event × Exit)
    → serves first.0 ≡ false
    → serves (on_success first message rest).0 ≡ (first.1 && serves rest.0)
serves-on_success (events, true) message (more, exit) h = serves_after events more h
serves-on_success (events, false) message rest h = h

open_database_quiet :
    (m : Machine) (call : _) (url : String) → serves (open_database m call url).0 ≡ false
unfolding open_database
open_database_quiet m call url = ground arith

after_open_quiet :
    (m : Machine) (path : String) (r : List Event × Bool)
    → serves r.0 ≡ false
    → serves (after_open m path r).0 ≡ false
after_open_quiet m path (events, false) h = h
after_open_quiet m path (events, true) h =
    serves_after events (migrate_with m path).0 h ∙ ground arith

migrate_quiet : (m : Machine) (url : String) → serves (migrate m url).0 ≡ false
unfolding migrate
migrate_quiet m url = go (m.abs "migrations")
  where
    go :
        (path : Option String)
        → let result : List Event × Bool = elim path [
          | none ↦ ([], false)
          | some p ↦ after_open m p (open_database m 0 url)
        ] in
          serves result.0 ≡ false
    go none = refl
    go (some path) = after_open_quiet m path (open_database m 0 url) (open_database_quiet m 0 url)

abbrev pub is_failure : Up → Bool
is_failure failed = true
is_failure _ = false

-- The path of the migrations is found, and they can be read from it.
abbrev pub reads_migrations : Machine → Bool
reads_migrations m = elim (m.abs "migrations") [ none ↦ false | some path ↦ m.new_migration path ]

-- A connection is opened and answers a ping, twice; the first takes the driver of the migrations,
-- which can be read and do not fail.
abbrev pub has_database : Machine → String → Bool
has_database m url =
    m.opens 0 url
    && m.pings 0 url
    && m.with_instance
    && reads_migrations m
    && not (is_failure m.up)
    && m.opens 1 url
    && m.pings 1 url

accepted_lem : (up : Up) → accepted up ≡ not (is_failure up)
accepted_lem done = refl
accepted_lem no_change = refl
accepted_lem failed = refl

has_database_lem :
    (m : Machine) (url : String)
    → ((migrate m url).1 && (open_database m 1 url).1) ≡ has_database m url
unfolding migrate open_database
has_database_lem m url = elim (Option-cases (m.abs "migrations")) [
  | inl lost ↦ ground (arith, lost)
  | inr (path, at) ↦ ground (arith, at, accepted_lem m.up)
]

regroup_and : (a b c : Bool) → (a && (b && c)) ≡ ((a && b) && c)
regroup_and a b c = ground arith

serves-with_database :
    (m : Machine) (url : String) (rest : List Event × Exit)
    → serves (with_database m url rest).0 ≡ (has_database m url && serves rest.0)
serves-with_database m url rest =
    serves-on_success (migrate m url) _ _ (migrate_quiet m url)
    ∙ ap (λ b. (migrate m url).1 && b)
        (serves-on_success (open_database m 1 url) _ rest (open_database_quiet m 1 url))
    ∙ regroup_and (migrate m url).1 (open_database m 1 url).1 (serves rest.0)
    ∙ ap (λ b. b && serves rest.0) (has_database_lem m url)

serves-listen : (m : Machine) → serves (listen m).0 ≡ true
serves-listen m = ground arith

-- A check in front of the rest of a run.
serves-check :
    (b : Bool) (exit : Exit) (rest : List Event × Exit) (c : Bool)
    → serves rest.0 ≡ c
    → serves (if b then ([], exit) else rest).0 ≡ (not b && c)
serves-check true exit rest c h = refl
serves-check false exit rest c h = h

-- The API comes to listen exactly when there is a logger, DATABASE_URL and JWT_SECRET are set, the
-- database can be opened and pinged before and after the migration, the migrations' driver and path
-- are there, and `Up` does not fail.
pub run_api-serves :
    (m : Machine)
    → let url = m.getenv "DATABASE_URL" in
      serves (run_api m).0
      ≡ (m.new_logger && not (url == "") && has_database m url && not (m.getenv "JWT_SECRET" == ""))
unfolding run_api
run_api-serves m =
    let url = m.getenv "DATABASE_URL" in
    let secret = m.getenv "JWT_SECRET" in
    serves-check (not m.new_logger) _ _ _ (
      serves-check (url == "") _ _ _ (
        serves-with_database m url _
        ∙ ap (λ b. has_database m url && b)
            (serves-check (secret == "") _ (listen m) true (serves-listen m))))
    ∙ ground arith

-- Not set, or the text of an integer.
abbrev pub reads_redis_db : String → Bool
reads_redis_db text = text == "" || (atoi text).1

abbrev is_some : {A : Type 0} → Option A → Bool
is_some none = false
is_some (some a) = true
