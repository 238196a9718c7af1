-- ===== src/Handler/Users/Logins.antt =====
-- handler/routes.go: a login and a second registration behind a registration.
use mathlib.Core.Path.{subst}
use digital_ocean_assignment.Base.{
  ℕ, suc, ◌+◌, ◌*◌, ◌/◌, ap, ◌∙◌, ◌≡◌, refl, sym, String, true, false, Bool-cases, inl, inr, Error,
  invalid_text, Option, none, some, ◌==◌, eq_refl, ok, err, if◌then◌else◌, arith, unique_violation,
}
use digital_ocean_assignment.Db.Rows.{StoreUser}
use digital_ocean_assignment.Db.Session.{Env, World, on_pool}
use digital_ocean_assignment.Db.Session.Rules.{world}
use digital_ocean_assignment.Db.Sql.{find, takes_text}
use digital_ocean_assignment.Db.Users.{insert_user, select_user, create_user, get_user_by_email}
use digital_ocean_assignment.Db.Idempotency.Replay.{AllDone, Alone}
use digital_ocean_assignment.Service.Token.{
  Crypto, Signs, hash_password, compare_password, generate_access_token, generate_refresh_token,
}
use digital_ocean_assignment.Handler.Http.{AuthRequest, tokens, empty, Served, write_json}
use digital_ocean_assignment.Handler.Users.Sessions.{claims_at, Signed}
use digital_ocean_assignment.Handler.Users.{
  access_ttl, refresh_ttl, lacks_credentials, answer_with_tokens, registered, register_handler,
  login_handler,
}
use digital_ocean_assignment.Handler.Users.Accounts.{ChecksHashed, HasRow, register_handler-Stored}

module _ (env : Env) (all_done : AllDone env) (alone : Alone env) where
  get_user_by_email-HasRow :
      (email hashed id : String) (w : World)
      → HasRow email hashed id w.db
      → (user : StoreUser) × (get_user_by_email env email w
          ≡ (ok user, world (suc w.calls) w.db w.tx))
        × (user.id ≡ id)
        × (user.password_hash ≡ hashed)
  unfolding get_user_by_email on_pool select_user find
  get_user_by_email-HasRow email hashed id w stored =
      let first : (stored.row.email == email) ≡ true = rw stored.same_email (eq_refl email) in
      (
        stored.row,
        ground (arith, all_done w.calls, alone w.calls w.db, stored.stored, first),
        stored.same_id,
        stored.same_hash,
      )

  create_user-HasRow :
      (email username hashed other id : String) (w : World)
      → HasRow email other id w.db
      → (e : Error) × (create_user env email username hashed w
          ≡ (err e, world (suc w.calls) w.db w.tx))
  unfolding create_user on_pool insert_user
  create_user-HasRow email username hashed other id w stored =
      let first : (stored.row.email == email) ≡ true = rw stored.same_email (eq_refl email) in
      elim (Bool-cases (takes_text env email)) [
        | inr bad ↦ (invalid_text, ground (arith, all_done w.calls, alone w.calls w.db))
        | inl email_read ↦ elim (Bool-cases (takes_text env username)) [
          | inr bad ↦ (invalid_text, ground (arith, all_done w.calls, alone w.calls w.db))
          | inl username_read ↦ elim (Bool-cases (takes_text env hashed)) [
            | inr bad ↦ (invalid_text, ground (arith, all_done w.calls, alone w.calls w.db))
            | inl hash_read ↦ (
              unique_violation,
              ground (arith, all_done w.calls, alone w.calls w.db, stored.stored, first),
            )
          ]
        ]
      ]

  module _ (lib : Crypto) (at : ℕ → ℕ) (secret : String) (w : World) where
    login_handler-HasRow :
        (req : AuthRequest) (hashed id : String)
        → lacks_credentials req ≡ false
        → lib.compare_password hashed req.password ≡ true
        → HasRow req.email hashed id w.db
        → login_handler env lib at secret (some req) w
          ≡ answer_with_tokens env lib at secret 200 "login successful" "failed to login" id
              req.email
              (world (suc w.calls) w.db w.tx)
    unfolding login_handler compare_password
    login_handler-HasRow req hashed id complete matches stored =
        let (user, found, is_id, is_hash) = get_user_by_email-HasRow req.email hashed id w stored in
        rw complete (rw found (rw is_hash (rw matches (rw is_id refl))))

    register_handler-HasRow :
        (req : AuthRequest) (hashed id : String)
        → lacks_credentials req ≡ false
        → HasRow req.email hashed id w.db
        → ((register_handler env lib at secret (some req) w).0.status ≡ 500)
          × ((register_handler env lib at secret (some req) w).1.db ≡ w.db)
    unfolding register_handler hash_password
    register_handler-HasRow req other id complete stored =
        rw complete (go (lib.hash_password req.password))
      where
        username : String
        username = if req.username == "" then req.email else req.username

        go :
            (hash : Option String)
            → let end : Served = elim hash [
              | none ↦ write_json 500 "failed to create user" empty w
              | some hashed ↦
                  registered env lib at secret req.email
                    (create_user env req.email username hashed w)
            ] in
              (end.0.status ≡ 500) × (end.1.db ≡ w.db)
        go none = (refl, refl)
        go (some hashed) =
            let (e, refused) = create_user-HasRow req.email username hashed other id w stored in
            rw refused (refl, refl)

-- If the library signs, the answer holds the tokens of the two sets of claims.
answer_with_tokens-Signs :
    (env : Env) (lib : Crypto) (at : ℕ → ℕ) (secret : String) (status : ℕ)
    (message failure id email : String) (w : World)
    → Signs lib
    → (access refresh : String) × (answer_with_tokens env lib at secret status message failure id
          email w
        ≡ write_json status message (tokens id access refresh) w)
      × Signed env lib at secret id access refresh email
unfolding generate_access_token generate_refresh_token
answer_with_tokens-Signs env lib at secret status message failure id email w signs =
    let (access, first) = signs secret (claims_at at access_ttl id email) in
    let (refresh, second) = signs secret (claims_at (λ k. at (2 + k)) refresh_ttl id "") in
    (access, refresh, ground (arith, first, second), (first, second))

-- After a registration that is answered by 201, and if the calls of the store succeed and the
-- library signs, a login with the same email and password is answered by 200 with two tokens for the
-- id that the registration showed: an access token for fifteen minutes with this id and the email,
-- and a refresh token for seven days with this id. It changes no table, and a second registration
-- with the email is answered by 500 and changes no table. The hash of a password is assumed to match
-- it, and no other session to be at work.
pub register_handler_lem :
    (env : Env) (lib : Crypto) (at later : ℕ → ℕ) (secret : String) (req again : AuthRequest)
    (w : World)
    → AllDone env
    → Alone env
    → ChecksHashed lib
    → Signs lib
    → (register_handler env lib at secret (some req) w).0.status ≡ 201
    → again.email ≡ req.email
    → lacks_credentials again ≡ false
    → let (answer, w') = register_handler env lib at secret (some req) w in
      let login = login_handler env lib later secret (some req) w' in
      let second = register_handler env lib later secret (some again) w' in
      (id first next access refresh : String) × (answer.content ≡ tokens id first next)
      × (login.0 ≡ record {
        status = 200;
        message = "login successful";
        content = tokens id access refresh;
      })
      × (lib.sign "HS256" secret (record {
        subject = id;
        expires_at = (later 0 + 15 * 60 * 1000000000) / 1000000000;
        issued_at = later 1 / 1000000000;
        email = req.email;
      })
          ≡ some access)
      × (lib.sign "HS256" secret (record {
        subject = id;
        expires_at = (later 2 + 7 * 24 * 3600 * 1000000000) / 1000000000;
        issued_at = later 3 / 1000000000;
        email = "";
      })
          ≡ some refresh)
      × (login.1.db ≡ w'.db)
      × (second.0.status ≡ 500)
      × (second.1.db ≡ w'.db)
register_handler_lem env lib at later secret req again w all_done alone checks signs created
      same_email complete =
    let (given, (hashed, id, first, next, hash_is, content, stored)) =
      register_handler-Stored env lib at secret req w created in
    let w' = (register_handler env lib at secret (some req) w).1 in
    let (refused, kept) =
      register_handler-HasRow env all_done alone lib later secret w' again hashed id complete
        (subst (λ e. HasRow e hashed id w'.db) (sym same_email) stored) in
    let (access, refresh, answered, (signed, signed')) =
      answer_with_tokens-Signs env lib later secret 200 "login successful" "failed to login" id
        req.email (world (suc w'.calls) w'.db w'.tx) signs in
    let served =
      login_handler-HasRow env all_done alone lib later secret w' req hashed id given
        (checks req.password hashed hash_is) stored
      ∙ answered in
    (
      id,
      first,
      next,
      access,
      refresh,
      content,
      ap (λ r. r.0) served,
      signed,
      signed',
      ap (λ r. r.1.db) served,
      refused,
      kept,
    )
