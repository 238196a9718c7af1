-- ===== src/Handler/Users/Invariant.antt =====
-- The handlers of the users keep the invariant of the tables.
use digital_ocean_assignment.Base.{
  ℕ, ◌+◌, ◌==◌, String, Option, none, some, Result, ok, err, if◌then◌else◌, Bool-cases, inl, inr,
}
use digital_ocean_assignment.Db.Rows.{StoreUser}
use digital_ocean_assignment.Db.Session.{Env, World}
use digital_ocean_assignment.Db.Users.{create_user, get_user_by_email}
use digital_ocean_assignment.Db.Valid.Statements.{insert_user-Keeps, select_user-Keeps}
use digital_ocean_assignment.Db.Valid.Programs.{PeersKeep, IsSound, run, on_pool-Preserves}
use digital_ocean_assignment.Service.Token.{
  Crypto, hash_password, compare_password, generate_access_token, generate_refresh_token,
}
use digital_ocean_assignment.Handler.Http.{AuthRequest, Served, write_json, empty, tokens}
use digital_ocean_assignment.Handler.Users.{
  lacks_credentials, answer_with_tokens, registered, logged_in, register_handler, login_handler,
  access_ttl, refresh_ttl,
}

module _ (env : Env) (lib : Crypto) (at : ℕ → ℕ) (secret : String) (P : World → Type 0) where
  -- The answer with the tokens makes no call of the store.
  answer_world :
      (status : ℕ) (message failure user_id email : String) (w : World)
      → P w
      → P (answer_with_tokens env lib at secret status message failure user_id email w).1
  answer_world status message failure user_id email w h =
      go (generate_access_token lib at secret user_id email access_ttl)
        (generate_refresh_token lib (λ k. at (2 + k)) secret user_id refresh_ttl)
    where
      go :
          (first second : Option String)
          → let end : Served = elim first [
            | none ↦ write_json 500 failure empty w
            | some access ↦ elim second [
              | none ↦ write_json 500 failure empty w
              | some refresh ↦ write_json status message (tokens user_id access refresh) w
            ]
          ] in
            P end.1
      go none second = h
      go (some access) none = h
      go (some access) (some refresh) = h

  registered_world :
      (email : String) (r : Result String × World)
      → P r.1
      → P (registered env lib at secret email r).1
  registered_world email (err e, w) h = h
  registered_world email (ok id, w) h =
      answer_world 201 "registration successful" "failed to create user" id email w h

  logged_in_world :
      (req : AuthRequest) (r : Result StoreUser × World)
      → P r.1
      → P (logged_in env lib at secret req r).1
  logged_in_world req (err e, w) h = h
  logged_in_world req (ok user, w) h =
      elim (Bool-cases (compare_password lib user.password_hash req.password)) [
        | inl right ↦
            rw right (answer_world 200 "login successful" "failed to login" user.id req.email w h)
        | inr wrong ↦ rw wrong h
      ]

  -- What holds before the handler and after its call of the store holds after the handler.
  pub register_handler_world :
      (req : Option AuthRequest) (w : World)
      → P w
      → ((email username hash : String) → P (create_user env email username hash w).1)
      → P (register_handler env lib at secret req w).1
  unfolding register_handler
  register_handler_world none w h call = h
  register_handler_world (some req) w h call = elim (Bool-cases (lacks_credentials req)) [
    | inl lacking ↦ rw lacking h
    | inr complete ↦ rw complete (go (hash_password lib req.password))
  ]
    where
      username : String
      username = if req.username == "" then req.email else req.username

      go :
          (hash : Option String)
          → let end : Served = elim hash [
            | none ↦ write_json 500 "failed to create user" empty w
            | some hashed ↦
                registered env lib at secret req.email (create_user env req.email username hashed w)
          ] in
            P end.1
      go none = h
      go (some hashed) = registered_world req.email _ (call req.email username hashed)

  pub login_handler_world :
      (req : Option AuthRequest) (w : World)
      → P w
      → ((email : String) → P (get_user_by_email env email w).1)
      → P (login_handler env lib at secret req w).1
  unfolding login_handler
  login_handler_world none w h call = h
  login_handler_world (some req) w h call = elim (Bool-cases (lacks_credentials req)) [
    | inl lacking ↦ rw lacking h
    | inr complete ↦ rw complete (logged_in_world req _ (call req.email))
  ]

module _ (env : Env) (lib : Crypto) (at : ℕ → ℕ) (secret : String) (peers : PeersKeep env) where
  pub register_handler-IsSound :
      (req : Option AuthRequest) (w : World)
      → IsSound w
      → IsSound (register_handler env lib at secret req w).1
  unfolding create_user
  register_handler-IsSound req w sound =
      register_handler_world env lib at secret IsSound req w sound (λ email username hash.
        run _ (on_pool-Preserves env peers _ (insert_user-Keeps env email username hash)) w sound)

  pub login_handler-IsSound :
      (req : Option AuthRequest) (w : World)
      → IsSound w
      → IsSound (login_handler env lib at secret req w).1
  unfolding get_user_by_email
  login_handler-IsSound req w sound =
      login_handler_world env lib at secret IsSound req w sound
        (λ email. run _ (on_pool-Preserves env peers _ (select_user-Keeps email)) w sound)
