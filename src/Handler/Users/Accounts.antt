-- ===== src/Handler/Users/Accounts.antt =====
-- handler/routes.go: what a registration leaves for the login and for a second registration.
use mathlib.Core.Path.{subst}
use digital_ocean_assignment.Base.{
  List, Error, ◌+◌, ℕ, ◌≡◌, refl, sym, ap, ◌∙◌, inl, inr, String, true, false, Bool-cases, Option,
  none, some, ◌∷◌, any, ◌==◌, ◌||◌, Result, ok, err, if◌then◌else◌, arith,
}
use digital_ocean_assignment.Db.Rows.{StoreUser, Database}
use digital_ocean_assignment.Db.Session.{Env, World}
use digital_ocean_assignment.Db.Session.Rules.{on_pool-cases}
use digital_ocean_assignment.Db.Users.{insert_user, create_user}
use digital_ocean_assignment.Service.Token.{
  Crypto, hash_password, generate_access_token, generate_refresh_token,
}
use digital_ocean_assignment.Handler.Http.{AuthRequest, tokens, empty, Served, write_json}
use digital_ocean_assignment.Handler.Users.{
  lacks_credentials, registered, register_handler, access_ttl, refresh_ttl,
}

-- Documented behaviour of bcrypt: a password matches its hash.
abbrev pub ChecksHashed : Crypto → Type 0
ChecksHashed lib =
    (password hashed : String)
    → lib.hash_password password ≡ some hashed
    → lib.compare_password hashed password ≡ true

-- The row of a registration stands first in the table of users.
pub record HasRow (email hashed id : String) (d : Database) : Type 0 where
  pub row : StoreUser
  pub rest : List StoreUser
  pub stored : d.users ≡ row ∷ rest
  pub same_id : row.id ≡ id
  pub same_email : row.email ≡ email
  pub same_hash : row.password_hash ≡ hashed

ok_same : {A : Type 0} {a b : A} → ◌≡◌ {A = Result A} (ok a) (ok b) → a ≡ b
ok_same e = cc e

failed_apart : {A P : Type 0} {a : A} {e : Error} → ◌≡◌ {A = Result A} (err e) (ok a) → P
failed_apart e = ground (arith, e)

insert_user-HasRow :
    (env : Env) (email username hashed : String) (n : ℕ) (db d : Database) (id : String)
    → insert_user env email username hashed n db ≡ ok (id, d)
    → HasRow email hashed id d
unfolding insert_user
insert_user-HasRow env email username hashed n db d id e =
    elim (Bool-cases (any (λ u. u.email == email || u.username == username) db.users)) [
      | inl taken ↦ ground arith
      | inr free ↦ elim (Bool-cases (any (λ u. u.id == env.fresh_id n) db.users)) [
        | inl used ↦ ground arith
        | inr new ↦ record {
          row = record {
            id = env.fresh_id n;
            email = email;
            username = username;
            password_hash = hashed;
            created_at = env.now n;
            updated_at = env.now n;
          };
          rest = db.users;
          stored = ground arith;
          same_id = ground arith;
          same_email = refl;
          same_hash = refl;
        }
      ]
    ]

created-HasRow :
    (env : Env) (email username hashed id : String) (w : World)
    → (create_user env email username hashed w).0 ≡ ok id
    → HasRow email hashed id (create_user env email username hashed w).1.db
unfolding create_user
created-HasRow env email username hashed id w h =
    elim (on_pool-cases env (insert_user env email username hashed) w) [
      | inl (a, d, e, q) ↦
          subst (λ r. HasRow email hashed id r.1.db) (sym q)
            (insert_user-HasRow env email username hashed w.calls _ d id
              (e ∙ ap (λ i. ok (i, d)) (ok_same (sym (ap (λ r. r.0) q) ∙ h))))
      | inr (inl (a, d, e, q)) ↦ failed_apart (sym (ap (λ r. r.0) q) ∙ h)
      | inr (inr (e, q, why)) ↦ failed_apart (sym (ap (λ r. r.0) q) ∙ h)
    ]

module _ (env : Env) (lib : Crypto) (at : ℕ → ℕ) (secret : String) where
  -- An answer of 201 is that to a user who was stored.
  registered-created :
      (email : String) (r : Result String × World)
      → (registered env lib at secret email r).0.status ≡ 201
      → (id access refresh : String) × (r.0 ≡ ok id)
        × ((registered env lib at secret email r).0.content ≡ tokens id access refresh)
        × ((registered env lib at secret email r).1 ≡ r.1)
  registered-created email (err e, w) h = ground (arith, h)
  registered-created email (ok id, w) h =
      go (generate_access_token lib at secret id email access_ttl)
        (generate_refresh_token lib (λ k. at (2 + k)) secret id refresh_ttl) h
    where
      go :
          (first second : Option String)
          → let end : Served = elim first [
            | none ↦ write_json 500 "failed to create user" empty w
            | some access ↦ elim second [
              | none ↦ write_json 500 "failed to create user" empty w
              | some refresh ↦ write_json 201 "registration successful" (tokens id access refresh) w
            ]
          ] in
            end.0.status ≡ 201
            → (id' access refresh : String) × (◌≡◌ {A = Result String} (ok id) (ok id'))
              × (end.0.content ≡ tokens id' access refresh)
              × (end.1 ≡ w)
      go none second g = ground (arith, g)
      go (some access) none g = ground (arith, g)
      go (some access) (some refresh) g = (id, access, refresh, refl, refl, refl)

  -- What an answer of 201 says of the password and the tables.
  abbrev pub Stored : AuthRequest → Served → Type 0
  Stored req served =
      (hashed id access refresh : String) × (lib.hash_password req.password ≡ some hashed)
      × (served.0.content ≡ tokens id access refresh)
      × HasRow req.email hashed id served.1.db

  pub register_handler-Stored :
      (req : AuthRequest) (w : World)
      → (register_handler env lib at secret (some req) w).0.status ≡ 201
      → (lacks_credentials req ≡ false)
        × Stored req (register_handler env lib at secret (some req) w)
  unfolding register_handler hash_password
  register_handler-Stored req w h = elim (Bool-cases (lacks_credentials req)) [
    | inl lacking ↦ ground (arith, rw lacking at h)
    | inr complete ↦
        (complete, rw complete (go (lib.hash_password req.password) refl (rw complete at h)))
  ]
    where
      username : String
      username = if req.username == "" then req.email else req.username

      go :
          (hash : Option String)
          → lib.hash_password req.password ≡ hash
          → let end : Served = elim hash [
            | none ↦ write_json 500 "failed to create user" empty w
            | some hashed ↦
                registered env lib at secret req.email (create_user env req.email username hashed w)
          ] in
            end.0.status ≡ 201 → Stored req end
      go none e g = ground (arith, g)
      go (some hashed) e g =
          let call = create_user env req.email username hashed w in
          let (id, access, refresh, made, content, world_is) =
            registered-created req.email call g in
          (
            hashed,
            id,
            access,
            refresh,
            e,
            content,
            subst (λ v. HasRow req.email hashed id v.db) (sym world_is)
                (created-HasRow env req.email username hashed id w made),
          )
