-- ===== src/Db/Users.antt =====
-- `CreateUser` and `GetUserByEmail` of db/store.go, over the table of
-- migrations/000001_create_users.up.sql.
use digital_ocean_assignment.Base.{
  String, ◌∷◌, any, not, ◌||◌, ◌==◌, ok, unique_violation, no_rows, require, or_error, ◌>>=◌, ◌>>◌,
}
use digital_ocean_assignment.Db.Rows.{StoreUser}
use digital_ocean_assignment.Db.Session.{Env, Action, Stmt, on_pool}
use digital_ocean_assignment.Db.Sql.{find, text}

-- `email` and `username` are UNIQUE, and `id` is the primary key.
unfoldable pub insert_user : Env → (email username password_hash : String) → Stmt String
insert_user env email username password_hash n db = do
  text env email
  text env username
  text env password_hash
  require (not (any (λ u. u.email == email || u.username == username) db.users)) unique_violation
  let id = env.fresh_id n
  require (not (any (λ u. u.id == id) db.users)) unique_violation
  let row : StoreUser = record {
    id = id;
    email = email;
    username = username;
    password_hash = password_hash;
    created_at = env.now n;
    updated_at = env.now n;
  }
  ok (id, record db { users = row ∷ db.users })

unfoldable pub create_user : Env → (email username password_hash : String) → Action String
create_user env email username password_hash =
    on_pool env (insert_user env email username password_hash)

unfoldable pub select_user : String → Stmt StoreUser
unfolding find
select_user email n db = do
  user ← or_error (find (λ u. u.email == email) db.users) no_rows
  ok (user, db)

unfoldable pub get_user_by_email : Env → String → Action StoreUser
get_user_by_email env email = on_pool env (select_user email)
