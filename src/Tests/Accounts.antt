-- ===== src/Tests/Accounts.antt =====
-- A registration and what follows it, at concrete inputs.
use digital_ocean_assignment.Base.{◌≡◌, refl, String, some, none, ◌==◌, eq_refl, arith}
use digital_ocean_assignment.Db.Session.{on_pool}
use digital_ocean_assignment.Db.Sql.{takes_text}
use digital_ocean_assignment.Db.Users.{create_user, insert_user}
use digital_ocean_assignment.Service.Token.{
  Crypto, hash_password, generate_access_token, generate_refresh_token,
}
use digital_ocean_assignment.Handler.Http.{AuthRequest, tokens}
use digital_ocean_assignment.Handler.Users.{register_handler, login_handler}
use digital_ocean_assignment.Handler.Users.Accounts.{ChecksHashed}
use digital_ocean_assignment.Handler.Users.Logins.{register_handler_lem}
use digital_ocean_assignment.Tests.Fixtures.{calm, start}

-- A library that signs everything, and whose hash is the password.
abbrev plain : Crypto
plain = record {
  sign = λ algorithm key claims. some "abc";
  parse = λ now keyfunc token. none;
  hash_password = λ password. some password;
  compare_password = λ hashed password. hashed == password;
}

plain-ChecksHashed : ChecksHashed plain
plain-ChecksHashed password hashed e = ground (arith, e, eq_refl password)

abbrev eve : AuthRequest
eve = record { email = "eve@example.com"; password = "apple"; username = "eve" }

abbrev other_eve : AuthRequest
other_eve = record { email = "eve@example.com"; password = "pear"; username = "" }

eve_created : (register_handler calm plain (λ k. 0) "secret" (some eve) start).0.status ≡ 201
unfolding takes_text register_handler create_user insert_user on_pool hash_password
    generate_access_token generate_refresh_token
eve_created = refl

register_handler_lem_example :
    let (answer, w') = register_handler calm plain (λ k. 0) "secret" (some eve) start in
    let login = login_handler calm plain (λ k. 9000000000) "secret" (some eve) w' in
    let second = register_handler calm plain (λ k. 9000000000) "secret" (some other_eve) w' in
    (id first next access refresh : String) × (answer.content ≡ tokens id first next)
    × (login.0
        ≡ record { status = 200; message = "login successful"; content = tokens id access refresh })
    × (plain.sign "HS256" "secret"
          (record { subject = id; expires_at = 909; issued_at = 9; email = "eve@example.com" })
        ≡ some access)
    × (plain.sign "HS256" "secret"
          (record { subject = id; expires_at = 604809; issued_at = 9; email = "" })
        ≡ some refresh)
    × (login.1.db ≡ w'.db)
    × (second.0.status ≡ 500)
    × (second.1.db ≡ w'.db)
register_handler_lem_example =
    register_handler_lem calm plain (λ k. 0) (λ k. 9000000000) "secret" eve other_eve start
      (λ n. refl) (λ n db. refl) plain-ChecksHashed (λ key claims. ("abc", refl)) eve_created refl
      refl
