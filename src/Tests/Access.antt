-- ===== src/Tests/Access.antt =====
-- The handlers of the jobs, at concrete requests.
use digital_ocean_assignment.Base.{◌≡◌, ◌≢◌, refl, arith, none, some, eq_iff}
use digital_ocean_assignment.Base.Int.{pos}
use digital_ocean_assignment.Db.Sql.{find}
use digital_ocean_assignment.Service.Token.{LocalClaims}
use digital_ocean_assignment.Handler.Http.{write_json, view, job_view, get_user_id}
use digital_ocean_assignment.Handler.Jobs.{
  create_job_handler, list_jobs_handler, get_job_handler, update_job_handler, delete_job_handler,
}
use digital_ocean_assignment.Handler.Jobs.Access.{get_job_handler_lem}
use digital_ocean_assignment.Handler.Jobs.Spared.{others}
use digital_ocean_assignment.Handler.Jobs.Isolation.{handlers_spare_others}
use digital_ocean_assignment.Tests.Fixtures.{calm, job_one, tables, start}

abbrev pub ada_claims : LocalClaims
ada_claims = record { subject = "ada"; expires_at = 10; issued_at = 0; email = "ada@example.com" }

pub is_user : get_user_id (some ada_claims) ≢ ""
is_user = ground (arith, eq_iff "ada" "")

get_job_handler_lem_example :
    get_job_handler calm (some ada_claims) "one" start
    ≡ write_json 200 "job fetched" (job_view (view job_one)) (record start { calls = 1 })
unfolding find
get_job_handler_lem_example =
    get_job_handler_lem calm (some ada_claims) "one" "one" start (λ n. refl) is_user refl

handlers_spare_others_example :
    let kept = others "ada" tables in
    (others "ada" (create_job_handler calm (λ b. "hash") (some ada_claims) none start).1.db ≡ kept)
    × (others "ada" (list_jobs_handler calm (some ada_claims) (pos 1) (pos 20) start).1.db ≡ kept)
    × (others "ada" (get_job_handler calm (some ada_claims) "one" start).1.db ≡ kept)
    × (others "ada" (update_job_handler calm (some ada_claims) "one" none start).1.db ≡ kept)
    × (others "ada" (delete_job_handler calm (some ada_claims) "one" start).1.db ≡ kept)
handlers_spare_others_example =
    handlers_spare_others calm (λ b. "hash") (some ada_claims) none none (pos 1) (pos 20) "one"
      start (λ n db. refl) (λ n. refl) refl tt
