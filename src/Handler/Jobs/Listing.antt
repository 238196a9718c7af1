-- ===== src/Handler/Jobs/Listing.antt =====
-- GET /jobs: the page that is shown.
use digital_ocean_assignment.Base.{
  ℕ, suc, ◌≡◌, ◌≢◌, ◌≤◌, ◌∙◌, ap, String, Option, Bool, true, false, some, List, map, not, ok, err,
  negative_limit, arith, length, All, All-take, All-drop, All-map, length-take-le, drop,
}
use digital_ocean_assignment.Base.Int.{ℤ, pos, negsuc}
use digital_ocean_assignment.Db.Rows.{StoreJob, Database}
use digital_ocean_assignment.Db.Session.{Env, World, on_pool}
use digital_ocean_assignment.Db.Session.Rules.{world}
use digital_ocean_assignment.Db.Sql.{delete, order_by, page_of}
use digital_ocean_assignment.Db.Sql.Laws.{order_by-All, delete_rest}
use digital_ocean_assignment.Db.Sql.Order.{Ordered, Ordered-page_of}
use digital_ocean_assignment.Db.Jobs.{newest_first, select_jobs, list_jobs_by_user}
use digital_ocean_assignment.Db.Idempotency.Replay.{AllDone}
use digital_ocean_assignment.Service.Token.{LocalClaims}
use digital_ocean_assignment.Handler.Http.{view, empty, job_views, write_json, get_user_id}
use digital_ocean_assignment.Handler.Jobs.{
  at_least_one, listed, offset_of, list_jobs, list_jobs_handler,
}
use digital_ocean_assignment.Handler.Jobs.Access.{known_user}
use digital_ocean_assignment.Handler.Jobs.Spared.{belongs_to}

newest_first_total : (a b : StoreJob) → newest_first a b ≡ false → newest_first b a ≡ true
newest_first_total a b h = ground arith

newest_first_trans :
    (a b c : StoreJob) → newest_first a b ≡ true → newest_first b c ≡ true → newest_first a c ≡ true
newest_first_trans a b c h k = ground arith

-- A page of a user's jobs, the newest first.
pub user_page : (user : String) (count skipped : ℕ) → Database → List StoreJob
user_page user count skipped db =
    page_of count skipped
      (order_by newest_first (delete (λ job. not (belongs_to user job)) db.jobs))

-- The rows that the store answers with, at an offset that it accepts or refuses.
select-page :
    (env : Env) (all_done : AllDone env) (user : String) (count : ℕ) (offset : ℤ) (w : World)
    → env.uuid_in user ≡ some user
    → let seen = env.peers w.calls w.db in
      list_jobs_by_user env user (pos (suc count)) offset w ≡ (elim offset [
        | pos skipped ↦
            (ok (user_page user (suc count) skipped seen), world (suc w.calls) seen w.tx)
        | negsuc _ ↦ (err negative_limit, world (suc w.calls) seen w.tx)
      ])
unfolding list_jobs_by_user on_pool select_jobs user_page
select-page env all_done user count (pos skipped) w read = ground (arith, all_done w.calls, read)
select-page env all_done user count (negsuc n) w read = ground (arith, all_done w.calls, read)

listed-page :
    (env : Env) (all_done : AllDone env) (user : String) (count : ℕ) (offset : ℤ) (w : World)
    → env.uuid_in user ≡ some user
    → let seen = env.peers w.calls w.db in
      listed (list_jobs_by_user env user (pos (suc count)) offset w) ≡ (elim offset [
        | pos skipped ↦
            write_json 200 "jobs listed"
              (job_views (map view (user_page user (suc count) skipped seen)))
              (world (suc w.calls) seen w.tx)
        | negsuc _ ↦ write_json 500 "failed to list jobs" empty (world (suc w.calls) seen w.tx)
      ])
listed-page env all_done user count (pos skipped) w read =
    ap listed (select-page env all_done user count (pos skipped) w read)
listed-page env all_done user count (negsuc n) w read =
    ap listed (select-page env all_done user count (negsuc n) w read)

list_jobs-page :
    (env : Env) (all_done : AllDone env) (user : String) (page page_size : ℤ) (count : ℕ)
    (w : World)
    → env.uuid_in user ≡ some user
    → at_least_one (pos 20) page_size ≡ pos (suc count)
    → let seen = env.peers w.calls w.db in
      list_jobs env page page_size user w
      ≡ (elim (offset_of (at_least_one (pos 1) page) (pos (suc count))) [
        | pos skipped ↦
            write_json 200 "jobs listed"
              (job_views (map view (user_page user (suc count) skipped seen)))
              (world (suc w.calls) seen w.tx)
        | negsuc _ ↦ write_json 500 "failed to list jobs" empty (world (suc w.calls) seen w.tx)
      ])
unfolding list_jobs
list_jobs-page env all_done user page page_size count w read size =
    ap (λ n. listed (list_jobs_by_user env user n (offset_of (at_least_one (pos 1) page) n) w)) size
    ∙ listed-page env all_done user count (offset_of (at_least_one (pos 1) page) (pos (suc count)))
        w read

-- GET /jobs is answered by 200 with the page of the user's jobs that the numbers ask for: all are
-- the user's own, each is as new as those after it, and there are no more than the page size. It is
-- answered by 500 if the offset, which wraps around in 64 bits, comes out negative. The tables stay
-- as they are. The call is assumed to succeed, and the user's id to be as the server prints it.
pub list_jobs_handler_lem :
    (env : Env) (claims : Option LocalClaims) (page page_size : ℤ) (count : ℕ) (w : World)
    → AllDone env
    → get_user_id claims ≢ ""
    → env.uuid_in (get_user_id claims) ≡ some (get_user_id claims)
    → at_least_one (pos 20) page_size ≡ pos (suc count)
    → let user = get_user_id claims in
      let seen = env.peers w.calls w.db in
      let w' = world (suc w.calls) seen w.tx in
      (list_jobs_handler env claims page page_size w
        ≡ (elim (offset_of (at_least_one (pos 1) page) (pos (suc count))) [
          | pos skipped ↦
              write_json 200 "jobs listed"
                (job_views (map view (user_page user (suc count) skipped seen)))
                w'
          | negsuc _ ↦ write_json 500 "failed to list jobs" empty w'
        ]))
      × ((skipped : ℕ)
          → All (λ job. belongs_to user job ≡ true) (user_page user (suc count) skipped seen)
            × Ordered newest_first (user_page user (suc count) skipped seen)
            × (length (user_page user (suc count) skipped seen) ≤ suc count))
unfolding list_jobs_handler user_page
list_jobs_handler_lem env claims page page_size count w all_done known read size =
    let user = get_user_id claims in
    let seen = env.peers w.calls w.db in
    let foreign : StoreJob → Bool = λ job. not (belongs_to user job) in
    let owned = delete foreign seen.jobs in
    (
      known_user claims (list_jobs env page page_size) w known
          ∙ list_jobs-page env all_done user page page_size count w read size,
      λ skipped. (
        All-map (λ job. foreign job ≡ false) (λ job. belongs_to user job ≡ true)
            (λ job h. ground arith) _
            (All-take (λ job. foreign job ≡ false) (suc count) _
              (All-drop (λ job. foreign job ≡ false) skipped _
                (order_by-All (λ job. foreign job ≡ false) newest_first owned
                  (delete_rest foreign seen.jobs)))),
        Ordered-page_of newest_first newest_first_total newest_first_trans (suc count) skipped
            owned,
        length-take-le (suc count) (drop skipped (order_by newest_first owned)),
      ),
    )
