-- ===== src/Handler/Jobs/Paging.antt =====
-- handler/routes.go, GET /jobs: the row that a page begins at.
use digital_ocean_assignment.Base.{ℕ, ◌-◌, ◌*◌, ◌^◌, ◌<◌, ◌≤◌, ◌≡◌, refl, String, arith}
use digital_ocean_assignment.Base.Int.{ℤ, pos, negsuc, wrap64, ◌+ℤ◌, ◌*ℤ◌}
use digital_ocean_assignment.Base.Utf8.{bytes}
use digital_ocean_assignment.Base.Strconv.{atoi}
use digital_ocean_assignment.Json.{marshal_int}
use digital_ocean_assignment.Json.Atoi.{atoi-marshal_int}
use digital_ocean_assignment.Handler.Jobs.{at_least_one, offset_of}

wrap64-small : (n : ℕ) → n < 2 ^ 63 → wrap64 (pos n) ≡ pos n
unfolding wrap64
wrap64-small n h = ground (arith, h)

before_page : (p : ℕ) → 1 ≤ p → (pos p +ℤ negsuc 0) ≡ pos (p - 1)
before_page p h = ground (arith, h)

times_size : (a s : ℕ) → (pos a *ℤ pos s) ≡ pos (a * s)
times_size a s = ground arith

offset_of_exact :
    (p s : ℕ)
    → 1 ≤ p
    → p < 2 ^ 63
    → (p - 1) * s < 2 ^ 63
    → offset_of (pos p) (pos s) ≡ pos ((p - 1) * s)
offset_of_exact p s h small fits = rw (before_page p h) (
    rw (wrap64-small (p - 1) (omega (arith, small)))
      (rw (times_size (p - 1) s) (wrap64-small ((p - 1) * s) fits)))

given : (fallback : ℤ) (p : ℕ) → 1 ≤ p → at_least_one fallback (pos p) ≡ pos p
given fallback p h = ground (arith, h)

-- With the page and the page size of the query written in decimal, at least 1 and below 2^63, the
-- store is asked for that many rows from the exact row (page - 1) * page_size on, if this is below
-- 2^63.
pub offset_of-atoi :
    (page page_size : String) (p s : ℕ)
    → bytes page ≡ marshal_int (pos p)
    → bytes page_size ≡ marshal_int (pos s)
    → 1 ≤ p
    → p < 2 ^ 63
    → 1 ≤ s
    → s < 2 ^ 63
    → (p - 1) * s < 2 ^ 63
    → let size = at_least_one (pos 20) (atoi page_size).0 in
      (size ≡ pos s) × (offset_of (at_least_one (pos 1) (atoi page).0) size ≡ pos ((p - 1) * s))
offset_of-atoi page page_size p s read_p read_s h small h' small' fits =
    rw (atoi-marshal_int page (pos p) small read_p) (
      rw (atoi-marshal_int page_size (pos s) small' read_s) (
        rw (given (pos 20) s h') (rw (given (pos 1) p h) (refl, offset_of_exact p s h small fits))))
