-- ===== src/Service/Idempotency/Keys.antt =====
-- sort.Strings on the keys of a map.
use digital_ocean_assignment.Base.{◌≡◌, refl, ap, true, false, String, List, [], ◌∷◌, arith}
use digital_ocean_assignment.Base.Utf8.{Bytes, bytes}
use digital_ocean_assignment.Base.Utf8.Reading.{bytes_injective}
use digital_ocean_assignment.Db.Sql.{place, order_by}
use digital_ocean_assignment.Service.Idempotency.{bytes_le, key_le}

bytes_le_total : (xs ys : Bytes) → bytes_le xs ys ≡ false → bytes_le ys xs ≡ true
unfolding bytes_le
bytes_le_total [] ys h = ground (arith, h)
bytes_le_total (x ∷ xs) [] h = refl
bytes_le_total (x ∷ xs) (y ∷ ys) h = ground (arith, h, bytes_le_total xs ys)

bytes_le_antisym : (xs ys : Bytes) → bytes_le xs ys ≡ true → bytes_le ys xs ≡ true → xs ≡ ys
unfolding bytes_le
bytes_le_antisym [] [] h k = refl
bytes_le_antisym [] (y ∷ ys) h k = ground (arith, k)
bytes_le_antisym (x ∷ xs) [] h k = ground (arith, h)
bytes_le_antisym (x ∷ xs) (y ∷ ys) h k = ground (arith, h, k, bytes_le_antisym xs ys)

bytes_le_trans :
    (xs ys zs : Bytes) → bytes_le xs ys ≡ true → bytes_le ys zs ≡ true → bytes_le xs zs ≡ true
unfolding bytes_le
bytes_le_trans [] ys zs h k = refl
bytes_le_trans (x ∷ xs) [] zs h k = ground (arith, h)
bytes_le_trans (x ∷ xs) (y ∷ ys) [] h k = ground (arith, k)
bytes_le_trans (x ∷ xs) (y ∷ ys) (z ∷ zs) h k = ground (arith, h, k, bytes_le_trans xs ys zs)

pub key_le_total : (s t : String) → key_le s t ≡ false → key_le t s ≡ true
unfolding key_le
key_le_total s t = bytes_le_total (bytes s) (bytes t)

key_le_antisym : (s t : String) → key_le s t ≡ true → key_le t s ≡ true → s ≡ t
unfolding key_le
key_le_antisym s t h k = bytes_injective s t (bytes_le_antisym (bytes s) (bytes t) h k)

pub key_le_trans : (s t u : String) → key_le s t ≡ true → key_le t u ≡ true → key_le s u ≡ true
unfolding key_le
key_le_trans s t u = bytes_le_trans (bytes s) (bytes t) (bytes u)

-- Two keys that are placed one after the other.
place-place :
    (s t : String) (keys : List String)
    → place key_le s (place key_le t keys) ≡ place key_le t (place key_le s keys)
unfolding place
place-place s t [] = ground (arith, key_le_total s t, key_le_total t s, key_le_antisym s t)
place-place s t (k ∷ keys) = ground (
  arith,
  place-place s t keys,
  key_le_total s t,
  key_le_antisym s t,
  key_le_trans s t k,
  key_le_trans t s k,
)

pub order_by-swap :
    (s t : String) (keys : List String)
    → order_by key_le (s ∷ t ∷ keys) ≡ order_by key_le (t ∷ s ∷ keys)
unfolding order_by
order_by-swap s t keys = place-place s t (order_by key_le keys)

pub order_by-cons :
    (k : String) (keys keys' : List String)
    → order_by key_le keys ≡ order_by key_le keys'
    → order_by key_le (k ∷ keys) ≡ order_by key_le (k ∷ keys')
unfolding order_by
order_by-cons k keys keys' e = ap (place key_le k) e
