-- ===== src/Service/Idempotency/Total.antt =====
-- service/idempotency.go: values whose leaves can be encoded.
use digital_ocean_assignment.Base.{
  ◌≡◌, refl, String, Bool, true, false, Bool-cases, inl, inr, List, [], ◌∷◌, Result, ok, ◌==◌,
  Option,
}
use digital_ocean_assignment.Base.Utf8.{Bytes}
use digital_ocean_assignment.Db.Sql.{order_by}
use digital_ocean_assignment.Service.Idempotency.{
  Tree, leaf, array, object, Items, no_item, item, Fields, no_field, field, Decoded, Value,
  null_bytes, Encoded, key_le, keys_of, value_of, write_members, write_items, canonicalize_map,
  canonicalize_array, canonical, canonical_items, canonical_fields, canonical_leaf, canonical_json,
  compute_idempotency_hash,
}

abbrev pub IsOk : Result Bytes → Type 0
IsOk r = (bs : Bytes) × (r ≡ ok bs)

abbrev AllOk : Encoded → Type 0
AllOk [] = Unit
AllOk ((k, r) ∷ m) = IsOk r × AllOk m

abbrev ItemsOk : List (Result Bytes) → Type 0
ItemsOk [] = Unit
ItemsOk (r ∷ rs) = IsOk r × ItemsOk rs

value_of-AllOk : (k : String) (m : Encoded) → AllOk m → IsOk (value_of k m)
unfolding value_of
value_of-AllOk k [] h = (null_bytes, refl)
value_of-AllOk k ((k', r) ∷ m) (first, h) = elim (Bool-cases (k' == k)) [
  | inl found ↦ rw found first
  | inr other ↦ rw other (value_of-AllOk k m h)
]

write_members-AllOk :
    (m : Encoded)
    → AllOk m
    → (first : Bool) (keys : List String) → IsOk (write_members m first keys)
unfolding write_members
write_members-AllOk m h first [] = (_, refl)
write_members-AllOk m h first (k ∷ keys) =
    let (v, e) = value_of-AllOk k m h in
    let (more, e') = write_members-AllOk m h false keys in rw e (rw e' (_, refl))

write_items-ItemsOk :
    (first : Bool) (rs : List (Result Bytes)) → ItemsOk rs → IsOk (write_items first rs)
unfolding write_items
write_items-ItemsOk first [] h = (_, refl)
write_items-ItemsOk first (r ∷ rs) ((bs, e), h) =
    let (more, e') = write_items-ItemsOk false rs h in rw e (rw e' (_, refl))

canonicalize_map-AllOk : (m : Encoded) → AllOk m → IsOk (canonicalize_map m)
unfolding canonicalize_map
canonicalize_map-AllOk m h =
    let (bs, e) = write_members-AllOk m h true (order_by key_le (keys_of m)) in rw e (_, refl)

canonicalize_array-ItemsOk : (rs : List (Result Bytes)) → ItemsOk rs → IsOk (canonicalize_array rs)
unfolding canonicalize_array
canonicalize_array-ItemsOk rs h = let (bs, e) = write_items-ItemsOk true rs h in rw e (_, refl)

module _ {A : Type 0} (marshal : A → Result Bytes) where
  -- Every leaf can be encoded.
  unfoldable mutual
    pub Leaves : Tree A → Type 0
    Leaves (leaf a) = IsOk (marshal a)
    Leaves (array xs) = LeavesItems xs
    Leaves (object fs) = LeavesFields fs

    pub LeavesItems : Items A → Type 0
    LeavesItems no_item = Unit
    LeavesItems (item x xs) = Leaves x × LeavesItems xs

    pub LeavesFields : Fields A → Type 0
    LeavesFields no_field = Unit
    LeavesFields (field k x fs) = Leaves x × LeavesFields fs

  mutual
    unfolding canonical Leaves

    canonical-Leaves : (t : Tree A) → Leaves t → IsOk (canonical marshal t)
    canonical-Leaves (leaf a) h = h
    canonical-Leaves (array xs) h = canonicalize_array-ItemsOk _ (canonical_items-Leaves xs h)
    canonical-Leaves (object fs) h = canonicalize_map-AllOk _ (canonical_fields-Leaves fs h)

    canonical_items-Leaves : (xs : Items A) → LeavesItems xs → ItemsOk (canonical_items marshal xs)
    canonical_items-Leaves no_item h = tt
    canonical_items-Leaves (item x xs) (h, hs) =
        (canonical-Leaves x h, canonical_items-Leaves xs hs)

    canonical_fields-Leaves :
        (fs : Fields A) → LeavesFields fs → AllOk (canonical_fields marshal fs)
    canonical_fields-Leaves no_field h = tt
    canonical_fields-Leaves (field k x fs) (h, hs) =
        (canonical-Leaves x h, canonical_fields-Leaves fs hs)

-- A value all of whose leaves can be encoded has a hash, the digest of its canonical form.
pub compute_idempotency_hash-Leaves :
    (unmarshal : Bytes → Option Decoded) (sha256_hex : Bytes → String) (v : Value)
    → Leaves (canonical_leaf unmarshal) v
    → (bs : Bytes) × (canonical_json unmarshal v ≡ ok bs)
      × (compute_idempotency_hash unmarshal sha256_hex v ≡ ok (sha256_hex bs))
unfolding compute_idempotency_hash canonical_json
compute_idempotency_hash-Leaves unmarshal sha256_hex v h =
    let (bs, e) = canonical-Leaves (canonical_leaf unmarshal) v h in (bs, e, rw e refl)
