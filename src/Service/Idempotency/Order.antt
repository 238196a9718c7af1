-- ===== src/Service/Idempotency/Order.antt =====
-- service/idempotency.go: values that differ in the order of members.
use digital_ocean_assignment.Base.{
  ◌≡◌, ◌≢◌, refl, ap, ◌∙◌, String, Bool, true, false, Option, List, [], ◌∷◌, Result, arith, eq_iff,
  ℕ, some,
}
use digital_ocean_assignment.Base.Utf8.{Bytes}
use digital_ocean_assignment.Db.Sql.{order_by}
use digital_ocean_assignment.Service.Idempotency.{
  Tree, leaf, array, object, Items, no_item, item, Fields, no_field, field, Decoded, Value, Leaf,
  Encoded, key_le, keys_of, value_of, write_members, canonicalize_map, canonicalize_array,
  canonical, canonical_items, canonical_fields, canonical_leaf, marshal_scalar, raw_message,
  canonical_json, compute_idempotency_hash,
}
use digital_ocean_assignment.Service.Idempotency.Keys.{order_by-swap, order_by-cons}

-- Two trees that differ in the order of the members of their maps, at any depth, and in leaves
-- that are related.
mutual
  pub data Same {A : Type 0} (R : A → A → Type 0) : Tree A → Tree A → Type 0 where
    leaves : {a b : A} → R a b → Same R (leaf a) (leaf b)
    arrays : {xs ys : Items A} → SameItems R xs ys → Same R (array xs) (array ys)
    objects : {fs gs : Fields A} → SameFields R fs gs → Same R (object fs) (object gs)

  pub data SameItems {A : Type 0} (R : A → A → Type 0) : Items A → Items A → Type 0 where
    no_items : SameItems R no_item no_item
    items :
        {x y : Tree A} {xs ys : Items A}
        → Same R x y
        → SameItems R xs ys
        → SameItems R (item x xs) (item y ys)

  pub data SameFields {A : Type 0} (R : A → A → Type 0) : Fields A → Fields A → Type 0 where
    no_fields : SameFields R no_field no_field
    fields :
        (k : String) {x y : Tree A} {fs gs : Fields A}
        → Same R x y
        → SameFields R fs gs
        → SameFields R (field k x fs) (field k y gs)
    swapped :
        (k l : String) (x y : Tree A) (fs : Fields A)
        → k ≢ l
        → SameFields R (field k x (field l y fs)) (field l y (field k x fs))
    chained : {fs gs hs : Fields A} → SameFields R fs gs → SameFields R gs hs → SameFields R fs hs

-- Two encoded maps that hold the same values and whose keys sort alike.
abbrev Alike : Encoded → Encoded → Type 0
Alike m m' =
    (order_by key_le (keys_of m) ≡ order_by key_le (keys_of m'))
    × ((k : String) → value_of k m ≡ value_of k m')

write_members-Alike :
    (m m' : Encoded)
    → ((k : String) → value_of k m ≡ value_of k m')
    → (first : Bool) (keys : List String) → write_members m first keys ≡ write_members m' first keys
unfolding write_members
write_members-Alike m m' h first [] = refl
write_members-Alike m m' h first (k ∷ keys) =
    rw (h k) (rw (write_members-Alike m m' h false keys) refl)

canonicalize_map-Alike : (m m' : Encoded) → Alike m m' → canonicalize_map m ≡ canonicalize_map m'
unfolding canonicalize_map
canonicalize_map-Alike m m' (sorted, values) =
    rw sorted (rw (write_members-Alike m m' values true (order_by key_le (keys_of m'))) refl)

Alike-cons :
    (k : String) (v : Result Bytes) (m m' : Encoded) → Alike m m' → Alike ((k, v) ∷ m) ((k, v) ∷ m')
unfolding value_of
Alike-cons k v m m' (sorted, values) =
    (order_by-cons k (keys_of m) (keys_of m') sorted, λ l. rw (values l) refl)

Alike-swap :
    (k l : String) (v w : Result Bytes) (m : Encoded)
    → k ≢ l
    → Alike ((k, v) ∷ (l, w) ∷ m) ((l, w) ∷ (k, v) ∷ m)
unfolding value_of
Alike-swap k l v w m differ =
    (order_by-swap k l (keys_of m), λ j. ground (arith, differ, eq_iff k j, eq_iff l j))

module _ {A : Type 0} (R : A → A → Type 0) (marshal : A → Result Bytes)
    (agree : (a b : A) → R a b → marshal a ≡ marshal b) where
  mutual
    unfolding canonical

    canonical-Same : {t u : Tree A} → Same R t u → canonical marshal t ≡ canonical marshal u
    canonical-Same (leaves {a} {b} r) = agree a b r
    canonical-Same (arrays h) = ap canonicalize_array (canonical_items-Same h)
    canonical-Same (objects h) = canonicalize_map-Alike _ _ (canonical_fields-Same h)

    canonical_items-Same :
        {xs ys : Items A}
        → SameItems R xs ys
        → canonical_items marshal xs ≡ canonical_items marshal ys
    canonical_items-Same no_items = refl
    canonical_items-Same (items h hs) = rw (canonical-Same h) (rw (canonical_items-Same hs) refl)

    canonical_fields-Same :
        {fs gs : Fields A}
        → SameFields R fs gs
        → Alike (canonical_fields marshal fs) (canonical_fields marshal gs)
    canonical_fields-Same no_fields = (refl, λ k. refl)
    canonical_fields-Same (fields k {x} {y} {fs} {gs} h hs) =
        rw (canonical-Same h) (Alike-cons k (canonical marshal y) _ _ (canonical_fields-Same hs))
    canonical_fields-Same (swapped k l x y fs differ) = Alike-swap k l _ _ _ differ
    canonical_fields-Same (chained h hs) =
        let a = canonical_fields-Same h in
        let b = canonical_fields-Same hs in (a.0 ∙ b.0, λ k. a.1 k ∙ b.1 k)

-- Two decoded values that differ in the order of members.
abbrev pub SameDecoded : Decoded → Decoded → Type 0
SameDecoded = Same (λ a b. a ≡ b)

canonical_decoded :
    (d d' : Decoded) → SameDecoded d d' → canonical marshal_scalar d ≡ canonical marshal_scalar d'
canonical_decoded d d' h =
    canonical-Same (λ a b. a ≡ b) marshal_scalar (λ a b e. ap marshal_scalar e) h

module _ (unmarshal : Bytes → Option Decoded) where
  -- The same leaf, or two raw messages that are read as values that differ in the order of members.
  pub data SameLeaf : Leaf → Leaf → Type 0 where
    same : (a : Leaf) → SameLeaf a a
    read :
        (b b' : ℕ) (bs bs' : Bytes) (d d' : Decoded)
        → unmarshal (b ∷ bs) ≡ some d
        → unmarshal (b' ∷ bs') ≡ some d'
        → SameDecoded d d'
        → SameLeaf (raw_message (b ∷ bs)) (raw_message (b' ∷ bs'))

  canonical_leaf-SameLeaf :
      (a a' : Leaf) → SameLeaf a a' → canonical_leaf unmarshal a ≡ canonical_leaf unmarshal a'
  unfolding canonical_leaf
  canonical_leaf-SameLeaf _ _ (same a) = refl
  canonical_leaf-SameLeaf _ _ (read b b' bs bs' d d' e e' h) =
      rw (e, canonical_leaf) (rw (e', canonical_leaf) (canonical_decoded d d' h))

  -- The hash does not depend on the order of the members of the maps, at any depth, nor on the
  -- order in which a raw message writes them.
  pub compute_idempotency_hash-Same :
      (sha256_hex : Bytes → String) (v v' : Value)
      → Same SameLeaf v v'
      → compute_idempotency_hash unmarshal sha256_hex v
        ≡ compute_idempotency_hash unmarshal sha256_hex v'
  unfolding compute_idempotency_hash canonical_json
  compute_idempotency_hash-Same sha256_hex v v' h =
      rw (canonical-Same SameLeaf (canonical_leaf unmarshal) canonical_leaf-SameLeaf h) refl
