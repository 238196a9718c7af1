-- ===== src/Service/Idempotency.antt =====
-- service/idempotency.go. An `interface{}` is a tree whose leaves are the values that are neither
-- an array nor a map; a map is its members in the order in which `range` meets them.
pub mod Keys
pub mod Order
pub mod Total
use digital_ocean_assignment.Base.{
  ℕ, String, Bool, true, false, Option, none, some, List, [], ◌∷◌, ◌++◌, Result, ok, err,
  invalid_json, unsupported_value, ◌>>=◌, ltb, if◌then◌else◌, ◌==◌, map,
}
use digital_ocean_assignment.Base.Utf8.{Bytes, bytes}
use digital_ocean_assignment.Json.{marshal_string}
use digital_ocean_assignment.Db.Sql.{order_by}
use digital_ocean_assignment.Service.JobPayload.{JobPayload, marshal_payload}

mutual
  pub data Tree (A : Type 0) : Type 0 where
    leaf : A → Tree A
    array : Items A → Tree A
    object : Fields A → Tree A

  pub data Items (A : Type 0) : Type 0 where
    no_item : Items A
    item : Tree A → Items A → Items A

  pub data Fields (A : Type 0) : Type 0 where
    no_field : Fields A
    field : String → Tree A → Fields A → Fields A

-- A finite number is given by the literal that `Marshal` writes for it; `not_finite` is an
-- infinity or a NaN.
pub data Scalar : Type 0 where
  null not_finite : Scalar
  boolean : Bool → Scalar
  number : Bytes → Scalar
  text : String → Scalar

pub data Leaf : Type 0 where
  scalar : Scalar → Leaf
  payload : JobPayload → Leaf
  raw_message : Bytes → Leaf

-- What `json.Unmarshal` into an `interface{}` makes holds no `json.RawMessage`.
abbrev pub Decoded : Type 0
Decoded = Tree Scalar

abbrev pub Value : Type 0
Value = Tree Leaf

abbrev pub null_bytes : Bytes
null_bytes = b'n' ∷ b'u' ∷ b'l' ∷ b'l' ∷ []

unfoldable pub marshal_scalar : Scalar → Result Bytes
marshal_scalar null = ok null_bytes
marshal_scalar not_finite = err unsupported_value
marshal_scalar (boolean true) = ok (b't' ∷ b'r' ∷ b'u' ∷ b'e' ∷ [])
marshal_scalar (boolean false) = ok (b'f' ∷ b'a' ∷ b'l' ∷ b's' ∷ b'e' ∷ [])
marshal_scalar (number literal) = ok literal
marshal_scalar (text s) = ok (marshal_string s)

-- `<=` of two strings compares their bytes.
unfoldable pub bytes_le : Bytes → Bytes → Bool
bytes_le [] ys = true
bytes_le (x ∷ xs) [] = false
bytes_le (x ∷ xs) (y ∷ ys) =
    let rest = bytes_le xs ys in if ltb x y then true else if ltb y x then false else rest

unfoldable pub key_le : String → String → Bool
unfolding bytes_le
key_le s t = bytes_le (bytes s) (bytes t)

-- The value of a key, encoded; a key that is missing has the value nil.
abbrev pub Encoded : Type 0
Encoded = List (String × Result Bytes)

unfoldable pub value_of : String → Encoded → Result Bytes
value_of k [] = ok null_bytes
value_of k ((k', v) ∷ more) = if k' == k then v else value_of k more

abbrev pub comma : Bool → Bytes → Bytes
comma first bs = if first then bs else b',' ∷ bs

-- The loop over the sorted keys, and the closing brace.
unfoldable pub write_members : Encoded → (first : Bool) → (keys : List String) → Result Bytes
unfolding value_of
write_members m first [] = ok (b'}' ∷ [])
write_members m first (k ∷ keys) = do
  v ← value_of k m
  more ← write_members m false keys
  ok (comma first (marshal_string k ++ b':' ∷ (v ++ more)))

abbrev pub keys_of : Encoded → List String
keys_of m = map (λ f. f.0) m

unfoldable pub canonicalize_map : Encoded → Result Bytes
unfolding write_members key_le
canonicalize_map m = do
  members ← write_members m true (order_by key_le (keys_of m))
  ok (b'{' ∷ members)

-- The loop over the items, and the closing bracket.
unfoldable pub write_items : (first : Bool) → (items : List (Result Bytes)) → Result Bytes
write_items first [] = ok (b']' ∷ [])
write_items first (v ∷ items) = do
  bs ← v
  more ← write_items false items
  ok (comma first (bs ++ more))

unfoldable pub canonicalize_array : List (Result Bytes) → Result Bytes
unfolding write_items
canonicalize_array items = do bs ← write_items true items; ok (b'[' ∷ bs)

-- The calls of `CanonicalJSON` on the parts are values here; the loops use them in their order.
unfoldable mutual
  unfolding canonicalize_map canonicalize_array

  pub canonical : {A : Type 0} → (A → Result Bytes) → Tree A → Result Bytes
  canonical marshal (leaf a) = marshal a
  canonical marshal (array xs) = canonicalize_array (canonical_items marshal xs)
  canonical marshal (object fs) = canonicalize_map (canonical_fields marshal fs)

  pub canonical_items : {A : Type 0} → (A → Result Bytes) → Items A → List (Result Bytes)
  canonical_items marshal no_item = []
  canonical_items marshal (item x xs) = canonical marshal x ∷ canonical_items marshal xs

  pub canonical_fields : {A : Type 0} → (A → Result Bytes) → Fields A → Encoded
  canonical_fields marshal no_field = []
  canonical_fields marshal (field k x fs) = (k, canonical marshal x) ∷ canonical_fields marshal fs

-- The reader of encoding/json is a parameter.
unfoldable pub canonical_leaf : (Bytes → Option Decoded) → Leaf → Result Bytes
unfolding canonical marshal_scalar
canonical_leaf unmarshal (scalar s) = marshal_scalar s
canonical_leaf unmarshal (payload p) = ok (marshal_payload p)
canonical_leaf unmarshal (raw_message []) = ok null_bytes
canonical_leaf unmarshal (raw_message (b ∷ bs)) = elim (unmarshal (b ∷ bs)) [
  | none ↦ err invalid_json
  | some decoded ↦ canonical marshal_scalar decoded
]

unfoldable pub canonical_json : (Bytes → Option Decoded) → Value → Result Bytes
unfolding canonical_leaf
canonical_json unmarshal value = canonical (canonical_leaf unmarshal) value

-- `sha256_hex` is the digest of crypto/sha256, in hexadecimal.
unfoldable pub compute_idempotency_hash :
    (Bytes → Option Decoded) → (Bytes → String) → Value → Result String
unfolding canonical_json
compute_idempotency_hash unmarshal sha256_hex value = do
  canonical ← canonical_json unmarshal value
  ok (sha256_hex canonical)

-- `JobPayload.CanonicalJSON` of service/job_payload.go.
unfoldable pub payload_canonical_json : (Bytes → Option Decoded) → JobPayload → Result Bytes
unfolding canonical_json
payload_canonical_json unmarshal p = canonical_json unmarshal (leaf (payload p))
