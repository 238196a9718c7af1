-- ===== src/Json/Members.antt =====
-- encoding/json: how the members of an encoded object are told apart.
use digital_ocean_assignment.Base.{ℕ, ◌≡◌, refl, false, String, List, [], ◌∷◌, ◌++◌}
use digital_ocean_assignment.Base.Int.{ℤ}
use digital_ocean_assignment.Base.Utf8.{Bytes}
use digital_ocean_assignment.Base.Strconv.{is_digit}
use digital_ocean_assignment.Json.{
  Member, marshal_string, marshal_int, marshal_members, marshal_object,
}
use digital_ocean_assignment.Json.Strings.{marshal_string_unique}
use digital_ocean_assignment.Json.Integers.{marshal_int_unique}

-- An encoding that ends where no digit follows.
module _ {A : Type 0} where
  abbrev Unique : (A → Bytes) → Type 0
  Unique encode =
      (x y : A) (b : ℕ) (rest rest' : Bytes)
      → is_digit b ≡ false
      → encode x ++ b ∷ rest ≡ encode y ++ b ∷ rest'
      → (x ≡ y) × (rest ≡ rest')

marshal_string-Unique : Unique marshal_string
marshal_string-Unique x y b rest rest' h e =
    let same = marshal_string_unique x y (b ∷ rest) (b ∷ rest') e in (same.0, cc (same.1))

after_key :
    (k : String) (rest rest' : Bytes)
    → marshal_string k ++ b':' ∷ rest ≡ marshal_string k ++ b':' ∷ rest'
    → rest ≡ rest'
after_key k rest rest' e = cc ((marshal_string_unique k k (b':' ∷ rest) (b':' ∷ rest') e).1)

module _ {A : Type 0} (encode : A → Bytes) (unique : Unique encode) (k : String) where
  next_member :
      (x y : A) (m m' : Member) (ms ms' : List Member)
      → marshal_members ((k, encode x) ∷ m ∷ ms) ≡ marshal_members ((k, encode y) ∷ m' ∷ ms')
      → (x ≡ y) × (marshal_members (m ∷ ms) ≡ marshal_members (m' ∷ ms'))
  unfolding marshal_members
  next_member x y m m' ms ms' e = unique x y b',' _ _ refl (after_key k _ _ e)

  last_member :
      (x y : A)
      → marshal_members ((k, encode x) ∷ []) ≡ marshal_members ((k, encode y) ∷ [])
      → x ≡ y
  unfolding marshal_members
  last_member x y e = (unique x y b'}' _ _ refl (after_key k _ _ e)).0

pub next_string :
    (k x y : String) (m m' : Member) (ms ms' : List Member)
    → marshal_members ((k, marshal_string x) ∷ m ∷ ms)
      ≡ marshal_members ((k, marshal_string y) ∷ m' ∷ ms')
    → (x ≡ y) × (marshal_members (m ∷ ms) ≡ marshal_members (m' ∷ ms'))
next_string = next_member marshal_string marshal_string-Unique

pub next_int :
    (k : String) (x y : ℤ) (m m' : Member) (ms ms' : List Member)
    → marshal_members ((k, marshal_int x) ∷ m ∷ ms)
      ≡ marshal_members ((k, marshal_int y) ∷ m' ∷ ms')
    → (x ≡ y) × (marshal_members (m ∷ ms) ≡ marshal_members (m' ∷ ms'))
next_int = next_member marshal_int marshal_int_unique

pub last_string :
    (k x y : String)
    → marshal_members ((k, marshal_string x) ∷ []) ≡ marshal_members ((k, marshal_string y) ∷ [])
    → x ≡ y
last_string = last_member marshal_string marshal_string-Unique

pub last_int :
    (k : String) (x y : ℤ)
    → marshal_members ((k, marshal_int x) ∷ []) ≡ marshal_members ((k, marshal_int y) ∷ [])
    → x ≡ y
last_int = last_member marshal_int marshal_int_unique

pub object_members :
    (ms ms' : List Member)
    → marshal_object ms ≡ marshal_object ms'
    → marshal_members ms ≡ marshal_members ms'
unfolding marshal_object
object_members ms ms' e = cc e
