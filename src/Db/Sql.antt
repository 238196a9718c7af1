-- ===== src/Db/Sql.antt =====
-- The clauses of the statements in db/store.go, over the rows of a table: WHERE, SET, DELETE,
-- ORDER BY, LIMIT and OFFSET, and the reading of a parameter.
pub mod Laws
pub mod Order
use digital_ocean_assignment.Base.{
  ℕ, String, Bool, true, false, Option, none, some, List, [], ◌∷◌, Result, ok, err, invalid_uuid,
  invalid_json, invalid_text, out_of_range, negative_limit, or_error, require, if◌then◌else◌, take,
  drop,
}
use digital_ocean_assignment.Base.Int.{ℤ, pos, negsuc, fits_int4}
use digital_ocean_assignment.Base.Utf8.{Bytes, bytes}
use digital_ocean_assignment.Db.Session.{Env}

module _ {A : Type 0} where
  -- The first row that passes the test, for a `QueryRow` that scans one row.
  unfoldable pub find : (A → Bool) → List A → Option A
  find p [] = none
  find p (x ∷ xs) = if p x then some x else find p xs

  -- UPDATE … SET f WHERE p.
  unfoldable pub update : (A → Bool) → (A → A) → List A → List A
  update p f [] = []
  update p f (x ∷ xs) = (if p x then f x else x) ∷ update p f xs

  -- DELETE … WHERE p.
  unfoldable pub delete : (A → Bool) → List A → List A
  delete p [] = []
  delete p (x ∷ xs) = if p x then delete p xs else x ∷ delete p xs

  -- ORDER BY, by insertion; `before x y` lets `x` stand in front of `y`. SQL leaves the order of
  -- rows that tie open, and here it is that of the table.
  unfoldable pub place : (A → A → Bool) → A → List A → List A
  place before x [] = x ∷ []
  place before x (y ∷ ys) = if before x y then x ∷ y ∷ ys else y ∷ place before x ys

  unfoldable pub order_by : (A → A → Bool) → List A → List A
  unfolding place
  order_by before [] = []
  order_by before (x ∷ xs) = place before x (order_by before xs)

-- LIMIT and OFFSET.
abbrev pub page_of : {A : Type 0} → ℕ → ℕ → List A → List A
page_of limit offset rows = take limit (drop offset rows)

-- A parameter that the statement reads as a `uuid`, an `int`, a `jsonb`, a `text`, a row count.
module _ (env : Env) where
  abbrev pub uuid : String → Result String
  uuid s = or_error (env.uuid_in s) invalid_uuid

  abbrev pub jsonb : Bytes → Result Bytes
  jsonb s = or_error (env.json_in s) invalid_json

  -- A text is stored as it is, if the server takes it: a NUL character is refused.
  unfoldable pub takes_text : String → Bool
  takes_text s = elim (env.text_in (bytes s)) [ none ↦ false | some _ ↦ true ]

  abbrev pub text : String → Result (Unit {0})
  text s = require (takes_text s) invalid_text

  -- A nil slice is NULL.
  abbrev pub nullable_jsonb : Option Bytes → Result (Option Bytes)
  nullable_jsonb none = ok none
  nullable_jsonb (some s) = elim (env.json_in s) [ none ↦ err invalid_json | some v ↦ ok (some v) ]

  abbrev pub nullable_text : Option Bytes → Result (Option Bytes)
  nullable_text none = ok none
  nullable_text (some s) = elim (env.text_in s) [ none ↦ err invalid_text | some v ↦ ok (some v) ]

-- An `int` that is out of range is refused.
abbrev pub int4 : ℤ → Result (Unit {0})
int4 z = require (fits_int4 z) out_of_range

abbrev pub row_count : ℤ → Result ℕ
row_count (pos n) = ok n
row_count (negsuc n) = err negative_limit
