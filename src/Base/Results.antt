-- ===== src/Base/Results.antt =====
-- Errors as values: what a call of the database can answer instead of a result.
use mathlib.Core.Path.{◌≡◌, refl}
use mathlib.Core.Logic.{◌⊎◌, inl, inr}
use mathlib.Core.Bool.{Bool, true, false}
use mathlib.Core.Option.{Option, none, some}

-- `no_rows` is `sql.ErrNoRows`. `unavailable` stands for every failure of the server or of the
-- connection that the values of the call do not decide. `unsupported_value` is an error of
-- encoding/json.
pub data Error : Type 0 where
  no_rows unavailable no_transaction : Error
  invalid_uuid invalid_json invalid_text out_of_range null_value : Error
  unique_violation foreign_key_violation negative_limit : Error
  unsupported_value : Error

pub data Result (A : Type 0) : Type 0 where
  ok : A → Result A
  err : Error → Result A

module _ {A : Type 0} where
  pub Result-cases : (r : Result A) → ((a : A) × (r ≡ ok a)) ⊎ ((e : Error) × (r ≡ err e))
  Result-cases (ok a) = inl (a, refl)
  Result-cases (err e) = inr (e, refl)

  -- The checks of a statement run in order, and the first error ends it.
  infixl 5 ◌>>=◌
  abbrev pub ◌>>=◌ : {B : Type 0} → Result A → (A → Result B) → Result B
  checked >>= next = elim checked [ ok a ↦ next a | err e ↦ err e ]

  infixl 5 ◌>>◌
  abbrev pub ◌>>◌ : Result (Unit {0}) → Result A → Result A
  checked >> next = elim checked [ ok _ ↦ next | err e ↦ err e ]

  abbrev pub or_error : Option A → Error → Result A
  or_error none e = err e
  or_error (some a) e = ok a

abbrev pub require : Bool → Error → Result (Unit {0})
require true e = ok tt
require false e = err e
