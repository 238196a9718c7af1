-- ===== src/Json/Integers.antt =====
-- encoding/json: how an encoded integer is read in front of a byte that is no digit.
use digital_ocean_assignment.Base.{
  ℕ, zero, suc, ◌+◌, ◌-◌, ◌*◌, ◌/◌, ◌%◌, ◌<◌, ◌≡◌, refl, ap, sym, ◌∙◌, Bool, false, Bool-cases, inl,
  inr, [], ◌∷◌, ◌++◌, ltb, ◌=ᵇ◌, if◌then◌else◌, arith,
}
use digital_ocean_assignment.Base.Int.{ℤ, pos, negsuc}
use digital_ocean_assignment.Base.Utf8.{Bytes}
use digital_ocean_assignment.Base.Strconv.{is_digit}
use digital_ocean_assignment.Json.{digits, marshal_int}

-- The number whose digits stand in front, behind those already read.
read_nat : ℕ → Bytes → ℕ × Bytes
read_nat acc [] = (acc, [])
read_nat acc (b ∷ rest) =
    let more = read_nat (acc * 10 + (b - b'0')) rest in if is_digit b then more else (acc, b ∷ rest)

read_digit :
    (acc d : ℕ) (rest : Bytes)
    → d < 10
    → read_nat acc ((b'0' + d) ∷ rest) ≡ read_nat (acc * 10 + d) rest
unfolding read_nat
read_digit acc d rest h = ground (arith, h)

read-digits :
    (fuel n : ℕ) (rest : Bytes) → n < fuel → read_nat 0 (digits fuel n rest) ≡ read_nat n rest
unfolding digits
read-digits zero n rest h = ground (arith, h)
read-digits (suc fuel) n rest h = elim (Bool-cases (ltb n 10)) [
  | inl small ↦ rw small (
      let last : n % 10 ≡ n = ground (arith, small) in
      rw last
        (read_digit 0 n rest (ground (arith, small)) ∙ ap (λ m. read_nat m rest) (omega arith)))
  | inr big ↦ rw big (
      read-digits fuel (n / 10) ((b'0' + n % 10) ∷ rest) (ground (arith, big, h))
      ∙ read_digit (n / 10) (n % 10) rest (omega arith)
      ∙ ap (λ m. read_nat m rest) (omega arith))
]

append-digits :
    (fuel n : ℕ) (rest more : Bytes) → digits fuel n rest ++ more ≡ digits fuel n (rest ++ more)
unfolding digits
append-digits zero n rest more = refl
append-digits (suc fuel) n rest more = elim (Bool-cases (ltb n 10)) [
  | inl small ↦ rw small refl
  | inr big ↦ rw big (append-digits fuel (n / 10) ((b'0' + n % 10) ∷ rest) more)
]

abbrev has_sign : Bytes → Bool
has_sign [] = false
has_sign (b ∷ rest) = b =ᵇ b'-'

abbrev unsigned : Bytes → Bytes
unsigned [] = []
unsigned (b ∷ rest) = rest

abbrev negative : ℕ × Bytes → ℤ × Bytes
negative (n, rest) = (negsuc (n - 1), rest)

abbrev positive : ℕ × Bytes → ℤ × Bytes
positive (n, rest) = (pos n, rest)

read_int : Bytes → ℤ × Bytes
unfolding read_nat
read_int bs = if has_sign bs then negative (read_nat 0 (unsigned bs)) else positive (read_nat 0 bs)

digits_no_sign :
    (fuel n d : ℕ) (rest : Bytes) → has_sign (digits fuel n ((b'0' + d) ∷ rest)) ≡ false
unfolding digits
digits_no_sign zero n d rest = ground arith
digits_no_sign (suc fuel) n d rest = elim (Bool-cases (ltb n 10)) [
  | inl small ↦ rw small (ground arith)
  | inr big ↦ rw big (digits_no_sign fuel (n / 10) (n % 10) ((b'0' + d) ∷ rest))
]

read_end : (n b : ℕ) (rest : Bytes) → is_digit b ≡ false → read_nat n (b ∷ rest) ≡ (n, b ∷ rest)
unfolding read_nat
read_end n b rest h = rw h refl

-- The number is followed by a byte that is no digit.
module _ (b : ℕ) (rest : Bytes) (h : is_digit b ≡ false) where
  read_number : (fuel n : ℕ) → n < fuel → read_nat 0 (digits fuel n [] ++ b ∷ rest) ≡ (n, b ∷ rest)
  read_number fuel n small =
      rw (append-digits fuel n [] (b ∷ rest))
        (read-digits fuel n (b ∷ rest) small ∙ read_end n b rest h)

  number_no_sign : (n : ℕ) → has_sign (digits (suc n) n [] ++ b ∷ rest) ≡ false
  unfolding digits
  number_no_sign n = elim (Bool-cases (ltb n 10)) [
    | inl small ↦ rw small (ground arith)
    | inr big ↦ rw big (
        rw (append-digits n (n / 10) ((b'0' + n % 10) ∷ []) (b ∷ rest))
          (digits_no_sign n (n / 10) (n % 10) (b ∷ rest)))
  ]

  read-marshal_int : (z : ℤ) → read_int (marshal_int z ++ b ∷ rest) ≡ (z, b ∷ rest)
  unfolding read_int marshal_int
  read-marshal_int (pos n) = rw (number_no_sign n) (rw (read_number (suc n) n (omega arith)) refl)
  read-marshal_int (negsuc n) =
      rw (read_number (suc (suc n)) (suc n) (omega arith))
        (ap (λ m. (negsuc m, b ∷ rest)) (omega arith))

pub marshal_int_unique :
    (x y : ℤ) (b : ℕ) (rest rest' : Bytes)
    → is_digit b ≡ false
    → marshal_int x ++ b ∷ rest ≡ marshal_int y ++ b ∷ rest'
    → (x ≡ y) × (rest ≡ rest')
marshal_int_unique x y b rest rest' h e =
    let read = sym (read-marshal_int b rest h x) ∙ ap read_int e ∙ read-marshal_int b rest' h y in
    (ap (λ p. p.0) read, cc (ap (λ p. p.1) read))
