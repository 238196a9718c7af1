-- ===== src/Json/Atoi.antt =====
-- `strconv.Atoi` on the decimal digits that encoding/json writes.
use digital_ocean_assignment.Base.{
  ℕ, zero, suc, ◌+◌, ◌-◌, ◌*◌, ◌/◌, ◌%◌, ◌^◌, ◌<◌, ◌≡◌, refl, ap, ◌∙◌, Bool, true, false,
  Bool-cases, inl, inr, String, [], ◌∷◌, ltb, arith,
}
use digital_ocean_assignment.Base.Int.{ℤ, pos, negsuc, word}
use digital_ocean_assignment.Base.Utf8.{Bytes, bytes}
use digital_ocean_assignment.Base.Strconv.{
  is_digit, number, parse_digits, parse_uint, positive_int, negative_int, parse_int, atoi,
}
use digital_ocean_assignment.Json.{digits, marshal_int}

parse_digit :
    (acc d : ℕ) (rest : Bytes)
    → d < 10
    → acc * 10 + d < word
    → parse_digits acc ((b'0' + d) ∷ rest) ≡ parse_digits (acc * 10 + d) rest
unfolding parse_digits
parse_digit acc d rest h small =
    let value : acc * 10 + (b'0' + d - b'0') ≡ acc * 10 + d = omega arith in
    ground (arith, value, h, small)

parse_digits-digits :
    (fuel n : ℕ) (rest : Bytes)
    → n < fuel
    → n < word
    → parse_digits 0 (digits fuel n rest) ≡ parse_digits n rest
unfolding digits
parse_digits-digits zero n rest h small = ground (arith, h)
parse_digits-digits (suc fuel) n rest h small = elim (Bool-cases (ltb n 10)) [
  | inl short ↦ rw short (
      parse_digit 0 (n % 10) rest (omega arith) (omega arith)
      ∙ ap (λ m. parse_digits m rest) (ground (arith, short)))
  | inr long ↦ rw long (
      parse_digits-digits fuel (n / 10) ((b'0' + n % 10) ∷ rest) (ground (arith, long, h))
        (omega (arith, small))
      ∙ parse_digit (n / 10) (n % 10) rest (omega arith) (omega (arith, small))
      ∙ ap (λ m. parse_digits m rest) (omega arith))
]

abbrev starts_digit : Bytes → Bool
starts_digit [] = false
starts_digit (b ∷ rest) = is_digit b

starts_digit-digits :
    (fuel n d : ℕ) (rest : Bytes) → d < 10 → starts_digit (digits fuel n ((b'0' + d) ∷ rest)) ≡ true
unfolding digits
starts_digit-digits zero n d rest h = ground (arith, h)
starts_digit-digits (suc fuel) n d rest h = elim (Bool-cases (ltb n 10)) [
  | inl short ↦ rw short (ground arith)
  | inr long ↦
      rw long (starts_digit-digits fuel (n / 10) (n % 10) ((b'0' + d) ∷ rest) (omega arith))
]

starts_digit-number : (n : ℕ) → starts_digit (digits (suc n) n []) ≡ true
unfolding digits
starts_digit-number n = elim (Bool-cases (ltb n 10)) [
  | inl short ↦ rw short (ground arith)
  | inr long ↦ rw long (starts_digit-digits n (n / 10) (n % 10) [] (omega arith))
]

unsigned_int :
    (bs : Bytes) → starts_digit bs ≡ true → parse_int bs ≡ positive_int (parse_digits 0 bs)
unsigned_int [] h = ground (arith, h)
unsigned_int (b ∷ bs) h = ground (arith, h)

starts_digit-uint : (bs : Bytes) → starts_digit bs ≡ true → parse_uint bs ≡ parse_digits 0 bs
starts_digit-uint [] h = ground (arith, h)
starts_digit-uint (b ∷ bs) h = refl

number-digits : (n : ℕ) → n < word → parse_digits 0 (digits (suc n) n []) ≡ number n
unfolding parse_digits
number-digits n small = parse_digits-digits (suc n) n [] (omega arith) small

-- The integers that an `int` holds.
abbrev pub FitsInt64 : ℤ → Type 0
FitsInt64 (pos n) = n < 2 ^ 63
FitsInt64 (negsuc n) = n < 2 ^ 63

pub atoi-marshal_int :
    (text : String) (z : ℤ) → FitsInt64 z → bytes text ≡ marshal_int z → atoi text ≡ (z, true)
unfolding atoi marshal_int
atoi-marshal_int text (pos n) h e = rw e (
    unsigned_int (digits (suc n) n []) (starts_digit-number n)
    ∙ ap positive_int (number-digits n (omega (arith, h)))
    ∙ ground (arith, h))
atoi-marshal_int text (negsuc n) h e = rw e (
    ap negative_int (
      starts_digit-uint (digits (suc (suc n)) (suc n) []) (starts_digit-number (suc n))
      ∙ number-digits (suc n) (omega (arith, h)))
    ∙ ground (arith, h))
