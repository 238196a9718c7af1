-- ===== src/Base/Strconv.antt =====
-- `strconv.Atoi` on a machine whose `int` has 64 bits.
use Prim.Native.Nat.{ℕ, ◌+◌, ◌-◌, ◌*◌, ◌^◌}
use Prim.Native.String.{String}
use mathlib.Core.Bool.{Bool, true, false, ◌&&◌}
use mathlib.Core.List.{[], ◌∷◌}
use digital_ocean_assignment.Base.Tests.{ltb, leb, ◌=ᵇ◌, if◌then◌else◌}
use digital_ocean_assignment.Base.Int.{ℤ, pos, negsuc, sub_ℕ, word}
use digital_ocean_assignment.Base.Utf8.{Bytes, bytes}

abbrev pub is_digit : ℕ → Bool
is_digit b = leb b'0' b && leb b b'9'

-- A number that fits 64 bits, or the error that is met first.
pub data Parsed : Type 0 where
  number : ℕ → Parsed
  bad_syntax out_of_range : Parsed

-- The loop of ParseUint over the digits, behind those already read.
unfoldable pub parse_digits : ℕ → Bytes → Parsed
parse_digits acc [] = number acc
parse_digits acc (b ∷ bs) =
    let next = acc * 10 + (b - b'0') in
    let rest = parse_digits next bs in
    if is_digit b then if ltb next word then rest else out_of_range else bad_syntax

abbrev pub parse_uint : Bytes → Parsed
parse_uint [] = bad_syntax
parse_uint (b ∷ bs) = parse_digits 0 (b ∷ bs)

-- The value that is returned, and whether the error is nil: a number out of range is returned as
-- the nearest one in range.
abbrev pub positive_int : Parsed → ℤ × Bool
positive_int (number n) = if ltb n (2 ^ 63) then (pos n, true) else (pos (2 ^ 63 - 1), false)
positive_int bad_syntax = (pos 0, false)
positive_int out_of_range = (pos (2 ^ 63 - 1), false)

abbrev pub negative_int : Parsed → ℤ × Bool
negative_int (number n) = if leb n (2 ^ 63) then (sub_ℕ 0 n, true) else (negsuc (2 ^ 63 - 1), false)
negative_int bad_syntax = (pos 0, false)
negative_int out_of_range = (negsuc (2 ^ 63 - 1), false)

abbrev pub parse_int : Bytes → ℤ × Bool
parse_int [] = (pos 0, false)
parse_int (b ∷ bs) =
    if b =ᵇ b'-'
    then negative_int (parse_uint bs)
    else if b =ᵇ b'+'
    then positive_int (parse_uint bs)
    else positive_int (parse_uint (b ∷ bs))

unfoldable pub atoi : String → ℤ × Bool
unfolding parse_digits
atoi s = parse_int (bytes s)
