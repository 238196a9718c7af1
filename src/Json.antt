-- ===== src/Json.antt =====
-- What the program uses of encoding/json to write: strings, integers and objects whose members
-- are given in the order in which they are written. `Marshal` escapes for HTML and writes the
-- keys of a map in order.
pub mod Strings
pub mod Integers
pub mod Members
pub mod Atoi
use digital_ocean_assignment.Base.{
  Bool, true, false, ℕ, zero, suc, ◌+◌, ◌-◌, ◌/◌, ◌%◌, String, List, [], ◌∷◌, ◌++◌, ltb, ◌=ᵇ◌,
  if◌then◌else◌, ◌||◌,
}
use digital_ocean_assignment.Base.Int.{ℤ, pos, negsuc}
use digital_ocean_assignment.Base.Utf8.{Bytes, encode_rune}
use Prim.Native.Char.{code}

abbrev hex_digit : ℕ → ℕ
hex_digit d = if ltb d 10 then b'0' + d else b'a' + d - 10

-- `\u00XX`.
abbrev unicode_escape : ℕ → Bytes
unicode_escape c =
    b'\\'
    ∷ b'u'
    ∷ hex_digit (c / 4096 % 16)
    ∷ hex_digit (c / 256 % 16)
    ∷ hex_digit (c / 16 % 16)
    ∷ hex_digit (c % 16)
    ∷ []

-- One code point inside a string.
quote_rune : ℕ → Bytes
quote_rune c =
    if c =ᵇ b'"' || c =ᵇ b'\\'
    then b'\\' ∷ c ∷ []
    else if c =ᵇ 8
    then b'\\' ∷ b'b' ∷ []
    else if c =ᵇ 12
    then b'\\' ∷ b'f' ∷ []
    else if c =ᵇ 10
    then b'\\' ∷ b'n' ∷ []
    else if c =ᵇ 13
    then b'\\' ∷ b'r' ∷ []
    else if c =ᵇ 9
    then b'\\' ∷ b't' ∷ []
    else if ltb c 0x20 || c =ᵇ b'<' || c =ᵇ b'>' || c =ᵇ b'&' || c =ᵇ 0x2028 || c =ᵇ 0x2029
    then unicode_escape c
    else encode_rune c

quote_runes : String → Bytes
unfolding quote_rune
quote_runes String.[] = b'"' ∷ []
quote_runes (String.◌∷◌ c s) = quote_rune (code c) ++ quote_runes s

unfoldable pub marshal_string : String → Bytes
unfolding quote_runes
marshal_string s = b'"' ∷ quote_runes s

-- The decimal digits of a number in front of `rest`; the first argument is fuel, and a number has
-- no more digits than its value plus one.
digits : ℕ → ℕ → Bytes → Bytes
digits zero n rest = rest
digits (suc fuel) n rest =
    let last = (b'0' + n % 10) ∷ rest in
    let more = digits fuel (n / 10) last in if ltb n 10 then last else more

unfoldable pub marshal_int : ℤ → Bytes
unfolding digits
marshal_int (pos n) = digits (suc n) n []
marshal_int (negsuc n) = b'-' ∷ digits (suc (suc n)) (suc n) []

-- A member's key and the encoding of its value.
abbrev pub Member : Type 0
Member = String × Bytes

unfoldable pub marshal_members : List Member → Bytes
unfolding marshal_string
marshal_members [] = b'}' ∷ []
marshal_members ((k, v) ∷ []) = marshal_string k ++ b':' ∷ (v ++ b'}' ∷ [])
marshal_members ((k, v) ∷ more) = marshal_string k ++ b':' ∷ (v ++ b',' ∷ marshal_members more)

unfoldable pub marshal_object : List Member → Bytes
unfolding marshal_members
marshal_object ms = b'{' ∷ marshal_members ms
