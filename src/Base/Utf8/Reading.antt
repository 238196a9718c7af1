-- ===== src/Base/Utf8/Reading.antt =====
-- How UTF-8 is read.
use Prim.Native.Nat.{ℕ, ◌+◌, ◌-◌, ◌*◌}
use Prim.Native.Char.{Char, code}
use Prim.Native.String.{String}
use mathlib.Core.Path.{◌≡◌, refl, sym, ap, ◌∙◌}
use mathlib.Core.List.{[], ◌∷◌, ◌++◌}
use native.Mathlib.Omega.{arith}
use text.Mathlib.TextEquality.{Char-path}
use digital_ocean_assignment.Base.Tests.{ltb, if◌then◌else◌}
use digital_ocean_assignment.Base.Utf8.{Bytes, encode_rune, bytes}

abbrev read_2 : ℕ → Bytes → ℕ × Bytes
read_2 b (x ∷ rest) = ((b - 0xc0) * 0x40 + (x - 0x80), rest)
read_2 b _ = (0, [])

abbrev read_3 : ℕ → Bytes → ℕ × Bytes
read_3 b (x ∷ y ∷ rest) = ((b - 0xe0) * 0x1000 + (x - 0x80) * 0x40 + (y - 0x80), rest)
read_3 b _ = (0, [])

abbrev read_4 : ℕ → Bytes → ℕ × Bytes
read_4 b (x ∷ y ∷ z ∷ rest) =
    ((b - 0xf0) * 0x40000 + (x - 0x80) * 0x1000 + (y - 0x80) * 0x40 + (z - 0x80), rest)
read_4 b _ = (0, [])

-- The code point in front and the bytes behind it, by the size that its first byte tells.
unfoldable pub read_rune : Bytes → ℕ × Bytes
read_rune [] = (0, [])
read_rune (b ∷ rest) =
    if ltb b 0x80
    then (b, rest)
    else if ltb b 0xe0
    then read_2 b rest
    else if ltb b 0xf0
    then read_3 b rest
    else read_4 b rest

pub read_rune-encode_rune : (c : ℕ) (rest : Bytes) → read_rune (encode_rune c ++ rest) ≡ (c, rest)
unfolding read_rune
read_rune-encode_rune c rest = ground arith

read_rune-bytes : (c : Char) (s : String) → read_rune (bytes (String.◌∷◌ c s)) ≡ (code c, bytes s)
unfolding bytes
read_rune-bytes c s = read_rune-encode_rune (code c) (bytes s)

never_empty : (c : Char) (s : String) (P : Type 0) → [] ≡ bytes (String.◌∷◌ c s) → P
unfolding bytes
never_empty c s P e = ground (arith, e)

pub bytes_injective : (s t : String) → bytes s ≡ bytes t → s ≡ t
unfolding bytes
bytes_injective String.[] String.[] e = refl
bytes_injective String.[] (String.◌∷◌ d t) e = never_empty d t _ e
bytes_injective (String.◌∷◌ c s) String.[] e = never_empty c s _ (sym e)
bytes_injective (String.◌∷◌ c s) (String.◌∷◌ d t) e =
    let read = sym (read_rune-bytes c s) ∙ ap read_rune e ∙ read_rune-bytes d t in
    cc (Char-path c d (ap (λ p. p.0) read), bytes_injective s t (ap (λ p. p.1) read))
