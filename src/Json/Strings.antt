-- ===== src/Json/Strings.antt =====
-- encoding/json: how an encoded string is read, with what follows it.
use Prim.Native.Char.{Char, code}
use text.Mathlib.TextEquality.{Char-path}
use mathlib.Core.List.{append_assoc}
use digital_ocean_assignment.Base.{
  ℕ, ◌+◌, ◌-◌, ◌*◌, ◌/◌, ◌%◌, ◌<◌, ◌≡◌, refl, ap, sym, ◌∙◌, String, Bool, true, false, [], ◌∷◌,
  ◌++◌, ◌||◌, ltb, ◌=ᵇ◌, if◌then◌else◌, arith,
}
use digital_ocean_assignment.Base.Utf8.{Bytes, encode_rune}
use digital_ocean_assignment.Base.Utf8.Reading.{read_rune, read_rune-encode_rune}
use digital_ocean_assignment.Json.{
  hex_digit, unicode_escape, quote_rune, quote_runes, marshal_string,
}

-- What stands next inside a string: a code point, or the closing quote.
data Next : Type 0 where
  rune : ℕ → Bytes → Next
  close : Bytes → Next
  broken : Next

abbrev hex_value : ℕ → ℕ
hex_value b = if ltb b b'a' then b - b'0' else b - b'a' + 10

abbrev unescaped : ℕ → Bytes → Next
unescaped e rest =
    if e =ᵇ b'b'
    then rune 8 rest
    else if e =ᵇ b'f'
    then rune 12 rest
    else if e =ᵇ b'n'
    then rune 10 rest
    else if e =ᵇ b'r'
    then rune 13 rest
    else if e =ᵇ b't'
    then rune 9 rest
    else rune e rest

abbrev read_hex : Bytes → Next
read_hex (a ∷ b ∷ c ∷ d ∷ rest) =
    rune (4096 * hex_value a + 256 * hex_value b + 16 * hex_value c + hex_value d) rest
read_hex _ = broken

abbrev read_escape : Bytes → Next
read_escape [] = broken
read_escape (e ∷ rest) = if e =ᵇ b'u' then read_hex rest else unescaped e rest

abbrev next_rune : ℕ × Bytes → Next
next_rune (c, rest) = rune c rest

read_next : Bytes → Next
unfolding read_rune
read_next [] = broken
read_next (b ∷ rest) =
    if b =ᵇ b'"'
    then close rest
    else if b =ᵇ b'\\'
    then read_escape rest
    else next_rune (read_rune (b ∷ rest))

read-encode_rune :
    (c : ℕ) (rest : Bytes)
    → (c =ᵇ b'"') ≡ false
    → (c =ᵇ b'\\') ≡ false
    → read_next (encode_rune c ++ rest) ≡ rune c rest
unfolding read_next
read-encode_rune c rest h k = ground (arith, read_rune-encode_rune c rest)

hex_value-hex_digit : (d : ℕ) → d < 16 → hex_value (hex_digit d) ≡ d
hex_value-hex_digit d h = ground arith

read-unicode_escape :
    (c : ℕ) (rest : Bytes) → c < 0x10000 → read_next (unicode_escape c ++ rest) ≡ rune c rest
unfolding read_next
read-unicode_escape c rest h = rw (hex_value-hex_digit (c / 4096 % 16) (omega arith)) (
    rw (hex_value-hex_digit (c / 256 % 16) (omega arith)) (
      rw (hex_value-hex_digit (c / 16 % 16) (omega arith))
        (rw (hex_value-hex_digit (c % 16) (omega arith)) (ap (λ n. rune n rest) (omega arith)))))

-- A backslash and a letter.
read-escape :
    (c e : ℕ) (rest : Bytes)
    → read_escape (e ∷ rest) ≡ rune c rest
    → read_next (b'\\' ∷ e ∷ rest) ≡ rune c rest
unfolding read_next
read-escape c e rest h = h

read_self :
    (c : ℕ) (rest : Bytes) → (c =ᵇ b'"' || c =ᵇ b'\\') ≡ true → read_escape (c ∷ rest) ≡ rune c rest
read_self c rest h = ground arith

same_number : (a b : ℕ) → (a =ᵇ b) ≡ true → a ≡ b
same_number a b h = ground (arith)

small_special :
    (c : ℕ)
    → (ltb c 0x20 || c =ᵇ b'<' || c =ᵇ b'>' || c =ᵇ b'&' || c =ᵇ 0x2028 || c =ᵇ 0x2029) ≡ true
    → c < 0x10000
small_special c h = ground (arith)

-- A conditional is read back when both of its branches are.
module _ (c : ℕ) (rest : Bytes) where
  read_branches :
      (b : Bool) (x y : Bytes)
      → (b ≡ true → read_next (x ++ rest) ≡ rune c rest)
      → (b ≡ false → read_next (y ++ rest) ≡ rune c rest)
      → read_next ((if b then x else y) ++ rest) ≡ rune c rest
  read_branches true x y f g = f refl
  read_branches false x y f g = g refl

  read_letter :
      (d e : ℕ) (y : Bytes)
      → read_escape (e ∷ rest) ≡ rune d rest
      → ((c =ᵇ d) ≡ false → read_next (y ++ rest) ≡ rune c rest)
      → read_next ((if c =ᵇ d then b'\\' ∷ e ∷ [] else y) ++ rest) ≡ rune c rest
  read_letter d e y h =
      read_branches (c =ᵇ d) (b'\\' ∷ e ∷ []) y
        (λ same. read-escape c e rest (h ∙ ap (λ n. rune n rest) (sym (same_number c d same))))

  read-quote_rune : read_next (quote_rune c ++ rest) ≡ rune c rest
  unfolding quote_rune
  read-quote_rune =
      read_branches (c =ᵇ b'"' || c =ᵇ b'\\') _ _ (λ h. read-escape c c rest (read_self c rest h))
        (λ h. read_letter 8 b'b' _ refl (λ _. read_letter 12 b'f' _ refl (λ _.
          read_letter 10 b'n' _ refl (λ _. read_letter 13 b'r' _ refl (λ _.
            read_letter 9 b't' _ refl (λ _.
              read_branches _ _ _ (λ g. read-unicode_escape c rest (small_special c g))
                (λ g. read-encode_rune c rest (ground (arith, h)) (ground (arith, h)))))))))

read_close : (rest : Bytes) → read_next (quote_runes String.[] ++ rest) ≡ close rest
unfolding read_next quote_runes
read_close rest = refl

read_more :
    (c : Char) (s : String) (rest : Bytes)
    → read_next (quote_runes (String.◌∷◌ c s) ++ rest) ≡ rune (code c) (quote_runes s ++ rest)
unfolding quote_runes
read_more c s rest =
    rw (append_assoc (quote_rune (code c)) (quote_runes s) rest)
      (read-quote_rune (code c) (quote_runes s ++ rest))

close_apart : (rest : Bytes) (c : ℕ) (rest' : Bytes) (P : Type 0) → close rest ≡ rune c rest' → P
close_apart rest c rest' P e = ground (arith, e)

rune_injective :
    {c d : ℕ} {rest rest' : Bytes} → rune c rest ≡ rune d rest' → (c ≡ d) × (rest ≡ rest')
rune_injective e = (cc e, cc e)

-- A string that is read back leaves what follows it.
quote_runes_unique :
    (s t : String) (rest rest' : Bytes)
    → quote_runes s ++ rest ≡ quote_runes t ++ rest'
    → (s ≡ t) × (rest ≡ rest')
unfolding quote_runes
quote_runes_unique String.[] String.[] rest rest' e = (refl, cc e)
quote_runes_unique String.[] (String.◌∷◌ d t) rest rest' e =
    close_apart rest (code d) _ _ (sym (read_close rest) ∙ ap read_next e ∙ read_more d t rest')
quote_runes_unique (String.◌∷◌ c s) String.[] rest rest' e =
    close_apart rest' (code c) _ _
      (sym (read_close rest') ∙ ap read_next (sym e) ∙ read_more c s rest)
quote_runes_unique (String.◌∷◌ c s) (String.◌∷◌ d t) rest rest' e =
    let f = rune_injective (sym (read_more c s rest) ∙ ap read_next e ∙ read_more d t rest') in
    let g = quote_runes_unique s t rest rest' (f.1) in (cc (Char-path c d (f.0), g.0), g.1)

-- A quoted string can be told from the bytes that follow it.
pub marshal_string_unique :
    (s t : String) (rest rest' : Bytes)
    → marshal_string s ++ rest ≡ marshal_string t ++ rest'
    → (s ≡ t) × (rest ≡ rest')
unfolding marshal_string
marshal_string_unique s t rest rest' e = quote_runes_unique s t rest rest' (cc e)
