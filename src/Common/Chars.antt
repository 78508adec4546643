-- ===== src/Common/Chars.antt =====
-- The characters of a text, and the classes of characters that the code tests.
use Prim.Native.Nat.{ℕ, zero, suc, ◌+◌, ◌-◌, ◌*◌}
use mathlib.Core.Bool.{Bool, true, false, ◌&&◌, ◌||◌}
use mathlib.Core.Option.{Option, none, some}
use mathlib.Core.List.{List, [], ◌∷◌}
use eri.Common.Tests.{ltb, leb, nat_beq, if◌then◌else◌}
use eri.Common.Bytes.{Text}

-- The bytes that follow a first byte of UTF-8, and its share of the code point.
abbrev following : ℕ → ℕ
following b = if ltb b 0xc0 then 0 else if ltb b 0xe0 then 1 else if ltb b 0xf0 then 2 else 3

abbrev first_bits : ℕ → ℕ
first_bits b = if ltb b 0xe0 then b - 0xc0 else if ltb b 0xf0 then b - 0xe0 else b - 0xf0

-- Inside a character: the bytes that it still has, and the code point so far.
unfoldable pub chars_from : ℕ → ℕ → Text → List ℕ
chars_from needed point [] = []
chars_from zero point (b ∷ s) =
    let rest = chars_from (following b) (first_bits b) s in if ltb b 0x80 then b ∷ rest else rest
chars_from (suc zero) point (b ∷ s) = (point * 64 + (b - 0x80)) ∷ chars_from 0 0 s
chars_from (suc (suc n)) point (b ∷ s) = chars_from (suc n) (point * 64 + (b - 0x80)) s

-- `str::chars`
abbrev pub chars : Text → List ℕ
chars = chars_from 0 0

abbrev between : ℕ → ℕ → ℕ → Bool
between low high c = leb low c && leb c high

-- `char::is_control`
abbrev pub is_control : ℕ → Bool
is_control c = ltb c 32 || between 127 159 c

-- `char::is_whitespace`
abbrev pub is_whitespace : ℕ → Bool
is_whitespace c =
    between 9 13 c
    || nat_beq c 32
    || nat_beq c 0x85
    || nat_beq c 0xa0
    || nat_beq c 0x1680
    || between 0x2000 0x200a c
    || between 0x2028 0x2029 c
    || nat_beq c 0x202f
    || nat_beq c 0x205f
    || nat_beq c 0x3000

-- How many bytes follow a first byte of UTF-8, and the range of the next one.
abbrev lead : ℕ → Option (ℕ × ℕ × ℕ)
lead b =
    if ltb b 0x80
    then some (0, 0x80, 0xbf)
    else if between 0xc2 0xdf b
    then some (1, 0x80, 0xbf)
    else if nat_beq b 0xe0
    then some (2, 0xa0, 0xbf)
    else if nat_beq b 0xed
    then some (2, 0x80, 0x9f)
    else if between 0xe1 0xef b
    then some (2, 0x80, 0xbf)
    else if nat_beq b 0xf0
    then some (3, 0x90, 0xbf)
    else if between 0xf1 0xf3 b
    then some (3, 0x80, 0xbf)
    else if nat_beq b 0xf4
    then some (3, 0x80, 0x8f)
    else none

-- `str::from_utf8(…).is_ok()`
unfoldable pub is_utf8_from : ℕ → ℕ → ℕ → Text → Bool
is_utf8_from zero low high [] = true
is_utf8_from (suc n) low high [] = false
is_utf8_from zero low high (b ∷ s) = elim (lead b) [
  | none ↦ false
  | some (n, low', high') ↦ is_utf8_from n low' high' s
]
is_utf8_from (suc n) low high (b ∷ s) = between low high b && is_utf8_from n 0x80 0xbf s

abbrev pub is_utf8 : Text → Bool
is_utf8 = is_utf8_from 0 0x80 0xbf
