-- ===== src/Common/Split.antt =====
-- The methods of `str` that the readers of headers, forms and identifiers share.
use Prim.Native.Nat.{ℕ, ◌+◌, ◌-◌, ◌*◌, ◌^◌}
use mathlib.Core.Bool.{Bool, false, not, ◌&&◌, ◌||◌}
use mathlib.Core.Option.{Option, none, some}
use mathlib.Core.List.{List, [], ◌∷◌, map}
use eri.Common.Tests.{ltb, leb, nat_beq, if◌then◌else◌}
use eri.Common.Lists.{is_empty, any, all}
use eri.Common.Bytes.{Text, is_ascii_digit}

abbrev push_first : ℕ → List Text → List Text
push_first b [] = (b ∷ []) ∷ []
push_first b (part ∷ parts) = (b ∷ part) ∷ parts

-- `str::split` at a byte: never empty.
unfoldable pub split : ℕ → Text → List Text
split sep [] = [] ∷ []
split sep (b ∷ s) = let rest = split sep s in if nat_beq b sep then [] ∷ rest else push_first b rest

-- `str::split_once` at a byte: what stands before its first occurrence, and after it.
unfoldable pub split_once : ℕ → Text → Option (Text × Text)
split_once sep [] = none
split_once sep (b ∷ s) =
    let rest = split_once sep s in
    if nat_beq b sep
    then some ([], s)
    else elim rest [ none ↦ none | some (before, after) ↦ some (b ∷ before, after) ]

-- The white space of ASCII, which is what `trim` drops of a header's text.
abbrev pub is_space : ℕ → Bool
is_space b = nat_beq b b' ' || (leb 9 b && leb b 13)

-- `trim_start_matches` and `trim_end_matches`
unfoldable pub trim_start_by : (ℕ → Bool) → Text → Text
trim_start_by drop [] = []
trim_start_by drop (b ∷ s) = let rest = trim_start_by drop s in if drop b then rest else b ∷ s

unfoldable pub trim_end_by : (ℕ → Bool) → Text → Text
trim_end_by drop [] = []
trim_end_by drop (b ∷ s) =
    let rest = trim_end_by drop s in if is_empty rest && drop b then [] else b ∷ rest

abbrev pub trim_by : (ℕ → Bool) → Text → Text
trim_by drop s = trim_end_by drop (trim_start_by drop s)

-- `str::trim` on ASCII.
abbrev pub trim : Text → Text
trim = trim_by is_space

-- `to_ascii_lowercase`
abbrev pub lower_byte : ℕ → ℕ
lower_byte b = if leb b'A' b && leb b b'Z' then b + 32 else b

abbrev pub to_ascii_lowercase : Text → Text
to_ascii_lowercase = map lower_byte

-- `str::contains` at a byte.
abbrev pub contains_byte : ℕ → Text → Bool
contains_byte b = any (λ c. nat_beq c b)

abbrev pub first_is : (ℕ → Bool) → Text → Bool
first_is p [] = false
first_is p (b ∷ s) = p b

unfoldable pub last_is : (ℕ → Bool) → Text → Bool
last_is p [] = false
last_is p (b ∷ s) = let rest = last_is p s in if is_empty s then p b else rest

-- The text without its last byte.
unfoldable pub drop_last : Text → Text
drop_last [] = []
drop_last (b ∷ s) = let rest = drop_last s in if is_empty s then [] else b ∷ rest

-- `parse::<u64>`: an optional sign `+`, then digits, below 2 ^ 64.
unfoldable pub digits_value : ℕ → Text → ℕ
digits_value n [] = n
digits_value n (d ∷ s) = digits_value (n * 10 + (d - b'0')) s

abbrev pub without_plus : Text → Text
without_plus [] = []
without_plus (b ∷ s) = if nat_beq b b'+' then s else b ∷ s

unfoldable pub parse_u64 : Text → Option ℕ
unfolding digits_value
parse_u64 s =
    let digits = without_plus s in
    if not (is_empty digits) && all is_ascii_digit digits && ltb (digits_value 0 digits) (2 ^ 64)
    then some (digits_value 0 digits)
    else none
