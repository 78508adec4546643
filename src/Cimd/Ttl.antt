-- ===== src/Cimd/Ttl.antt =====
-- cimd.rs: `cache_ttl`, the time for which a response may be kept.
pub mod Bounds
use eri.Common.{
  ℕ, ◌+◌, ◌-◌, Text, bytes, Bool, true, false, not, ◌&&◌, ◌||◌, Option, none, some, List, [], ◌∷◌,
  flat_map, map, length, is_empty, all, ltb, leb, nat_beq, ◌==◌, text_eq, min, is_some_and,
  is_ascii_alphanumeric, if◌then◌else◌, split, split_once, trim, to_ascii_lowercase, contains_byte,
  first_is, last_is, drop_last, parse_u64,
}

-- Seconds.
abbrev pub max_cache_ttl : ℕ
max_cache_ttl = 300

abbrev pub is_name_byte : ℕ → Bool
is_name_byte b = is_ascii_alphanumeric b || nat_beq b b'-'

abbrev pub is_ascii_graphic : ℕ → Bool
is_ascii_graphic b = leb 33 b && leb b 126

abbrev pub is_quote : ℕ → Bool
is_quote b = nat_beq b b'"'

abbrev pub tail : Text → Text
tail [] = []
tail (b ∷ s) = s

-- A value between quotes, without them.
unfoldable pub unquote : Text → Text
unfolding last_is drop_last
unquote value =
    if first_is is_quote value && last_is is_quote value && leb 2 (length value)
    then drop_last (tail value)
    else value

abbrev pub bad_value : Text → Bool
bad_value value = is_empty value || not (all is_ascii_graphic value) || contains_byte b'"' value

abbrev pub forbids_caching : Text → Bool
forbids_caching name =
    name == bytes "no-store" || name == bytes "no-cache" || name == bytes "private"

-- A directive that is not refused: its name in lower case, and its value without quotes.
pub record Directive : Type 0 where
  pub name : Text
  pub value : Option Text

abbrev pub name_and_value : Text → Text × Option Text
name_and_value directive = elim (split_once b'=' directive) [
  | none ↦ (directive, none)
  | some (name, value) ↦ (trim name, some (unquote (trim value)))
]

-- One round of the loop, up to the test for `max-age`.
unfoldable pub read_directive : Text → Option Directive
unfolding unquote split_once
read_directive directive =
    let (name, value) = name_and_value directive in
    if is_empty directive || contains_byte b';' directive
    then none
    else if is_empty name || not (all is_name_byte name)
    then none
    else if forbids_caching (to_ascii_lowercase name)
    then none
    else if is_some_and bad_value value
    then none
    else some (record { name = to_ascii_lowercase name; value = value })

-- The `max-age` in force after a directive; the outer option is the early return.
unfoldable pub take_age : Option ℕ → Directive → Option (Option ℕ)
take_age current d =
    if d.name == bytes "max-age"
    then elim d.value [
      | none ↦ none
      | some value ↦ elim (parse_u64 value) [
        | none ↦ none
        | some seconds ↦ elim current [
          | none ↦ some (some seconds)
          | some least ↦ some (some (min least seconds))
        ]
      ]
    ]
    else some current

-- The loop over the directives.
unfoldable pub maximum_age : Option ℕ → List Text → Option (Option ℕ)
unfolding read_directive take_age
maximum_age current [] = some current
maximum_age current (directive ∷ directives) = elim (read_directive directive) [
  | none ↦ none
  | some d ↦ elim (take_age current d) [ none ↦ none | some next ↦ maximum_age next directives ]
]

abbrev pub directives_of : List Text → List Text
directives_of headers = map trim (flat_map (split b',') headers)

-- `checked_sub`, and the filter on zero.
abbrev pub remaining : ℕ → ℕ → Option ℕ
remaining ttl age = if ltb age ttl then some (ttl - age) else none

unfoldable pub cache_ttl : Option (List Text) → ℕ → Option ℕ
unfolding maximum_age split
cache_ttl none response_age = none
cache_ttl (some headers) response_age = elim (maximum_age none (directives_of headers)) [
  | none ↦ none
  | some none ↦ none
  | some (some age) ↦ remaining (min age max_cache_ttl) response_age
]
