-- ===== src/Google.antt =====
-- google.rs: the adapter of Google's login.
pub mod Claims
pub mod Keys
pub mod Spacing
pub mod Login
use eri.Common.{
  ℕ, ◌-◌, ◌+◌, Text, bytes, Bool, true, false, not, ◌&&◌, ◌||◌, Option, none, some, List, [], ◌∷◌,
  length, is_empty, any, all, leb, ltb, nat_beq, ◌==◌, text_eq, min, is_ascii_alphanumeric,
  if◌then◌else◌, split, trim, to_ascii_lowercase, strip_prefix, parse_u64,
}
use eri.External.{Libs}
use eri.Oauth.Pkce.{is_verifier_byte}

pub data GoogleError : Type 0 where
  invalid_configuration secret_unavailable invalid_authorization_input : GoogleError
  token_exchange keys_unavailable invalid_identity_token : GoogleError

-- Seconds.
abbrev pub max_cache_age : ℕ
max_cache_age = 3600

abbrev pub unknown_kid_backoff : ℕ
unknown_kid_backoff = 5

abbrev pub clock_skew : ℕ
clock_skew = 30

abbrev pub max_keys : ℕ
max_keys = 32

abbrev pub max_token_response : ℕ
max_token_response = 65536

abbrev pub is_graphic : ℕ → Bool
is_graphic b = leb 33 b && leb b 126

unfoldable pub valid_opaque : Text → Bool
unfolding all
valid_opaque value = not (is_empty value) && leb (length value) 512 && all is_graphic value

unfoldable pub valid_pkce_verifier : Text → Bool
unfolding all
valid_pkce_verifier value =
    leb 43 (length value) && leb (length value) 128 && all is_verifier_byte value

unfoldable pub valid_s256_challenge : Libs → Text → Bool
valid_s256_challenge lib value = nat_beq (length value) 43 && (elim (lib.base64_decode value) [
  | none ↦ false
  | some decoded ↦ nat_beq (length decoded) 32 && lib.base64_encode decoded == value
])

abbrev pub forbids_cache : Text → Bool
forbids_cache directive =
    to_ascii_lowercase (trim directive) == bytes "no-cache"
    || to_ascii_lowercase (trim directive) == bytes "no-store"

abbrev pub max_age_of : Text → Option ℕ
max_age_of directive =
    elim (strip_prefix (bytes "max-age=") (to_ascii_lowercase (trim directive))) [
      | none ↦ none
      | some seconds ↦ parse_u64 seconds
    ]

-- `find_map`
unfoldable pub first_max_age : List Text → Option ℕ
first_max_age [] = none
first_max_age (directive ∷ directives) =
    let later = first_max_age directives in
    elim (max_age_of directive) [ none ↦ later | some seconds ↦ some seconds ]

abbrev pub or_zero : Option ℕ → ℕ
or_zero none = 0
or_zero (some n) = n

-- `cache_freshness`: the texts of the two headers, none where one is missing or no text.
unfoldable pub cache_freshness : Option Text → Option Text → ℕ
unfolding first_max_age any split
cache_freshness cache_control age =
    let directives = split b',' (elim cache_control [ none ↦ [] | some text ↦ text ]) in
    if any forbids_cache directives
    then 0
    else min (or_zero (first_max_age directives)) max_cache_age
      - or_zero (elim age [ none ↦ none | some text ↦ parse_u64 text ])
