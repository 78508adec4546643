-- ===== src/Oauth/Pkce.antt =====
-- oauth.rs: the S256 code challenge of PKCE, and the syntax of a scope token.
pub mod Verification
use eri.Common.{
  ℕ, Text, Bool, true, false, not, ◌&&◌, ◌||◌, Option, none, some, length, is_empty, all, leb,
  nat_beq, ◌==◌, text_eq, text_beq, is_ascii_alphanumeric, Result, ok, err, ◌>>=◌, ◌>>◌, refuse_if,
  ok_or, is_err, if◌then◌else◌,
}
use eri.External.{Libs, is_base64_url}
use eri.Oauth.Types.{OauthError, invalid_pkce}

abbrev pub is_verifier_byte : ℕ → Bool
is_verifier_byte b =
    is_ascii_alphanumeric b || nat_beq b b'-' || nat_beq b b'.' || nat_beq b b'_' || nat_beq b b'~'

unfoldable pub validate_pkce_verifier : Text → Result OauthError (Unit {0})
validate_pkce_verifier value =
    if leb 43 (length value) && leb (length value) 128 && all is_verifier_byte value
    then ok tt
    else err invalid_pkce

abbrev pub is_scope_byte : ℕ → Bool
is_scope_byte b = nat_beq b b'!' || (leb b'#' b && leb b b'[') || (leb b']' b && leb b b'~')

unfoldable pub valid_scope_token : Text → Bool
valid_scope_token scope = not (is_empty scope) && all is_scope_byte scope

module _ (lib : Libs) where
  unfoldable pub validate_pkce_challenge : Text → Result OauthError (Unit {0})
  validate_pkce_challenge value = do
    refuse_if (not (nat_beq (length value) 43) || not (all is_base64_url value)) invalid_pkce
    decoded ← ok_or (lib.base64_decode value) invalid_pkce
    refuse_if (not (nat_beq (length decoded) 32 && lib.base64_encode decoded == value)) invalid_pkce

  unfoldable pub s256_challenge : Text → Result OauthError Text
  s256_challenge verifier = do
    validate_pkce_verifier verifier
    ok (lib.base64_encode (lib.sha256 verifier))

  -- The comparison is `ct_eq`, which is equality of the bytes.
  unfoldable pub verify_s256 : Text → Text → Bool
  verify_s256 verifier expected = elim (s256_challenge verifier) [
    | err _ ↦ false
    | ok actual ↦ not (is_err (validate_pkce_challenge expected)) && actual == expected
  ]
