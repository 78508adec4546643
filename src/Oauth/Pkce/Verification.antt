-- ===== src/Oauth/Pkce/Verification.antt =====
-- oauth.rs: what `verify_s256` accepts.
use eri.Common.{◌≤◌, ◌≡◌, ◌↔◌, Text, true, length, all, ok, arith, text_beq_iff, text_eq}
use eri.External.{Libs, EncodesDigests}
use eri.Oauth.Pkce.{
  is_verifier_byte, validate_pkce_verifier, validate_pkce_challenge, s256_challenge, verify_s256,
}

module _ (lib : Libs) where
  -- The challenge of a digest passes the guard on challenges.
  challenge_of_digest :
      EncodesDigests lib
      → (v : Text) → validate_pkce_challenge lib (lib.base64_encode (lib.sha256 v)) ≡ ok tt
  unfolding validate_pkce_challenge
  challenge_of_digest enc v = ground (
    arith,
    enc.digest_size v,
    enc.encoded_size v,
    enc.encoded_alphabet v,
    enc.decode_encode v,
    text_beq_iff (lib.base64_encode (lib.sha256 v)) (lib.base64_encode (lib.sha256 v)),
  )

  -- A verifier is accepted exactly for its own S256 challenge: it has 43 to 128 unreserved
  -- characters, and the expected value is the encoded digest of it.
  pub verify_s256_iff :
      EncodesDigests lib
      → (v expected : Text)
      → (verify_s256 lib v expected ≡ true) ↔ (
          (43 ≤ length v)
          × (length v ≤ 128)
          × (all is_verifier_byte v ≡ true)
          × (expected ≡ lib.base64_encode (lib.sha256 v)))
  unfolding verify_s256 s256_challenge validate_pkce_verifier
  verify_s256_iff enc v expected =
      ground
        (arith, challenge_of_digest enc v, text_beq_iff (lib.base64_encode (lib.sha256 v)) expected)
