-- ===== src/Google/Keys.antt =====
-- google.rs: Google's signing keys: the set that is fetched, and the cache.
use eri.Common.{
  ℕ, ◌+◌, Text, bytes, Bool, true, false, not, ◌&&◌, ◌||◌, Option, none, some, List, [], ◌∷◌,
  length, is_empty, any, leb, ltb, nat_beq, ◌==◌, text_eq, is_some_and, Result, ok, err, ◌>>=◌,
  ◌>>◌, ok_or, refuse_if, if◌then◌else◌,
}
use eri.Common.HashMap.{HashMap, get, insert, contains_key}
use eri.External.{Libs}
use eri.Google.{GoogleError, keys_unavailable, max_keys, unknown_kid_backoff, cache_freshness}

pub record Jwk : Type 0 where
  pub kty : Text
  pub kid : Text
  pub n : Text
  pub e : Text
  pub alg : Option Text
  pub use_ : Option Text
  pub key_ops : Option (List Text)

-- A key is its modulus and its exponent in base64. `rsa_bits`, below, is the library's: the bits of
-- the modulus, where the two numbers make a key.
pub record DecodingKey : Type 0 where
  pub n : Text
  pub e : Text

-- The response to the request for the keys: its status, its two headers, and its keys, none if the
-- body is too long or is no key set.
pub record KeysResponse : Type 0 where
  pub status : ℕ
  pub cache_control : Option Text
  pub age : Option Text
  pub keys : Option (List Jwk)

abbrev pub bad_jwk : Jwk → Bool
bad_jwk jwk =
    not (jwk.kty == bytes "RSA")
    || is_empty jwk.kid
    || ltb 128 (length jwk.kid)
    || is_some_and (λ v. not (v == bytes "RS256")) jwk.alg
    || is_some_and (λ v. not (v == bytes "sig")) jwk.use_
    || is_some_and (λ ops. is_empty ops || any (λ op. not (op == bytes "verify")) ops) jwk.key_ops

module _ (lib : Libs) (rsa_bits : Text → Text → Option ℕ) where
  -- The loop over the keys, after those already taken.
  unfoldable pub read_keys :
      HashMap DecodingKey → List Jwk → Result GoogleError (HashMap DecodingKey)
  read_keys taken [] = ok taken
  read_keys taken (jwk ∷ jwks) = do
    refuse_if (bad_jwk jwk) keys_unavailable
    n ← ok_or (lib.base64_decode jwk.n) keys_unavailable
    e ← ok_or (lib.base64_decode jwk.e) keys_unavailable
    refuse_if (not (leb 256 (length n) && leb (length n) 1024) || is_empty e || ltb 8 (length e))
        keys_unavailable
    bits ← ok_or (rsa_bits n e) keys_unavailable
    refuse_if (not (leb 2048 bits && leb bits 8192) || contains_key jwk.kid taken) keys_unavailable
    read_keys (insert jwk.kid (record { n = jwk.n; e = jwk.e }) taken) jwks

  -- `fetch_keys`: `none` where no permit is free or the request fails.
  unfoldable pub fetch_keys : Option KeysResponse → Result GoogleError (HashMap DecodingKey × ℕ)
  unfolding read_keys cache_freshness
  fetch_keys answered = do
    response ← ok_or answered keys_unavailable
    refuse_if (not (nat_beq response.status 200)) keys_unavailable
    jwks ← ok_or response.keys keys_unavailable
    refuse_if (is_empty jwks || ltb max_keys (length jwks)) keys_unavailable
    keys ← read_keys [] jwks
    ok (keys, cache_freshness response.cache_control response.age)

pub record KeyCache : Type 0 where
  pub keys : HashMap DecodingKey
  pub fresh_until : ℕ
  pub last_attempt : Option ℕ

-- `now.duration_since(attempt) < UNKNOWN_KID_BACKOFF`, which is zero before the attempt.
abbrev pub too_soon : ℕ → KeyCache → Bool
too_soon now cache =
    is_some_and (λ attempt. ltb now (attempt + unknown_kid_backoff)) cache.last_attempt

abbrev pub cached_key : Text → ℕ → KeyCache → Option DecodingKey
cached_key kid now cache = if ltb now cache.fresh_until then get kid cache.keys else none

module _ (lib : Libs) (rsa_bits : Text → Text → Option ℕ) where
  -- `key`: the clock is read at `now`, and at `later` after the request; the flag says whether a
  -- request was made.
  unfoldable pub key :
      Text
      → ℕ
      → ℕ
      → Option KeysResponse
      → KeyCache
      → Result GoogleError DecodingKey × Bool × KeyCache
  unfolding fetch_keys
  key kid now later answered cache = elim (cached_key kid now cache) [
    | some found ↦ (ok found, false, cache)
    | none ↦
        if too_soon now cache
        then (err keys_unavailable, false, cache)
        else elim (fetch_keys lib rsa_bits answered) [
          | err e ↦ (err e, true, record cache { last_attempt = some now })
          | ok (keys, freshness) ↦ (
            ok_or (get kid keys) keys_unavailable,
            true,
            record { keys = keys; fresh_until = later + freshness; last_attempt = some now },
          )
        ]
  ]
