-- ===== src/Tests/Google.antt =====
-- Google's claims and keys, at concrete inputs.
use eri.Common.{
  ℕ, ◌≡◌, Text, bytes, true, false, none, some, [], ◌∷◌, all, any, refl, ok, err, text_beq, split,
  trim_start_by, trim_end_by, strip_prefix, parse_u64, digits_value,
}
use eri.Common.HashMap
use eri.Common.Int.{pos}
use eri.Google.{keys_unavailable, cache_freshness, first_max_age}
use eri.Google.Claims.{Claims, single, boolean, validate_claims}
use eri.Google.Claims.Verified.{IsVerified}
use eri.Google.Keys.{KeyCache, fetch_keys, key}
use eri.Google.Spacing.{opened, called, AreSpaced, Calls-AreSpaced}
use eri.Identity.{VerifiedGoogleIdentity}
use eri.Tests.Demo.{fill, verifier}
use eri.External.{object, end}
use eri.Google.{valid_opaque, valid_pkce_verifier}
use eri.Google.Keys.{DecodingKey}
use eri.Google.Login.{
  Jwt, GoogleAdapter, field, has_unsupported_crit, secret, read_header, check_token,
  verify_id_token, read_answer, exchange_code, key_of, exchange_code-IsVerified,
}
use eri.Tests.Demo.{lib}

abbrev claims : Claims
claims = record {
  iss = bytes "https://accounts.google.com";
  sub = bytes "42";
  aud = single (bytes "client");
  azp = none;
  exp = pos 1_300;
  iat = pos 1_000;
  nbf = none;
  nonce = bytes "n";
  auth_time = some (pos 900);
  name = some (bytes "Ana");
  given_name = none;
  family_name = none;
  picture = none;
  email = some (bytes "ana@example.org");
  email_verified = some (boolean true);
}

abbrev identity : VerifiedGoogleIdentity
identity = record {
  subject = bytes "42";
  name = some (bytes "Ana");
  given_name = none;
  family_name = none;
  picture = none;
  verified_email = some (bytes "ana@example.org");
  auth_time = some 900_000_000;
}

-- Every token has the claims, and every pair of numbers is a key of 2048 bits.
abbrev jwt : Jwt
jwt = record {
  decode_header =
      λ token. some (record { alg = bytes "RS256"; typ = none; kid = some (bytes "k") });
  decode = λ token decoding. some claims;
  parse_json = λ s. some (object end);
  rsa_bits = λ n e. some 2048;
}

abbrev adapter : GoogleAdapter
adapter = record {
  client_id = bytes "client";
  callback = bytes "https://id.example/federation/google/callback";
  authorize_endpoint = bytes "https://accounts.google.com/o/oauth2/v2/auth";
}

abbrev decoding : DecodingKey
decoding = record { n = bytes "n"; e = bytes "e" }

abbrev filled : KeyCache
filled = record { keys = (bytes "k", decoding) ∷ []; fresh_until = 10; last_attempt = some 0 }

exchange_code-IsVerified_example :
    (id_token : Text) × (kid : Text) × (used : DecodingKey) × (read : Claims) × (some
        (bytes "h.p.s")
      ≡ some id_token)
    × (read_header lib jwt adapter id_token (bytes "n") ≡ ok kid)
    × (key_of lib jwt adapter kid 5 5 none filled ≡ ok used)
    × (jwt.decode id_token used ≡ some read)
    × IsVerified read adapter.client_id (bytes "n") 1_010 identity
unfolding exchange_code verify_id_token read_answer read_header secret check_token
    has_unsupported_crit field valid_opaque valid_pkce_verifier validate_claims key HashMap.get all
    text_beq split fill
exchange_code-IsVerified_example =
    exchange_code-IsVerified lib jwt adapter (bytes "code") verifier (bytes "n") (some (bytes "s"))
      (some (bytes "h.p.s")) 5 5 1_010 none filled filled identity refl

abbrev empty : KeyCache
empty = record { keys = []; fresh_until = 0; last_attempt = none }

-- Two requests that fail, and a call between them.
abbrev tried : ℕ → KeyCache
tried t = record empty { last_attempt = some t }

Calls-AreSpaced_example : AreSpaced (9 ∷ 2 ∷ [])
unfolding key fetch_keys
Calls-AreSpaced_example = Calls-AreSpaced lib jwt.rsa_bits (tried 9) (9 ∷ 2 ∷ []) (
    called (bytes "k") 9 9 none (tried 2) (tried 9) (2 ∷ []) (9 ∷ 2 ∷ []) (err keys_unavailable)
      true
      (called (bytes "k") 4 4 none (tried 2) (tried 2) (2 ∷ []) (2 ∷ []) (err keys_unavailable)
        false
        (called (bytes "k") 2 2 none empty (tried 2) [] (2 ∷ []) (err keys_unavailable) true
          (opened empty refl) refl refl)
        refl refl)
      refl refl)

freshness :
    (cache_freshness (some (bytes "public, max-age=900")) (some (bytes "100")) ≡ 800)
    × (cache_freshness (some (bytes "max-age=9000")) none ≡ 3600)
    × (cache_freshness (some (bytes "max-age=900, no-store")) none ≡ 0)
unfolding cache_freshness first_max_age split trim_start_by trim_end_by text_beq strip_prefix any
    all parse_u64 digits_value
freshness = (refl, refl, refl)
