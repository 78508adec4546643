-- ===== src/Google/Claims.antt =====
-- google.rs: the claims of Google's identity token, and their validation.
pub mod Verified
use eri.Common.{
  ℕ, ◌+◌, ◌*◌, ◌≤◌, ◌≡◌, ◌≢◌, ◌⊎◌, inl, inr, refl, arith, Text, bytes, Bool, true, false, not, ◌&&◌,
  ◌||◌, Option, none, some, List, [], ◌∷◌, In, length, is_empty, any, all, ltb, ◌==◌, text_eq,
  text_beq_iff, is_some_and, Result, ok, ◌>>◌, refuse_if, if◌then◌else◌, Bool-cases, ap, sym, ◌∙◌,
}
use eri.Common.Int.{ℤ, pos, negsuc, saturating_add, is_below, is_above, is_negative, magnitude}
use eri.Identity.{VerifiedGoogleIdentity}
use eri.Google.{GoogleError, invalid_identity_token, clock_skew}

pub data Audience : Type 0 where
  single : Text → Audience
  many : List Text → Audience

pub data BoolClaim : Type 0 where
  boolean : Bool → BoolClaim
  text : Text → BoolClaim

abbrev pub is_true : BoolClaim → Bool
is_true (boolean b) = b
is_true (text v) = v == bytes "true"

pub record Claims : Type 0 where
  pub iss : Text
  pub sub : Text
  pub aud : Audience
  pub azp : Option Text
  pub exp : ℤ
  pub iat : ℤ
  pub nbf : Option ℤ
  pub nonce : Text
  pub auth_time : Option ℤ
  pub name : Option Text
  pub given_name : Option Text
  pub family_name : Option Text
  pub picture : Option Text
  pub email : Option Text
  pub email_verified : Option BoolClaim

abbrev pub is_google : Text → Bool
is_google iss = iss == bytes "accounts.google.com" || iss == bytes "https://accounts.google.com"

-- The first guard.
abbrev pub bad_claims : Claims → Text → ℕ → Bool
bad_claims claims nonce now =
    not (is_google claims.iss)
    || is_empty claims.sub
    || ltb 255 (length claims.sub)
    || not (all (λ b. ltb b 128) claims.sub)
    || not (claims.nonce == nonce)
    || is_below (saturating_add claims.exp clock_skew) now
    || is_negative claims.iat
    || is_above claims.iat (now + clock_skew)
    || is_some_and (λ v. is_above v (now + clock_skew)) claims.nbf
    || is_some_and (λ v. is_negative v || is_above v (now + clock_skew)) claims.auth_time

abbrev pub aud_ok : Audience → Text → Bool
aud_ok (single v) client_id = v == client_id
aud_ok (many v) client_id = any (λ a. a == client_id) v

abbrev pub is_multiple : Audience → Bool
is_multiple (single v) = false
is_multiple (many v) = ltb 1 (length v)

-- The second guard.
abbrev pub bad_audience : Claims → Text → Bool
bad_audience claims client_id =
    not (aud_ok claims.aud client_id)
    || is_some_and (λ v. not (v == client_id)) claims.azp
    || (is_multiple claims.aud && not (is_some_and (λ v. v == client_id) claims.azp))

abbrev pub filled : Option Text → Option Text
filled none = none
filled (some v) = if is_empty v then none else some v

abbrev pub verified_email : Claims → Option Text
verified_email claims =
    if is_some_and is_true claims.email_verified then filled claims.email else none

-- The identity keeps the time in microseconds, as the store takes it.
abbrev micros : Option ℤ → Option ℕ
micros none = none
micros (some t) = some (magnitude t * 1_000_000)

unfoldable pub validate_claims :
    Claims → Text → Text → ℕ → Result GoogleError VerifiedGoogleIdentity
unfolding any all
validate_claims claims client_id nonce now = do
  refuse_if (bad_claims claims nonce now) invalid_identity_token
  refuse_if (bad_audience claims client_id) invalid_identity_token
  ok (record {
    subject = claims.sub;
    name = claims.name;
    given_name = claims.given_name;
    family_name = claims.family_name;
    picture = claims.picture;
    verified_email = verified_email claims;
    auth_time = micros claims.auth_time;
  })
