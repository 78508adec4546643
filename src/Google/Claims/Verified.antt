-- ===== src/Google/Claims/Verified.antt =====
-- google.rs: what an accepted identity token states.
use eri.Common.{
  ℕ, ◌+◌, ◌≤◌, ◌≡◌, ◌≢◌, ◌⊎◌, inl, inr, refl, arith, Text, bytes, true, false, not, ◌&&◌, Option,
  none, some, List, [], ◌∷◌, In, length, any, ltb, ◌==◌, text_eq, text_beq_iff, is_some_and, ok,
  Bool-cases, ap, sym, ◌∙◌,
}
use eri.Common.Int.{ℤ, pos, negsuc, saturating_add, is_below, is_above, is_negative, magnitude}
use eri.Identity.{VerifiedGoogleIdentity}
use eri.Google.{clock_skew}
use eri.Google.Claims.{
  Audience, single, many, BoolClaim, boolean, text, is_true, Claims, is_google, bad_claims, aud_ok,
  is_multiple, bad_audience, filled, verified_email, validate_claims,
}

-- The client is an audience, and the authorized party where the token names one or has several.
abbrev pub IsAudience : Claims → Text → Type 0
IsAudience claims client_id =
    ((claims.aud ≡ single client_id)
      ⊎ ((v : List Text) × (claims.aud ≡ many v)
          × In client_id v
          × ((length v ≤ 1) ⊎ (claims.azp ≡ some client_id))))
    × ((claims.azp ≡ none) ⊎ (claims.azp ≡ some client_id))

-- Not in the future, beyond the skew, and not negative.
abbrev pub IsPast : ℤ → ℕ → Type 0
IsPast t now = (seconds : ℕ) × (t ≡ pos seconds) × (seconds ≤ now + clock_skew)

pub record IsVerified (claims : Claims) (client_id nonce : Text) (now : ℕ)
    (identity : VerifiedGoogleIdentity) : Type 0 where
  pub issuer :
      (claims.iss ≡ bytes "accounts.google.com")
      ⊎ (claims.iss ≡ bytes "https://accounts.google.com")
  pub subject : identity.subject ≡ claims.sub
  pub some_subject : 1 ≤ length claims.sub
  pub subject_bound : length claims.sub ≤ 255
  pub same_nonce : claims.nonce ≡ nonce
  pub audience : IsAudience claims client_id
  pub unexpired : now ≤ magnitude claims.exp + clock_skew
  pub issued : IsPast claims.iat now
  pub authenticated : (t : ℤ) → claims.auth_time ≡ some t → IsPast t now
  pub email :
      (address : Text)
      → identity.verified_email ≡ some address
      → (claims.email ≡ some address)
        × (address ≢ [])
        × ((claims.email_verified ≡ some (boolean true))
            ⊎ (claims.email_verified ≡ some (text (bytes "true"))))

is_google-cases :
    (iss : Text)
    → is_google iss ≡ true
    → (iss ≡ bytes "accounts.google.com") ⊎ (iss ≡ bytes "https://accounts.google.com")
is_google-cases iss h = elim (Bool-cases (iss == bytes "accounts.google.com")) [
  | inl short ↦ inl ((text_beq_iff iss (bytes "accounts.google.com")).0 short)
  | inr other ↦ inr ((text_beq_iff iss (bytes "https://accounts.google.com")).0 (ground arith))
]

IsPast-of_tests :
    (t : ℤ) (now : ℕ) → is_negative t ≡ false → is_above t (now + clock_skew) ≡ false → IsPast t now
IsPast-of_tests (pos n) now sign late = (n, refl, ground arith)
IsPast-of_tests (negsuc n) now sign late = absurd (ground arith)

unexpired-of_test :
    (t : ℤ) (now : ℕ)
    → is_below (saturating_add t clock_skew) now ≡ false
    → now ≤ magnitude t + clock_skew
unexpired-of_test (pos n) now h = ground arith
unexpired-of_test (negsuc n) now h = ground arith

azp-cases :
    (azp : Option Text) (client_id : Text)
    → is_some_and (λ v. not (v == client_id)) azp ≡ false
    → (azp ≡ none) ⊎ (azp ≡ some client_id)
azp-cases none client_id h = inl refl
azp-cases (some v) client_id h = inr (ground (arith, text_beq_iff v client_id))

any-eq : (client_id : Text) (v : List Text) → any (λ a. a == client_id) v ≡ true → In client_id v
unfolding any
any-eq client_id [] h = cc
any-eq client_id (x ∷ v) h = elim (Bool-cases (x == client_id)) [
  | inl same ↦ inl ((text_beq_iff x client_id).0 same)
  | inr other ↦ inr (any-eq client_id v (ground arith))
]

audience-cases :
    (aud : Audience) (azp : Option Text) (client_id : Text)
    → aud_ok aud client_id ≡ true
    → (is_multiple aud && not (is_some_and (λ v. v == client_id) azp)) ≡ false
    → (aud ≡ single client_id)
      ⊎ ((v : List Text) × (aud ≡ many v)
          × In client_id v
          × ((length v ≤ 1) ⊎ (azp ≡ some client_id)))
audience-cases (single v) azp client_id h k = inl (ap single ((text_beq_iff v client_id).0 h))
audience-cases (many v) none client_id h k = inr (v, refl, any-eq client_id v h, inl (ground arith))
audience-cases (many v) (some z) client_id h k = elim (Bool-cases (ltb 1 (length v))) [
  | inl several ↦
      inr (v, refl, any-eq client_id v h, inr (ground (arith, text_beq_iff z client_id)))
  | inr few ↦ inr (v, refl, any-eq client_id v h, inl (ground arith))
]

is_true-cases :
    (claim : Option BoolClaim)
    → is_some_and is_true claim ≡ true
    → (claim ≡ some (boolean true)) ⊎ (claim ≡ some (text (bytes "true")))
is_true-cases none h = cc
is_true-cases (some (boolean b)) h = inl (ground arith)
is_true-cases (some (text v)) h =
    inr (ap (λ t. some (text t)) ((text_beq_iff v (bytes "true")).0 h))

filled-some :
    (email : Option Text) (address : Text)
    → filled email ≡ some address
    → (email ≡ some address) × (address ≢ [])
filled-some none address h = cc
filled-some (some []) address h = cc
filled-some (some (b ∷ v)) address h = (h, ground arith)

module _ (claims : Claims) where
  email-cases :
      (address : Text)
      → verified_email claims ≡ some address
      → (claims.email ≡ some address)
        × (address ≢ [])
        × ((claims.email_verified ≡ some (boolean true))
            ⊎ (claims.email_verified ≡ some (text (bytes "true"))))
  email-cases address h =
      let verified : is_some_and is_true claims.email_verified ≡ true = ground arith in
      let (stated, nonempty) = filled-some claims.email address (ground arith) in
      (stated, nonempty, is_true-cases claims.email_verified verified)

  module _ (client_id nonce : Text) (now : ℕ) (identity : VerifiedGoogleIdentity)
      (run : validate_claims claims client_id nonce now ≡ ok identity) where
    validate_claims-tests :
        (bad_claims claims nonce now ≡ false)
        × (bad_audience claims client_id ≡ false)
        × (identity.subject ≡ claims.sub)
        × (identity.verified_email ≡ verified_email claims)
    unfolding validate_claims
    validate_claims-tests = (ground arith, ground arith, ground arith, ground arith)

    -- An identity token is accepted only from Google, for the expected nonce, with this client as its audience and, where it names one or has several audiences, as its authorized party; it has not expired, it was issued and the user authenticated in the past, within 30 seconds of skew. The identity has its subject, of 1 to 255 bytes, and an e-mail address only where the token states it as verified.
    pub validate_claims-IsVerified : IsVerified claims client_id nonce now identity
    validate_claims-IsVerified =
        let (good, audience, subject, email) = validate_claims-tests in
        record {
          issuer = is_google-cases claims.iss (ground arith);
          subject = subject;
          some_subject = ground arith;
          subject_bound = ground arith;
          same_nonce = ground (arith, text_beq_iff claims.nonce nonce);
          audience = (
            audience-cases claims.aud claims.azp client_id (ground arith) (ground arith),
            azp-cases claims.azp client_id (ground arith),
          );
          unexpired = unexpired-of_test claims.exp now (ground arith);
          issued = IsPast-of_tests claims.iat now (ground arith) (ground arith);
          authenticated = λ t stated. IsPast-of_tests t now (ground arith) (ground arith);
          email = λ address h. email-cases address (sym email ∙ h);
        }
