-- ===== src/Google/Spacing.antt =====
-- google.rs: how often the signing keys are requested.
use eri.Common.{
  ℕ, ◌+◌, ◌≤◌, ◌≡◌, ◌⊎◌, inl, inr, refl, arith, ap, sym, ◌∙◌, subst, Text, Bool, true, false,
  Option, none, some, List, [], ◌∷◌, Result,
}
use eri.External.{Libs}
use eri.Google.{GoogleError, unknown_kid_backoff}
use eri.Google.Keys.{DecodingKey, KeysResponse, KeyCache, too_soon, key}

abbrev pub noted : Bool → ℕ → List ℕ → List ℕ
noted true now requests = now ∷ requests
noted false now requests = requests

-- The caches that calls of `key` reach, one after the other, from a cache that was never filled,
-- and the times of their requests, the latest first.
pub data Calls (lib : Libs) (rsa_bits : Text → Text → Option ℕ) : KeyCache → List ℕ → Type 0 where
  opened : (cache : KeyCache) → cache.last_attempt ≡ none → Calls lib rsa_bits cache []
  called :
      (kid : Text) (now later : ℕ) (answered : Option KeysResponse) (cache next : KeyCache)
      (requests all_requests : List ℕ) (result : Result GoogleError DecodingKey) (made : Bool)
      → Calls lib rsa_bits cache requests
      → key lib rsa_bits kid now later answered cache ≡ (result, made, next)
      → all_requests ≡ noted made now requests
      → Calls lib rsa_bits next all_requests

abbrev first_of : List ℕ → Option ℕ
first_of [] = none
first_of (t ∷ _) = some t

-- Each request comes five seconds after the one before it, or later.
abbrev pub AreSpaced : List ℕ → Type 0
AreSpaced [] = Unit
AreSpaced (t ∷ []) = Unit
AreSpaced (t ∷ earlier ∷ requests) =
    (earlier + unknown_kid_backoff ≤ t) × AreSpaced (earlier ∷ requests)

module _ (lib : Libs) (rsa_bits : Text → Text → Option ℕ) where
  -- A call makes no request and leaves the cache, or makes one when it is not too soon.
  key-cases :
      (kid : Text) (now later : ℕ) (answered : Option KeysResponse) (cache next : KeyCache)
      (result : Result GoogleError DecodingKey) (made : Bool)
      → key lib rsa_bits kid now later answered cache ≡ (result, made, next)
      → ((made ≡ false) × (next ≡ cache))
        ⊎ ((made ≡ true) × (too_soon now cache ≡ false) × (next.last_attempt ≡ some now))
  unfolding key
  key-cases kid now later answered cache next result false run = inl (refl, ground arith)
  key-cases kid now later answered cache next result true run =
      inr (refl, ground arith, ground arith)

  AreSpaced-noted :
      (now : ℕ) (requests : List ℕ) (cache : KeyCache)
      → cache.last_attempt ≡ first_of requests
      → too_soon now cache ≡ false
      → AreSpaced requests
      → AreSpaced (now ∷ requests)
  AreSpaced-noted now [] cache last soon spaced = tt
  AreSpaced-noted now (earlier ∷ requests) cache last soon spaced = (ground arith, spaced)

  Calls-invariant :
      (cache : KeyCache) (requests : List ℕ)
      → Calls lib rsa_bits cache requests
      → (cache.last_attempt ≡ first_of requests) × AreSpaced requests
  Calls-invariant cache _ (opened _ new) = (new, tt)
  Calls-invariant next all_requests
        (called kid now later answered cache _ requests _ result made before run all) =
      let (last, spaced) = Calls-invariant cache requests before in
      elim (key-cases kid now later answered cache next result made run) [
        | inl (none_made, same) ↦
            let e : all_requests ≡ requests = all ∙ ap (λ m. noted m now requests) none_made in
            (
              ap (λ (c : KeyCache). c.last_attempt) same ∙ last ∙ ap first_of (sym e),
              subst AreSpaced (sym e) spaced,
            )
        | inr (was_made, soon, stamped) ↦
            let e : all_requests ≡ now ∷ requests = all ∙ ap (λ m. noted m now requests) was_made in
            (
              stamped ∙ ap first_of (sym e),
              subst AreSpaced (sym e) (AreSpaced-noted now requests cache last soon spaced),
            )
      ]

  -- However many calls ask for a key that is missing, each request for the signing keys comes at least five seconds after the one before it, whether that one failed or not.
  pub Calls-AreSpaced :
      (cache : KeyCache) (requests : List ℕ)
      → Calls lib rsa_bits cache requests
      → AreSpaced requests
  Calls-AreSpaced cache requests calls = (Calls-invariant cache requests calls).1
