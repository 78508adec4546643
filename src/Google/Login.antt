-- ===== src/Google/Login.antt =====
-- google.rs: the request to Google, the exchange of its code, and the identity token.
use eri.Common.{
  ℕ, ◌≡◌, Text, bytes, Bool, true, false, not, ◌||◌, Option, none, some, List, [], ◌∷◌, ◌++◌,
  length, is_empty, ltb, ◌==◌, text_eq, is_some_and, Result, ok, err, ◌>>=◌, ◌>>◌, ok_or, refuse_if,
  if◌then◌else◌, split, arith, refl, Result-cases, Option-cases, inl, inr,
}
use eri.External.{Libs, Url, Json, array, object, done, Members, end, member}
use eri.Identity.{VerifiedGoogleIdentity}
use eri.Google.{
  GoogleError, invalid_configuration, secret_unavailable, invalid_authorization_input,
  token_exchange, invalid_identity_token, max_token_response, valid_opaque, valid_pkce_verifier,
  valid_s256_challenge,
}
use eri.Google.Claims.{Claims, validate_claims}
use eri.Google.Claims.Verified.{IsVerified, validate_claims-IsVerified}
use eri.Google.Keys.{DecodingKey, KeysResponse, KeyCache, key}

pub record JwtHeader : Type 0 where
  pub alg : Text
  pub typ : Option Text
  pub kid : Option Text

-- The crates that read a token: its header, its claims under a key (RS256, with the expiry and the
-- audience left to this code), any value of JSON, and the bits of a key.
pub record Jwt : Type 0 where
  pub decode_header : Text → Option JwtHeader
  pub decode : Text → DecodingKey → Option Claims
  pub parse_json : Text → Option Json
  pub rsa_bits : Text → Text → Option ℕ

-- `Value::get` at a field of an object.
unfoldable pub field : Text → Members → Option Json
field name end = none
field name (member k value rest) =
    let later = field name rest in if k == name then some value else later

abbrev pub first_segment : List Text → Text
first_segment [] = []
first_segment (segment ∷ _) = segment

abbrev pub bad_crit : Json → Bool
bad_crit (array done) = false
bad_crit _ = true

abbrev pub states_crit : Json → Bool
states_crit (object members) = is_some_and bad_crit (field (bytes "crit") members)
states_crit _ = false

-- `GoogleAdapter`, less the client of HTTP.
pub record GoogleAdapter : Type 0 where
  pub client_id : Text
  pub callback : Text
  pub authorize_endpoint : Text

abbrev filled : Option Text → Option Text
filled none = none
filled (some secret) = if is_empty secret then none else some secret

module _ (lib : Libs) (adapter : GoogleAdapter) where
  -- The parameters of the request, in their order.
  abbrev pub authorization_pairs : Text → Text → Text → Bool → List (Text × Text)
  authorization_pairs state nonce challenge select_account =
      ((bytes "client_id", adapter.client_id)
        ∷ (bytes "redirect_uri", adapter.callback)
        ∷ (bytes "response_type", bytes "code")
        ∷ (bytes "scope", bytes "openid profile email")
        ∷ (bytes "state", state)
        ∷ (bytes "nonce", nonce)
        ∷ (bytes "code_challenge", challenge)
        ∷ (bytes "code_challenge_method", bytes "S256")
        ∷ (bytes "access_type", bytes "online")
        ∷ [])
      ++ (if select_account then (bytes "prompt", bytes "select_account") ∷ [] else [])

  -- The URL, and the pairs that are appended to its query.
  unfoldable pub authorization_url :
      Text → Text → Text → Bool → Result GoogleError (Url × List (Text × Text))
  authorization_url state nonce challenge select_account = do
    refuse_if
        (not (valid_opaque state)
          || not (valid_opaque nonce)
          || not (valid_s256_challenge lib challenge))
        invalid_authorization_input
    url ← ok_or (lib.parse_url adapter.authorize_endpoint) invalid_configuration
    ok (url, authorization_pairs state nonce challenge select_account)

-- `secret`, for the value of the environment's variable.
unfoldable pub secret : Option Text → Result GoogleError Text
secret variable = ok_or (filled variable) secret_unavailable

module _ (lib : Libs) (jwt : Jwt) (adapter : GoogleAdapter) where
  unfoldable pub has_unsupported_crit : Text → Bool
  unfolding field
  has_unsupported_crit token = elim (lib.base64_decode (first_segment (split b'.' token))) [
    | none ↦ true
    | some decoded ↦ elim (jwt.parse_json decoded) [ none ↦ true | some value ↦ states_crit value ]
  ]

  -- The guards of `verify_id_token` before it asks for a key, and the key's identifier.
  unfoldable pub read_header : Text → Text → Result GoogleError Text
  read_header token expected_nonce = do
    refuse_if (ltb max_token_response (length token) || not (valid_opaque expected_nonce))
        invalid_identity_token
    header ← ok_or (jwt.decode_header token) invalid_identity_token
    refuse_if
        (not (header.alg == bytes "RS256")
          || has_unsupported_crit token
          || is_some_and (λ v. not (v == bytes "JWT")) header.typ)
        invalid_identity_token
    kid ← ok_or header.kid invalid_identity_token
    refuse_if (is_empty kid || ltb 128 (length kid)) invalid_identity_token
    ok kid

  -- The claims under the key.
  unfoldable pub check_token :
      Text → Text → ℕ → DecodingKey → Result GoogleError VerifiedGoogleIdentity
  check_token token expected_nonce now decoding = do
    claims ← ok_or (jwt.decode token decoding) invalid_identity_token
    validate_claims claims adapter.client_id expected_nonce now

  -- `verify_id_token`: `instant` and `later` are the clock's readings for the cache, `now` the time.
  unfoldable pub verify_id_token :
      Text
      → Text
      → ℕ
      → ℕ
      → ℕ
      → Option KeysResponse
      → KeyCache
      → Result GoogleError VerifiedGoogleIdentity × KeyCache
  verify_id_token token expected_nonce instant later now answered cache =
      elim (read_header token expected_nonce) [
        | err e ↦ (err e, cache)
        | ok kid ↦
            let (found, made, after) = key lib jwt.rsa_bits kid instant later answered cache in
            ((do decoding ← found; check_token token expected_nonce now decoding), after)
      ]

  -- The guards of `exchange_code`, and the token that the endpoint answers: none if no permit is
  -- free, the request fails, or the response is not 200, too long or no token response.
  unfoldable pub read_answer :
      Text → Text → Text → Option Text → Option Text → Result GoogleError Text
  read_answer code verifier expected_nonce variable answered = do
    refuse_if
        (not (valid_opaque code)
          || not (valid_pkce_verifier verifier)
          || not (valid_opaque expected_nonce))
        invalid_authorization_input
    _secret ← secret variable
    ok_or answered token_exchange

  unfoldable pub exchange_code :
      Text
      → Text
      → Text
      → Option Text
      → Option Text
      → ℕ
      → ℕ
      → ℕ
      → Option KeysResponse
      → KeyCache
      → Result GoogleError VerifiedGoogleIdentity × KeyCache
  exchange_code code verifier expected_nonce variable token instant later now answered cache =
      elim (read_answer code verifier expected_nonce variable token) [
        | err e ↦ (err e, cache)
        | ok id_token ↦ verify_id_token id_token expected_nonce instant later now answered cache
      ]

  check_token-IsVerified :
      (token expected_nonce : Text) (now : ℕ) (found : Result GoogleError DecodingKey)
      (identity : VerifiedGoogleIdentity)
      → (found >>= check_token token expected_nonce now) ≡ ok identity
      → (decoding : DecodingKey) × (claims : Claims) × (found ≡ ok decoding)
        × (jwt.decode token decoding ≡ some claims)
        × IsVerified claims adapter.client_id expected_nonce now identity
  unfolding check_token
  check_token-IsVerified token expected_nonce now (err e) identity run = cc
  check_token-IsVerified token expected_nonce now (ok decoding) identity run =
      elim (Option-cases (jwt.decode token decoding)) [
        | inl refused ↦ absurd (ground arith)
        | inr (claims, decoded) ↦ (
          decoding,
          claims,
          refl,
          decoded,
          validate_claims-IsVerified claims adapter.client_id expected_nonce now identity
              (ground arith),
        )
      ]

  -- The key that a token names, as the cache gives it.
  abbrev pub key_of : Text → ℕ → ℕ → Option KeysResponse → KeyCache → Result GoogleError DecodingKey
  key_of kid instant later answered cache =
      (key lib jwt.rsa_bits kid instant later answered cache).0

  -- An identity is given for a code only where the token endpoint has answered, Google's key of the token's identifier verifies it, and its claims pass: they are from Google, for the expected nonce, with this client as audience and, where the token names one or has several audiences, as authorized party, unexpired and of the past within 30 seconds of skew. The identity has their subject, of 1 to 255 bytes, and an e-mail address only where they state it as verified.
  pub exchange_code-IsVerified :
      (code verifier expected_nonce : Text) (variable token : Option Text) (instant later now : ℕ)
      (answered : Option KeysResponse) (cache after : KeyCache) (identity : VerifiedGoogleIdentity)
      → exchange_code code verifier expected_nonce variable token instant later now answered cache
        ≡ (ok identity, after)
      → (id_token : Text) × (kid : Text) × (decoding : DecodingKey) × (claims : Claims) × (token
          ≡ some id_token)
        × (read_header id_token expected_nonce ≡ ok kid)
        × (key_of kid instant later answered cache ≡ ok decoding)
        × (jwt.decode id_token decoding ≡ some claims)
        × IsVerified claims adapter.client_id expected_nonce now identity
  unfolding exchange_code verify_id_token read_answer
  exchange_code-IsVerified code verifier expected_nonce variable token instant later now answered
        cache after identity run =
      elim (Option-cases token) [
        | inl missing ↦ absurd (grind arith)
        | inr (id_token, given) ↦ elim (Result-cases (read_header id_token expected_nonce)) [
          | inr (e, refused) ↦ absurd (grind arith)
          | inl (kid, read) ↦
              let (decoding, claims, found, decoded, verified) =
                check_token-IsVerified id_token expected_nonce now
                  (key_of kid instant later answered cache) identity (grind arith) in
              (id_token, kid, decoding, claims, given, read, found, decoded, verified)
        ]
      ]
