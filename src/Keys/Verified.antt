-- ===== src/Keys/Verified.antt =====
-- keys.rs: `verify`, with the keys that `load` has read.
use eri.Common.{
  ◌≡◌, Text, bytes, true, false, some, In, ◌==◌, text_eq, text_beq_iff, ok, arith, subst, sym, ap,
  ◌∙◌, Option-cases, Result-cases, inl, inr,
}
use eri.Common.HashMap
use eri.External.{Libs}
use eri.Google.Keys.{DecodingKey}
use eri.Google.Login.{JwtHeader}
use eri.Tokens.{AccessClaims}
use eri.Keys.{
  Manifest, Jwk, Rsa, Decoder, SigningKeys, has_unsupported_crit, find_key, verify, load,
}
use eri.Keys.Published.{IsPublished, IsLoaded, load-IsLoaded}

module _ (lib : Libs) (rsa : Rsa) (decoder : Decoder) where
  find_key-parts :
      (keys : SigningKeys) (token typ refusal : Text) (key : DecodingKey)
      → find_key lib decoder keys token typ refusal ≡ ok key
      → (header : JwtHeader) × (kid : Text) × (decoder.header token ≡ some header)
        × (header.alg ≡ bytes "RS256")
        × (header.typ ≡ some typ)
        × (has_unsupported_crit lib decoder token ≡ false)
        × (header.kid ≡ some kid)
        × (HashMap.get kid keys.decoding ≡ some key)
  unfolding find_key
  find_key-parts keys token typ refusal key run = elim (Option-cases (decoder.header token)) [
    | inl missing ↦ absurd (ground arith)
    | inr (header, read) ↦ elim (Option-cases header.kid) [
      | inl missing ↦ absurd (ground arith)
      | inr (kid, named) ↦ elim (Option-cases header.typ) [
        | inl untyped ↦ absurd (ground arith)
        | inr (t, typed) ↦ elim (Option-cases (HashMap.get kid keys.decoding)) [
          | inl unknown ↦ absurd (ground arith)
          | inr (found, known) ↦
              let same : (t == typ) ≡ true = ground arith in
              let rs : (header.alg == bytes "RS256") ≡ true = ground arith in
              (
                header,
                kid,
                read,
                (text_beq_iff header.alg (bytes "RS256")).0 rs,
                typed ∙ ap some ((text_beq_iff t typ).0 same),
                ground arith,
                named,
                ground arith,
              )
        ]
      ]
    ]
  ]

  -- An accepted token: its header, and the published key that it was checked under.
  pub record IsVerified (m : Manifest) (keys : SigningKeys) (token issuer audience : Text)
      (claims : AccessClaims) : Type 0 where
    pub loaded : IsLoaded lib rsa m keys
    pub header : JwtHeader
    pub jwk : Jwk
    pub read : decoder.header token ≡ some header
    pub algorithm : header.alg ≡ bytes "RS256"
    pub access : header.typ ≡ some (bytes "at+jwt")
    pub not_critical : has_unsupported_crit lib decoder token ≡ false
    pub named : header.kid ≡ some jwk.kid
    pub shown : In jwk loaded.gathered.jwks
    pub published : IsPublished lib rsa loaded.gathered jwk
    pub checked : decoder.decode token published.decoded issuer audience ≡ some claims

  -- With keys that load, a token is accepted as an access token only if its header states RS256, the type of access tokens, no extension that must be understood, and the identifier of a published key, under which the library accepts it for the issuer and the audience.
  pub verify-IsVerified :
      (m : Manifest) (keys : SigningKeys)
      → load lib rsa m ≡ ok keys
      → (token issuer audience : Text) (claims : AccessClaims)
      → verify lib decoder keys token issuer audience ≡ ok claims
      → IsVerified m keys token issuer audience claims
  unfolding verify
  verify-IsVerified m keys run token issuer audience claims accepted =
      let refusal = bytes "token algorithm or type is invalid" in
      elim (Result-cases (find_key lib decoder keys token (bytes "at+jwt") refusal)) [
        | inr (e, refused) ↦ absurd (ground arith)
        | inl (key, found) ↦
            let (header, kid, read, algorithm, access, plain, named, known) =
              find_key-parts keys token (bytes "at+jwt") refusal key found in
            let l = load-IsLoaded lib rsa m keys run in
            let (jwk, at, e) =
              l.consistent.known kid key
                (subst (λ d. HashMap.get kid d ≡ some key) (sym l.same_keys) known) in
            let p = l.consistent.each jwk at in
            let same : some p.decoded ≡ some key =
              sym p.verifies
              ∙ ap (λ k. HashMap.get k l.gathered.decoding) e
              ∙ ap (λ d. HashMap.get kid d) l.same_keys
              ∙ known in
            let same_key : p.decoded ≡ key = ground arith in
            record {
              loaded = l;
              header = header;
              jwk = jwk;
              read = read;
              algorithm = algorithm;
              access = access;
              not_critical = plain;
              named = named ∙ ap some (sym e);
              shown = at;
              published = p;
              checked = ap (λ d. decoder.decode token d issuer audience) same_key ∙ ground arith;
            }
      ]
