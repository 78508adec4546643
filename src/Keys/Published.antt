-- ===== src/Keys/Published.antt =====
-- keys.rs: the keys that verify tokens are the keys that are published.
use eri.Common.{
  ◌≤◌, ◌≡◌, ◌⊎◌, inl, inr, Text, true, false, some, List, [], ◌∷◌, ◌++◌, In, any, ◌==◌, text_eq,
  text_beq_iff, ok, arith, refl, subst, sym, ap, ◌∙◌, Option-cases, Result-cases, Bool-cases,
}
use eri.Common.HashMap
use eri.External.{Libs}
use eri.Google.Keys.{DecodingKey}
use eri.Keys.{
  Manifest, ActiveKey, PublicKey, Jwk, RsaPublicKey, Rsa, Gathered, SigningKeys, check_kid,
  same_key, parse_public, parse_private, read_private_key, jwk_of, add_public, add_entries, nothing,
  load_active, load,
}

In-snoc : {A : Type 0} (a x : A) (xs : List A) → In a (xs ++ (x ∷ [])) → In a xs ⊎ (x ≡ a)
In-snoc a x [] (inl e) = inr e
In-snoc a x [] (inr i) = absurd i
In-snoc a x (y ∷ xs) (inl e) = inl (inl e)
In-snoc a x (y ∷ xs) (inr i) = elim (In-snoc a x xs i) [ inl j ↦ inl (inr j) | inr e ↦ inr e ]

In-of_old : {A : Type 0} (a x : A) (xs : List A) → In a xs → In a (xs ++ (x ∷ []))
In-of_old a x [] i = absurd i
In-of_old a x (y ∷ xs) (inl e) = inl e
In-of_old a x (y ∷ xs) (inr i) = inr (In-of_old a x xs i)

In-of_new : {A : Type 0} (x : A) (xs : List A) → In x (xs ++ (x ∷ []))
In-of_new x [] = inl refl
In-of_new x (y ∷ xs) = inr (In-of_new x xs)

module _ (lib : Libs) (rsa : Rsa) where
  -- A published key: a good identifier, a size, and the same key for the verification.
  pub record IsPublished (g : Gathered) (jwk : Jwk) : Type 0 where
    pub key : RsaPublicKey
    pub pem : Text
    pub decoded : DecodingKey
    pub good : check_kid jwk.kid ≡ ok tt
    pub parsed : parse_public lib rsa pem ≡ ok key
    pub shown : jwk_of lib rsa jwk.kid key ≡ jwk
    pub large : 2048 ≤ rsa.bits key.n
    pub read : rsa.decoding_key pem ≡ some decoded
    pub verifies : HashMap.get jwk.kid g.decoding ≡ some decoded
    pub noted : any (λ k. k == jwk.kid) g.seen ≡ true

  -- What the loop keeps.
  pub record IsConsistent (g : Gathered) : Type 0 where
    pub each : (jwk : Jwk) → In jwk g.jwks → IsPublished g jwk
    pub known :
        (kid : Text) (decoded : DecodingKey)
        → HashMap.get kid g.decoding ≡ some decoded
        → (jwk : Jwk) × In jwk g.jwks × (jwk.kid ≡ kid)

  -- What one call adds.
  added :
      (kid : Text) (key : RsaPublicKey) (pem : Text) (g after : Gathered)
      → add_public lib rsa kid key pem g ≡ ok after
      → (decoded : DecodingKey) × (any (λ k. k == kid) g.seen ≡ false)
        × (2048 ≤ rsa.bits key.n)
        × (rsa.decoding_key pem ≡ some decoded)
        × (after.seen ≡ kid ∷ g.seen)
        × (after.decoding ≡ HashMap.insert kid decoded g.decoding)
        × (after.jwks ≡ g.jwks ++ (jwk_of lib rsa kid key ∷ []))
  unfolding add_public
  added kid key pem g after run = elim (Option-cases (rsa.decoding_key pem)) [
    | inl refused ↦ absurd (ground arith)
    | inr (decoded, read) ↦
        (decoded, ground arith, ground arith, read, ground arith, ground arith, ground arith)
  ]

  module _ (kid : Text) (decoded : DecodingKey) (g : Gathered) where
    distinct :
        (jwk : Jwk)
        → IsPublished g jwk
        → any (λ k. k == kid) g.seen ≡ false
        → (kid == jwk.kid) ≡ false
    distinct jwk p fresh = elim (Bool-cases (kid == jwk.kid)) [
      | inr other ↦ other
      | inl same ↦
          let e = (text_beq_iff kid jwk.kid).0 same in
          let seen = subst (λ t. any (λ k. k == t) g.seen ≡ true) (sym e) p.noted in
          absurd (ground arith)
    ]

    -- A key that is published stays so when another is added.
    stays :
        (after : Gathered) (jwk : Jwk)
        → IsPublished g jwk
        → any (λ k. k == kid) g.seen ≡ false
        → after.seen ≡ kid ∷ g.seen
        → after.decoding ≡ HashMap.insert kid decoded g.decoding
        → IsPublished after jwk
    unfolding any
    stays after jwk p fresh seen stored =
        let other = distinct jwk p fresh in
        record {
          key = p.key;
          pem = p.pem;
          decoded = p.decoded;
          good = p.good;
          parsed = p.parsed;
          shown = p.shown;
          large = p.large;
          read = p.read;
          verifies = ground (arith, HashMap.get-insert kid jwk.kid decoded g.decoding, p.verifies);
          noted = rw (seen, other) p.noted;
        }

  add_public-keeps :
      (kid : Text) (key : RsaPublicKey) (pem : Text) (g after : Gathered)
      → IsConsistent g
      → check_kid kid ≡ ok tt
      → parse_public lib rsa pem ≡ ok key
      → add_public lib rsa kid key pem g ≡ ok after
      → IsConsistent after
  unfolding any
  add_public-keeps kid key pem g after c good parsed run =
      let (decoded, fresh, large, read, seen, stored, grown) = added kid key pem g after run in
      let self = (text_beq_iff kid kid).1 refl in
      let new = jwk_of lib rsa kid key in
      record {
        each = λ jwk at. elim (In-snoc jwk new g.jwks (subst (λ js. In jwk js) grown at)) [
          | inl old ↦ stays kid decoded g after jwk (c.each jwk old) fresh seen stored
          | inr e ↦ subst (IsPublished after) e (record {
            key = key;
            pem = pem;
            decoded = decoded;
            good = good;
            parsed = parsed;
            shown = refl;
            large = large;
            read = read;
            verifies = ground (arith, HashMap.get-insert kid kid decoded g.decoding, self);
            noted = rw (seen, self) refl;
          })
        ];
        known = λ k d found. elim (Bool-cases (kid == k)) [
          | inl same ↦ (
            new,
            subst (λ js. In new js) (sym grown) (In-of_new new g.jwks),
            (text_beq_iff kid k).0 same,
          )
          | inr other ↦
              let earlier : HashMap.get k g.decoding ≡ some d =
                ground (arith, HashMap.get-insert kid k decoded g.decoding) in
              let (jwk, at, e) = c.known k d earlier in
              (jwk, subst (λ js. In jwk js) (sym grown) (In-of_old jwk new g.jwks at), e)
        ];
      }

  -- A published key stays published when the rest of the manifest is added.
  add_entries-keeps :
      (entries : List PublicKey) (g after : Gathered) (jwk : Jwk)
      → IsConsistent g
      → In jwk g.jwks
      → add_entries lib rsa entries g ≡ ok after
      → IsConsistent after × In jwk after.jwks
  unfolding add_entries
  add_entries-keeps [] g after jwk c at run =
      let e : g ≡ after = ground arith in
      (subst IsConsistent e c, subst (λ (h : Gathered). In jwk h.jwks) e at)
  add_entries-keeps (entry ∷ entries) g after jwk c at run =
      elim (Result-cases (check_kid entry.kid)) [
        | inr (e, refused) ↦ absurd (ground arith)
        | inl (u, good) ↦ elim (Option-cases (rsa.file entry.public_key)) [
          | inl missing ↦ absurd (ground arith)
          | inr (pem, read) ↦ elim (Result-cases (parse_public lib rsa pem)) [
            | inr (e, refused) ↦ absurd (ground arith)
            | inl (key, parsed) ↦ elim (Result-cases (add_public lib rsa entry.kid key pem g)) [
              | inr (e, refused) ↦ absurd (ground arith)
              | inl (next, one) ↦
                  let (decoded, fresh, large, has, seen, stored, grown) =
                    added entry.kid key pem g next one in
                  add_entries-keeps entries next after jwk
                    (add_public-keeps entry.kid key pem g next c good parsed one)
                    (subst (λ js. In jwk js) (sym grown)
                      (In-of_old jwk (jwk_of lib rsa entry.kid key) g.jwks at))
                    (ground arith)
            ]
          ]
        ]
      ]

  nothing-IsConsistent : IsConsistent (nothing lib rsa)
  unfolding HashMap.get
  nothing-IsConsistent = record { each = λ jwk at. absurd at; known = λ kid d found. cc }

  matched : (a b : RsaPublicKey) → same_key a b ≡ true → a ≡ b
  matched a b h =
      let n = (text_beq_iff a.n b.n).0 (ground arith) in
      let e = (text_beq_iff a.e b.e).0 (ground arith) in ground arith

  -- The private key is that of a published one.
  load_active-IsConsistent :
      (active : ActiveKey) (private_pem : Text) (g : Gathered)
      → load_active lib rsa active ≡ ok (private_pem, g)
      → IsConsistent g
        × (key : RsaPublicKey) × (parse_private lib rsa private_pem ≡ ok key)
        × In (jwk_of lib rsa active.kid key) g.jwks
  unfolding load_active
  load_active-IsConsistent active private_pem g run = elim (Result-cases (check_kid active.kid)) [
    | inr (e, refused) ↦ absurd (ground arith)
    | inl (u, good) ↦ elim (Result-cases (read_private_key lib rsa active.private_key)) [
      | inr (e, refused) ↦ absurd (ground arith)
      | inl (pem, read) ↦ elim (Result-cases (parse_private lib rsa pem)) [
        | inr (e, refused) ↦ absurd (ground arith)
        | inl (private, own) ↦ elim (Option-cases (rsa.file active.public_key)) [
          | inl missing ↦ absurd (ground arith)
          | inr (public_pem, stored) ↦ elim (Result-cases (parse_public lib rsa public_pem)) [
            | inr (e, refused) ↦ absurd (ground arith)
            | inl (public, parsed) ↦
                elim (Result-cases
                  (add_public lib rsa active.kid public public_pem (nothing lib rsa))) [
                    | inr (e, refused) ↦ absurd (ground arith)
                    | inl (first, one) ↦
                        let e : first ≡ g = ground arith in
                        let (decoded, fresh, large, has, seen, kept, grown) =
                          added active.kid public public_pem (nothing lib rsa) first one in
                        let new = jwk_of lib rsa active.kid public in
                        (
                          subst IsConsistent e (
                              add_public-keeps active.kid public public_pem (nothing lib rsa) first
                                nothing-IsConsistent good parsed one),
                          public,
                          subst (λ t. parse_private lib rsa t ≡ ok public) (ground arith)
                              (own ∙ ap ok (matched private public (ground arith))),
                          subst (λ (h : Gathered). In new h.jwks) e
                              (subst (λ js. In new js) (sym grown) (inl refl)),
                        )
                  ]
          ]
        ]
      ]
    ]
  ]

  -- What a successful load gives.
  pub record IsLoaded (m : Manifest) (keys : SigningKeys) : Type 0 where
    pub gathered : Gathered
    pub private_pem : Text
    pub own_key : RsaPublicKey
    pub same_kid : keys.active_kid ≡ m.active.kid
    pub same_keys : gathered.decoding ≡ keys.decoding
    pub shown : rsa.show_jwks gathered.jwks ≡ some keys.jwks_json
    pub signs : rsa.encoding_key private_pem ≡ some keys.encoding
    pub own : parse_private lib rsa private_pem ≡ ok own_key
    pub active : In (jwk_of lib rsa m.active.kid own_key) gathered.jwks
    pub consistent : IsConsistent gathered

  -- Keys that load publish the public half of the key that signs, under its identifier. Each published key has a well-formed identifier and at least 2048 bits, and is the key by which tokens under its identifier are verified. No other key verifies a token.
  pub load-IsLoaded :
      (m : Manifest) (keys : SigningKeys) → load lib rsa m ≡ ok keys → IsLoaded m keys
  unfolding load
  load-IsLoaded m keys run = elim (Result-cases (load_active lib rsa m.active)) [
    | inr (e, refused) ↦ absurd (ground arith)
    | inl ((pem, first), began) ↦
        elim (Result-cases (add_entries lib rsa (m.previous ++ m.next) first)) [
          | inr (e, refused) ↦ absurd (ground arith)
          | inl (gathered, ended) ↦ elim (Option-cases (rsa.encoding_key pem)) [
            | inl refused ↦ absurd (ground arith)
            | inr (encoding, read) ↦ elim (Option-cases (rsa.show_jwks gathered.jwks)) [
              | inl refused ↦ absurd (ground arith)
              | inr (json, shown) ↦
                  let (c, own_key, own, at) = load_active-IsConsistent m.active pem first began in
                  let (consistent, active) =
                    add_entries-keeps (m.previous ++ m.next) first gathered
                      (jwk_of lib rsa m.active.kid own_key) c at ended in
                  record {
                    gathered = gathered;
                    private_pem = pem;
                    own_key = own_key;
                    same_kid = ground arith;
                    same_keys = ground arith;
                    shown = ground arith;
                    signs = ground arith;
                    own = own;
                    active = active;
                    consistent = consistent;
                  }
            ]
          ]
        ]
  ]
