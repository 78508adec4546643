-- ===== src/Oauth/Policy/Consent.antt =====
-- oauth.rs: consent and pre-authorization.
use eri.Common.{
  ℕ, Text, bytes, Bool, true, ◌&&◌, none, some, List, [], ◌∷◌, any, all, In, any-In, ok, ◌≡◌, inl,
  inr, refl, arith, text_beq_iff, ◌==◌, text_eq, Option-cases,
}
use eri.Common.SortedSet.{contains}
use eri.Common.HashMap
use eri.Oauth.Types.{app_claimed_https, google_preauthorized}
use eri.Oauth.Redirect.{RegisteredRedirect, kind_beq}
use eri.Oauth.Client.{FirstPartyClient}
use eri.Oauth.Registry.{ClientRegistry}
use eri.Oauth.Policy.{
  PendingAuthorizationGrant, ValidatedAuthorizationGrant, approve, pre_authorizes,
}
use eri.Oauth.Policy.Conditions.{Leased, Leased-of_fresh}

any-contains : (xs : List Text) (a : Text) → any (λ s. s == a) xs ≡ contains xs a
unfolding any contains
any-contains [] a = refl
any-contains (x ∷ xs) a = ground (arith, any-contains xs a)

-- An approved grant keeps every binding of the pending one. It carries refresh tokens exactly when
-- "offline_access" is among the scopes, and then the user has consented.
pub approve_grants :
    (instant : ℕ) (p : PendingAuthorizationGrant) (consent : Bool) (g : ValidatedAuthorizationGrant)
    → approve instant p consent ≡ ok g
    → Leased p.dynamic instant
      × (g.client_id ≡ p.client_id)
      × (g.redirect_uri ≡ p.redirect_uri)
      × (g.scopes ≡ p.scopes)
      × (g.resource ≡ p.resource)
      × (g.code_challenge ≡ p.code_challenge)
      × (g.dynamic ≡ p.dynamic)
      × (g.issue_refresh_token ≡ contains p.scopes (bytes "offline_access"))
      × ((g.issue_refresh_token ≡ true) → consent ≡ true)
unfolding approve
approve_grants instant p consent g h =
    ground
      (arith, any-contains p.scopes (bytes "offline_access"), Leased-of_fresh p.dynamic instant)

-- The static policy of a client lets its consent be skipped: the client is not dynamic, its flow
-- is pre-authorized, and the redirect is one that a verified application claims, byte for byte.
abbrev pub SkipsConsent : ClientRegistry → PendingAuthorizationGrant → Type 0
SkipsConsent reg p =
    (p.dynamic ≡ none)
    × (reg.dynamic ≡ none)
    × ((client : FirstPartyClient) × (HashMap.get p.client_id reg.clients ≡ some client)
        × (client.authorization_flow ≡ google_preauthorized)
        × ((r : RegisteredRedirect) × In r client.redirects
            × (r.kind ≡ app_claimed_https)
            × (r.uri ≡ p.redirect_uri))
        × (contains client.resources p.resource ≡ true)
        × (all (λ s. contains client.scopes s) p.scopes ≡ true))

-- Consent is skipped only where the policy lets it be.
pub pre_authorizes_only :
    (reg : ClientRegistry) (p : PendingAuthorizationGrant)
    → pre_authorizes reg p ≡ true
    → SkipsConsent reg p
unfolding pre_authorizes
pre_authorizes_only reg p h = elim (Option-cases (HashMap.get p.client_id reg.clients)) [
  | inl missing ↦ absurd (ground arith)
  | inr (client, found) ↦
      let claims =
        λ (r : RegisteredRedirect). kind_beq r.kind app_claimed_https && r.uri == p.redirect_uri in
      let (r, listed, claimed) = any-In claims client.redirects (ground arith) in
      (
        ground arith,
        ground arith,
        (
          client,
          found,
          ground arith,
          (r, listed, ground arith, ground (arith, text_beq_iff r.uri p.redirect_uri)),
          ground arith,
          ground arith,
        ),
      )
]
