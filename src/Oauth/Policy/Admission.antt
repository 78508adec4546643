-- ===== src/Oauth/Policy/Admission.antt =====
-- oauth.rs: when `validate_pending` makes a pending grant of a request, and which.
use eri.Common.{
  ℕ, Text, bytes, true, false, ap, eq_of_beq, beq_refl, any-of_In, Option, none, some, is_some,
  ◌==◌, text_eq, any, any-In, In, ok, ◌≡◌, ◌≢◌, ◌↔◌, ◌⊎◌, inl, inr, refl, ◌∙◌, sym, arith,
  Option-cases,
}
use eri.Common.SortedSet.{collect}
use eri.Common.HashMap
use eri.External.{Libs}
use eri.Oauth.Pkce.{validate_pkce_challenge}
use eri.Oauth.Redirect.{RegisteredRedirect, redirect_matches}
use eri.Oauth.Client.{FirstPartyClient}
use eri.Oauth.Registry.{ClientRegistry, dynamic_for, ensure_fresh}
use eri.Oauth.Policy.{
  AuthorizationRequest, PendingAuthorizationGrant, choose_resource, refuses_resource,
  refuses_scopes, validate_pending,
}
use eri.Oauth.Policy.Conditions.{
  AllowedScopes, AllowedScopes-of_test, AllowedResource, AllowedResource-of_test, Leased,
  Leased-of_fresh, refuses_scopes-of_Allowed, refuses_resource-of_Allowed, fresh-of_Leased,
}

-- What a request has shown of itself when a pending grant is made of it.
pub record IsAdmitted (lib : Libs) (instant : ℕ) (reg : ClientRegistry) (req : AuthorizationRequest)
    (client : FirstPartyClient) (p : PendingAuthorizationGrant) : Type 0 where
  pub leased : Leased reg.dynamic instant
  pub registered : HashMap.get req.client_id reg.clients ≡ some client
  pub code_flow : req.response_type ≡ bytes "code"
  pub method : req.code_challenge_method ≡ bytes "S256"
  pub challenge : validate_pkce_challenge lib req.code_challenge ≡ ok tt
  pub redirect : RegisteredRedirect
  pub listed : In redirect client.redirects
  pub matched : redirect_matches lib redirect req.redirect_uri ≡ true
  pub scopes : AllowedScopes client req.scopes
  pub explicit : dynamic_for reg req.client_id ≢ none → req.resource ≢ none
  pub chosen : choose_resource reg client (collect req.scopes) req.resource ≡ some p.resource
  pub resource : AllowedResource reg client req p.resource

-- The grant repeats the request, with the client's own identifier and the set of the scopes.
abbrev pub grant_of :
    ClientRegistry → AuthorizationRequest → FirstPartyClient → Text → PendingAuthorizationGrant
grant_of reg req client resource = record {
  client_id = client.id;
  redirect_uri = req.redirect_uri;
  scopes = collect req.scopes;
  resource = resource;
  code_challenge = req.code_challenge;
  dynamic = dynamic_for reg req.client_id;
}

-- The tests that `validate_pending` makes, as equations.
pub record PassesTests (lib : Libs) (instant : ℕ) (reg : ClientRegistry)
    (req : AuthorizationRequest) (client : FirstPartyClient) (resource : Text) : Type 0 where
  pub fresh : ensure_fresh reg.dynamic instant ≡ ok tt
  pub explicit : (is_some (dynamic_for reg req.client_id) ≡ false) ⊎ (is_some req.resource ≡ true)
  pub registered : HashMap.get req.client_id reg.clients ≡ some client
  pub code_flow : (req.response_type == bytes "code") ≡ true
  pub method : (req.code_challenge_method == bytes "S256") ≡ true
  pub challenge : validate_pkce_challenge lib req.code_challenge ≡ ok tt
  pub redirect : any (λ r. redirect_matches lib r req.redirect_uri) client.redirects ≡ true
  pub scopes : refuses_scopes client req.scopes ≡ false
  pub chosen : choose_resource reg client (collect req.scopes) req.resource ≡ some resource
  pub permitted : refuses_resource reg client req.client_id (collect req.scopes) resource ≡ false

pub PassesTests-of_ok :
    (lib : Libs) (instant : ℕ) (reg : ClientRegistry) (req : AuthorizationRequest)
    (p : PendingAuthorizationGrant)
    → validate_pending lib instant reg req ≡ ok p
    → (client : FirstPartyClient) × PassesTests lib instant reg req client p.resource
      × (p ≡ grant_of reg req client p.resource)
unfolding validate_pending
PassesTests-of_ok lib instant reg req p h =
    elim (Option-cases (HashMap.get req.client_id reg.clients)) [
      | inl missing ↦ absurd (ground arith)
      | inr (client, found) ↦ (client, ground arith, ground arith)
    ]

pub ok-of_PassesTests :
    (lib : Libs) (instant : ℕ) (reg : ClientRegistry) (req : AuthorizationRequest)
    (client : FirstPartyClient) (resource : Text)
    → PassesTests lib instant reg req client resource
    → validate_pending lib instant reg req ≡ ok (grant_of reg req client resource)
unfolding validate_pending
ok-of_PassesTests lib instant reg req client resource t = ground arith

module _ (lib : Libs) (instant : ℕ) (reg : ClientRegistry) (req : AuthorizationRequest) where
  IsAdmitted-of_PassesTests :
      (client : FirstPartyClient) (p : PendingAuthorizationGrant)
      → PassesTests lib instant reg req client p.resource
      → IsAdmitted lib instant reg req client p
  IsAdmitted-of_PassesTests client p t =
      let matches = λ (r : RegisteredRedirect). redirect_matches lib r req.redirect_uri in
      let (r, listed, matched) = any-In matches client.redirects t.redirect in
      record {
        leased = Leased-of_fresh reg.dynamic instant t.fresh;
        registered = t.registered;
        code_flow = eq_of_beq req.response_type (bytes "code") t.code_flow;
        method = eq_of_beq req.code_challenge_method (bytes "S256") t.method;
        challenge = t.challenge;
        redirect = r;
        listed = listed;
        matched = matched;
        scopes = AllowedScopes-of_test client req.scopes t.scopes;
        explicit = λ named missing. explicit_test t.explicit named missing;
        chosen = t.chosen;
        resource = AllowedResource-of_test reg client req p.resource t.permitted;
      }
    where
      explicit_test :
          (is_some (dynamic_for reg req.client_id) ≡ false) ⊎ (is_some req.resource ≡ true)
          → dynamic_for reg req.client_id ≢ none
          → req.resource ≢ none
      explicit_test e named missing = ground arith

  PassesTests-of_IsAdmitted :
      (client : FirstPartyClient) (p : PendingAuthorizationGrant)
      → IsAdmitted lib instant reg req client p
      → PassesTests lib instant reg req client p.resource
  PassesTests-of_IsAdmitted client p a =
      let matches = λ (r : RegisteredRedirect). redirect_matches lib r req.redirect_uri in
      record {
        fresh = fresh-of_Leased reg.dynamic instant a.leased;
        explicit = explicit_test (dynamic_for reg req.client_id) req.resource a.explicit;
        registered = a.registered;
        code_flow = rw a.code_flow (beq_refl (bytes "code"));
        method = rw a.method (beq_refl (bytes "S256"));
        challenge = a.challenge;
        redirect = any-of_In matches client.redirects a.redirect a.listed a.matched;
        scopes = refuses_scopes-of_Allowed client req.scopes a.scopes;
        chosen = a.chosen;
        permitted = refuses_resource-of_Allowed reg client req p.resource a.resource;
      }
    where
      explicit_test :
          {D : Type 0} (d : Option D) (r : Option Text)
          → (d ≢ none → r ≢ none)
          → (is_some d ≡ false) ⊎ (is_some r ≡ true)
      explicit_test none r h = inl refl
      explicit_test (some x) none h = absurd (h (λ e. cc) refl)
      explicit_test (some x) (some y) h = inr refl

-- A request is turned into a pending grant exactly when it is admitted: an unexpired lease, a
-- registered client, the code flow under S256, a well-formed challenge, a redirect that the client
-- registered, distinct allowed scopes and an allowed resource. The grant is then that of the
-- request.
pub validate_pending_iff :
    (lib : Libs) (instant : ℕ) (reg : ClientRegistry) (req : AuthorizationRequest)
    (p : PendingAuthorizationGrant)
    → (validate_pending lib instant reg req ≡ ok p) ↔ (
        (client : FirstPartyClient) × IsAdmitted lib instant reg req client p
        × (p ≡ grant_of reg req client p.resource))
validate_pending_iff lib instant reg req p = (
  λ h.
      let (client, t, e) = PassesTests-of_ok lib instant reg req p h in
      (client, IsAdmitted-of_PassesTests lib instant reg req client p t, e),
  λ (client, a, e).
      let t = PassesTests-of_IsAdmitted lib instant reg req client p a in
      ok-of_PassesTests lib instant reg req client p.resource t ∙ ap ok (sym e),
)
