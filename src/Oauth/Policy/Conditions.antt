-- ===== src/Oauth/Policy/Conditions.antt =====
-- oauth.rs: the conditions on the scopes, the resource and the lease of a request, and the tests
-- by which `validate_pending` decides them.
use eri.Common.{
  ℕ, ◌<◌, Text, bytes, Bool, true, false, not, is_empty, Option, none, some, List, [], ◌∷◌, text_eq,
  text_beq_iff, option_beq, any, ok, ◌≡◌, ◌≢◌, ◌⊎◌, refl, ◌∙◌, arith,
}
use eri.Common.SortedSet.{collect, contains, is_distinct}
use eri.Common.SortedSet.Laws.{
  contains-collect, length-collect_iff, is_subset-contains, is_subset_of,
}
use eri.Oauth.Pkce.{valid_scope_token}
use eri.Oauth.Client.{FirstPartyClient}
use eri.Oauth.Registry.{ResolvedCimdPolicy, ClientRegistry, dynamic_for, ensure_fresh}
use eri.Oauth.Policy.{AuthorizationRequest, refuses_resource, refuses_scopes}

not-any :
    (p : Text → Bool) (xs : List Text) (s : Text)
    → any p xs ≡ false
    → contains xs s ≡ true
    → p s ≡ false
unfolding any contains
not-any p [] s h k = cc
not-any p (x ∷ xs) s h k = ground (arith, not-any p xs s, text_beq_iff x s)

-- The requested scopes are distinct, at least one, well formed, and all allowed to the client.
pub record AllowedScopes (client : FirstPartyClient) (scopes : List Text) : Type 0 where
  pub distinct : is_distinct scopes ≡ true
  pub some_scope : scopes ≢ []
  pub allowed : (s : Text) → contains scopes s ≡ true → contains client.scopes s ≡ true
  pub well_formed : (s : Text) → contains scopes s ≡ true → valid_scope_token s ≡ true

refuses_scopes-nil : (client : FirstPartyClient) → refuses_scopes client [] ≡ true
unfolding refuses_scopes collect
refuses_scopes-nil client = refl

pub AllowedScopes-of_test :
    (client : FirstPartyClient) (scopes : List Text)
    → refuses_scopes client scopes ≡ false
    → AllowedScopes client scopes
unfolding refuses_scopes
AllowedScopes-of_test client scopes h = record {
  distinct = (length-collect_iff scopes).0 (ground arith);
  some_scope = λ e. cc (refuses_scopes-nil client);
  allowed = λ s k.
      is_subset-contains (collect scopes) client.scopes s (ground arith)
        (contains-collect scopes s ∙ k);
  well_formed = λ s k. ground (
    arith,
    not-any (λ t. not (valid_scope_token t)) (collect scopes) s,
    contains-collect scopes s,
  );
}

-- The resource is one of the client's, or, for a client of the static policy that asks for
-- "openid", the provider's own userinfo endpoint.
abbrev pub AllowedResource :
    ClientRegistry → FirstPartyClient → AuthorizationRequest → Text → Type 0
AllowedResource reg client req resource =
    (contains client.resources resource ≡ true)
    ⊎ ((dynamic_for reg req.client_id ≡ none)
        × (contains req.scopes (bytes "openid") ≡ true)
        × (reg.userinfo_resource ≡ some resource))

option_beq-some : (o : Option Text) (t : Text) → option_beq o (some t) ≡ true → o ≡ some t
option_beq-some none t h = cc
option_beq-some (some s) t h = ground (arith, text_beq_iff s t)

pub AllowedResource-of_test :
    (reg : ClientRegistry) (client : FirstPartyClient) (req : AuthorizationRequest)
    (resource : Text)
    → refuses_resource reg client req.client_id (collect req.scopes) resource ≡ false
    → AllowedResource reg client req resource
unfolding refuses_resource
AllowedResource-of_test reg client req resource h = ground (
  arith,
  contains-collect req.scopes (bytes "openid"),
  option_beq-some reg.userinfo_resource resource,
)

-- The lease of a policy that was projected from metadata has not run out.
abbrev pub Leased : Option ResolvedCimdPolicy → ℕ → Type 0
Leased none instant = Unit
Leased (some d) instant = instant < d.snapshot.valid_until

pub Leased-of_fresh :
    (dynamic : Option ResolvedCimdPolicy) (instant : ℕ)
    → ensure_fresh dynamic instant ≡ ok tt
    → Leased dynamic instant
unfolding ensure_fresh
Leased-of_fresh none instant h = tt
Leased-of_fresh (some d) instant h = ground arith

any_none :
    (p : Text → Bool) (xs : List Text)
    → ((s : Text) → contains xs s ≡ true → p s ≡ false)
    → any p xs ≡ false
unfolding any contains
any_none p [] h = refl
any_none p (x ∷ xs) h =
    ground (arith, h x, text_beq_iff x x, any_none p xs (λ s k. h s (ground arith)))

is_empty-collect : (xs : List Text) → xs ≢ [] → is_empty (collect xs) ≡ false
is_empty-collect [] h = absurd (h refl)
is_empty-collect (x ∷ xs) h =
    ground (arith, contains-collect (x ∷ xs) x, holds x xs, nothing x (collect (x ∷ xs)))
  where
    holds : (x : Text) (xs : List Text) → contains (x ∷ xs) x ≡ true
    holds x xs = unfold contains in ground (arith, text_beq_iff x x)

    nothing : (x : Text) (ys : List Text) → is_empty ys ≡ true → contains ys x ≡ false
    nothing x [] e = unfold contains in refl
    nothing x (y ∷ ys) e = cc

pub refuses_scopes-of_Allowed :
    (client : FirstPartyClient) (scopes : List Text)
    → AllowedScopes client scopes
    → refuses_scopes client scopes ≡ false
unfolding refuses_scopes
refuses_scopes-of_Allowed client scopes a = ground (
  arith,
  (length-collect_iff scopes).1 a.distinct,
  is_empty-collect scopes a.some_scope,
  any_none (λ s. not (valid_scope_token s)) (collect scopes)
      (λ s k. ground (arith, a.well_formed s, contains-collect scopes s)),
  is_subset_of (collect scopes) client.scopes
      (λ s k. a.allowed s (ground (arith, contains-collect scopes s))),
)

pub refuses_resource-of_Allowed :
    (reg : ClientRegistry) (client : FirstPartyClient) (req : AuthorizationRequest)
    (resource : Text)
    → AllowedResource reg client req resource
    → refuses_resource reg client req.client_id (collect req.scopes) resource ≡ false
unfolding refuses_resource
refuses_resource-of_Allowed reg client req resource a =
    ground (arith, contains-collect req.scopes (bytes "openid"), text_beq_iff resource resource)

pub fresh-of_Leased :
    (dynamic : Option ResolvedCimdPolicy) (instant : ℕ)
    → Leased dynamic instant
    → ensure_fresh dynamic instant ≡ ok tt
unfolding ensure_fresh
fresh-of_Leased none instant h = refl
fresh-of_Leased (some d) instant h = ground arith
