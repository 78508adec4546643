-- ===== src/Oauth/Policy/Stability.antt =====
-- oauth.rs: a pending grant stays valid under the policy that made it, for `revalidate_pending`
-- and for the renewal of its tokens.
use eri.Common.{
  ℕ, Text, bytes, true, false, List, text_eq, ok, ◌≡◌, inr, refl, ◌∙◌, sym, ap, subst, arith,
  beq_refl,
}
use eri.Common.SortedSet.{collect, collect-IsSorted}
use eri.Common.SortedSet.Laws.{collect_sorted}
use eri.External.{Libs}
use eri.Oauth.Client.{FirstPartyClient}
use eri.Oauth.Registry.{ClientRegistry, permits_refresh}
use eri.Oauth.Registry.Keys.{IsKeyed}
use eri.Oauth.Policy.{
  PendingAuthorizationGrant, AuthorizationRequest, validate_pending, revalidate_pending,
  refuses_scopes, refuses_resource, choose_resource, request_of,
}
use eri.Oauth.Policy.Admission.{PassesTests, PassesTests-of_ok, ok-of_PassesTests, grant_of}

collect-collect : (xs : List Text) → collect (collect xs) ≡ collect xs
collect-collect xs = collect_sorted (collect xs) (collect-IsSorted xs)

refuses_scopes-collect :
    (client : FirstPartyClient) (scopes : List Text)
    → refuses_scopes client scopes ≡ false
    → refuses_scopes client (collect scopes) ≡ false
unfolding refuses_scopes
refuses_scopes-collect client scopes h = rw (collect-collect scopes) (ground arith)

module _ (lib : Libs) (instant : ℕ) (reg : ClientRegistry) (req : AuthorizationRequest)
    (client : FirstPartyClient) (resource : Text) (same_id : client.id ≡ req.client_id)
    (t : PassesTests lib instant reg req client resource) where
  again : AuthorizationRequest
  again = request_of lib client.id req.redirect_uri req.code_challenge (collect req.scopes) resource

  PassesTests-again : PassesTests lib instant reg again client resource
  unfolding again choose_resource
  PassesTests-again = record {
    fresh = t.fresh;
    explicit = inr refl;
    registered = simp same_id t.registered;
    code_flow = beq_refl (bytes "code");
    method = beq_refl (bytes "S256");
    challenge = t.challenge;
    redirect = t.redirect;
    scopes = refuses_scopes-collect client req.scopes t.scopes;
    chosen = refl;
    permitted = simp (same_id, collect-collect) t.permitted;
  }

  grant-again : grant_of reg again client resource ≡ grant_of reg req client resource
  unfolding again
  grant-again = cc (same_id, collect-collect req.scopes)

  revalidate-again :
      revalidate_pending lib instant reg (grant_of reg req client resource)
      ≡ ok (grant_of reg req client resource)
  unfolding again revalidate_pending
  revalidate-again =
      ok-of_PassesTests lib instant reg again client resource PassesTests-again ∙ ap ok grant-again

  permits-again : permits_refresh reg client.id (collect req.scopes) resource ≡ true
  unfolding permits_refresh refuses_resource refuses_scopes
  permits-again = ground (
    arith,
    same_id,
    t.registered,
    t.permitted,
    refuses_scopes-collect client req.scopes t.scopes,
    collect-collect req.scopes,
  )

module _ (lib : Libs) (instant : ℕ) (reg : ClientRegistry) (keyed : IsKeyed reg)
    (req : AuthorizationRequest) (p : PendingAuthorizationGrant)
    (made : validate_pending lib instant reg req ≡ ok p) where
  -- Under a registry that files each client under its own identifier, a pending grant that was made
  -- of a request is made again of itself, unchanged, at the same reading of the clock.
  pub revalidate-validate : revalidate_pending lib instant reg p ≡ ok p
  revalidate-validate =
      let (client, t, e) = PassesTests-of_ok lib instant reg req p made in
      let id = keyed req.client_id client t.registered in
      subst (λ (g : PendingAuthorizationGrant). revalidate_pending lib instant reg g ≡ ok g) (sym e)
        (revalidate-again lib instant reg req client p.resource id t)

  -- Under such a registry, the scopes and the resource of a pending grant pass the test that every
  -- rotation of its refresh tokens makes.
  pub permits_refresh-validate : permits_refresh reg p.client_id p.scopes p.resource ≡ true
  permits_refresh-validate =
      let (client, t, e) = PassesTests-of_ok lib instant reg req p made in
      let id = keyed req.client_id client t.registered in
      subst
        (λ (g : PendingAuthorizationGrant).
          permits_refresh reg g.client_id g.scopes g.resource ≡ true)
        (sym e) (permits-again lib instant reg req client p.resource id t)
