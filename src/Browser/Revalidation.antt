-- ===== src/Browser/Revalidation.antt =====
-- browser.rs: what `revalidate` shows of a stored transaction and of the registry.
use eri.Common.{
  ℕ, ◌≡◌, ◌⊎◌, inl, inr, refl, arith, Text, true, Option, none, some, Result, ok, err, map_err,
  Option-cases, Result-cases,
}
use eri.Common.SortedSet.{collect}
use eri.External.{Libs}
use eri.Cimd.Binding.{CimdSecurityBinding, binding_beq}
use eri.Oauth.Types.{OauthError}
use eri.Oauth.Client.{FirstPartyClient}
use eri.Oauth.Registry.{
  ClientRegistry, ResolvedCimdPolicy, validate_binding, match_binding, dynamic_for,
}
use eri.Oauth.Policy.{PendingAuthorizationGrant, request_of, validate_pending, choose_resource}
use eri.Oauth.Policy.Admission.{IsAdmitted, validate_pending_iff}
use eri.Store.{BrowserRow}
use eri.Browser.Types.{policy_error, revalidate}

-- The policy in force is the one that the transaction was bound to, or neither is dynamic.
abbrev pub IsBound : Libs → ClientRegistry → BrowserRow → Type 0
IsBound lib reg row =
    ((dynamic_for reg row.client_id ≡ none) × (row.cimd_binding ≡ none))
    ⊎ ((current : ResolvedCimdPolicy) × (stored : Text) × (binding : CimdSecurityBinding)
        × (dynamic_for reg row.client_id ≡ some current)
        × (row.cimd_binding ≡ some stored)
        × (lib.parse_binding stored ≡ some binding)
        × (binding_beq binding current.binding ≡ true))

-- The registry admits the request of the row, for the pending grant.
abbrev pub Admits : Libs → ℕ → ClientRegistry → BrowserRow → PendingAuthorizationGrant → Type 0
Admits lib instant reg row pending =
    (client : FirstPartyClient) × IsAdmitted lib instant reg
      (request_of lib row.client_id row.redirect_uri row.code_challenge row.scopes row.resource)
      client pending
    × (pending.client_id ≡ client.id)
    × (pending.redirect_uri ≡ row.redirect_uri)
    × (pending.scopes ≡ collect row.scopes)
    × (pending.resource ≡ row.resource)
    × (pending.code_challenge ≡ row.code_challenge)

pub map_err-ok :
    {A : Type 0} (r : Result OauthError A) (a : A) → map_err policy_error r ≡ ok a → r ≡ ok a
map_err-ok (ok b) a h = ground arith
map_err-ok (err e) a h = cc

match_binding-cases :
    (lib : Libs) (current : Option ResolvedCimdPolicy) (stored : Option Text)
    → match_binding lib current stored ≡ ok tt
    → ((current ≡ none) × (stored ≡ none))
      ⊎ ((d : ResolvedCimdPolicy) × (s : Text) × (binding : CimdSecurityBinding) × (current
            ≡ some d)
          × (stored ≡ some s)
          × (lib.parse_binding s ≡ some binding)
          × (binding_beq binding d.binding ≡ true))
unfolding match_binding
match_binding-cases lib none none h = inl (refl, refl)
match_binding-cases lib (some d) (some s) h = elim (Option-cases (lib.parse_binding s)) [
  | inl unread ↦ absurd (ground arith)
  | inr (binding, read) ↦ inr (d, s, binding, refl, refl, read, ground arith)
]
match_binding-cases lib none (some s) h = cc
match_binding-cases lib (some d) none h = cc

module _ (lib : Libs) (instant instant' : ℕ) (reg : ClientRegistry) (row : BrowserRow)
    (pending : PendingAuthorizationGrant)
    (valid : revalidate lib instant instant' reg row ≡ ok pending) where
  revalidate-parts :
      (validate_binding lib instant reg row.client_id row.cimd_binding ≡ ok tt)
      × (validate_pending lib instant' reg (
            request_of lib row.client_id row.redirect_uri row.code_challenge row.scopes
              row.resource)
          ≡ ok pending)
  unfolding revalidate
  revalidate-parts =
      elim (Result-cases (validate_binding lib instant reg row.client_id row.cimd_binding)) [
        | inr (e, refused) ↦ absurd (ground arith)
        | inl (u, bound) ↦ (bound, map_err-ok _ pending (ground arith))
      ]

  pub revalidate-IsBound : IsBound lib reg row
  unfolding validate_binding
  revalidate-IsBound =
      match_binding-cases lib (dynamic_for reg row.client_id) row.cimd_binding
        (ground (arith, revalidate-parts.0))

  pub revalidate-Admits : Admits lib instant' reg row pending
  unfolding choose_resource
  revalidate-Admits =
      let req =
        request_of lib row.client_id row.redirect_uri row.code_challenge row.scopes row.resource in
      let (client, admitted, e) =
        (validate_pending_iff lib instant' reg req pending).0 revalidate-parts.1 in
      (client, admitted, cc e, cc e, cc e, ground (arith, admitted.chosen), cc e)
