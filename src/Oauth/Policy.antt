-- ===== src/Oauth/Policy.antt =====
-- oauth.rs: the validation of an authorization request, the pending grant, and its approval.
pub mod Conditions
pub mod Admission
pub mod Stability
pub mod Consent
use eri.Common.{
  ℕ, Text, bytes, Bool, true, false, not, ◌&&◌, ◌||◌, Option, none, some, List, [], ◌∷◌, is_empty,
  any, all, is_some, is_some_and, length, nat_beq, ◌==◌, text_eq, Result, ok, err, ◌>>=◌, ◌>>◌,
  refuse_if, ok_or, if◌then◌else◌,
}
use eri.Common.SortedSet.{collect, contains, is_subset}
use eri.Common.HashMap
use eri.External.{Libs}
use eri.Oauth.Types.{
  app_claimed_https, AuthorizationFlow, google_preauthorized, OauthError, metadata_expired,
  unknown_client, unsupported_response_type, unsupported_pkce_method, invalid_redirect,
  invalid_scope, invalid_resource, consent_required,
}
use eri.Oauth.Pkce.{validate_pkce_challenge, valid_scope_token}
use eri.Oauth.Redirect.{RegisteredRedirect, kind_beq, redirect_matches}
use eri.Oauth.Client.{FirstPartyClient}
use eri.Oauth.Registry.{ResolvedCimdPolicy, ClientRegistry, dynamic_for, ensure_fresh, is_userinfo}

pub record AuthorizationRequest : Type 0 where
  pub client_id : Text
  pub redirect_uri : Text
  pub response_type : Text
  pub code_challenge_method : Text
  pub code_challenge : Text
  pub scopes : List Text
  pub resource : Option Text

pub record PendingAuthorizationGrant : Type 0 where
  pub client_id : Text
  pub redirect_uri : Text
  pub scopes : List Text
  pub resource : Text
  pub code_challenge : Text
  pub dynamic : Option ResolvedCimdPolicy

pub record ValidatedAuthorizationGrant : Type 0 where
  pub client_id : Text
  pub redirect_uri : Text
  pub scopes : List Text
  pub resource : Text
  pub code_challenge : Text
  pub issue_refresh_token : Bool
  pub dynamic : Option ResolvedCimdPolicy

abbrev or_else : Option Text → Option Text → Option Text
or_else (some a) b = some a
or_else none b = b

-- The explicit resource, the client's default, or the userinfo endpoint under `openid`.
unfoldable pub choose_resource :
    ClientRegistry → FirstPartyClient → List Text → Option Text → Option Text
choose_resource reg client requested resource = or_else resource (
    or_else client.default_resource
      (if contains requested (bytes "openid") then reg.userinfo_resource else none))

-- The tests on the chosen resource: a dynamic client has its own resources alone.
unfoldable pub refuses_resource : ClientRegistry → FirstPartyClient → Text → List Text → Text → Bool
refuses_resource reg client client_id requested resource =
    (is_some (dynamic_for reg client_id) && not (contains client.resources resource))
    || not (contains client.resources resource || is_userinfo reg requested resource)

-- The tests on the requested scopes.
unfoldable pub refuses_scopes : FirstPartyClient → List Text → Bool
refuses_scopes client scopes =
    not (nat_beq (length (collect scopes)) (length scopes))
    || is_empty (collect scopes)
    || any (λ s. not (valid_scope_token s)) (collect scopes)
    || not (is_subset (collect scopes) client.scopes)

module _ (lib : Libs) where
  -- `validate_pending_parts`, on the fields of a request
  unfoldable pub validate_pending :
      ℕ → ClientRegistry → AuthorizationRequest → Result OauthError PendingAuthorizationGrant
  validate_pending instant reg req = do
    ensure_fresh reg.dynamic instant
    refuse_if (is_some (dynamic_for reg req.client_id) && not (is_some req.resource))
        invalid_resource
    client ← ok_or (HashMap.get req.client_id reg.clients) unknown_client
    refuse_if (not (req.response_type == bytes "code")) unsupported_response_type
    refuse_if (not (req.code_challenge_method == bytes "S256")) unsupported_pkce_method
    validate_pkce_challenge lib req.code_challenge
    refuse_if (not (any (λ r. redirect_matches lib r req.redirect_uri) client.redirects))
        invalid_redirect
    refuse_if (refuses_scopes client req.scopes) invalid_scope
    resource ← ok_or (choose_resource reg client (collect req.scopes) req.resource) invalid_resource
    refuse_if (refuses_resource reg client req.client_id (collect req.scopes) resource)
        invalid_resource
    ok (record {
      client_id = client.id;
      redirect_uri = req.redirect_uri;
      scopes = collect req.scopes;
      resource = resource;
      code_challenge = req.code_challenge;
      dynamic = dynamic_for reg req.client_id;
    })

  -- The request that a grant, or a stored row, stands for.
  abbrev pub request_of : Text → Text → Text → List Text → Text → AuthorizationRequest
  request_of client_id redirect_uri challenge scopes resource = record {
    client_id = client_id;
    redirect_uri = redirect_uri;
    response_type = bytes "code";
    code_challenge_method = bytes "S256";
    code_challenge = challenge;
    scopes = scopes;
    resource = some resource;
  }

  unfoldable pub revalidate_pending :
      ℕ → ClientRegistry → PendingAuthorizationGrant → Result OauthError PendingAuthorizationGrant
  revalidate_pending instant reg p =
      validate_pending instant reg
        (request_of p.client_id p.redirect_uri p.code_challenge p.scopes p.resource)

-- `PendingAuthorizationGrant::approve`
unfoldable pub approve :
    ℕ → PendingAuthorizationGrant → Bool → Result OauthError ValidatedAuthorizationGrant
approve instant p consent = do
  ensure_fresh p.dynamic instant
  let refresh = any (λ s. s == bytes "offline_access") p.scopes
  refuse_if (refresh && not consent) consent_required
  ok (record {
    client_id = p.client_id;
    redirect_uri = p.redirect_uri;
    scopes = p.scopes;
    resource = p.resource;
    code_challenge = p.code_challenge;
    issue_refresh_token = refresh;
    dynamic = p.dynamic;
  })

abbrev is_google_preauthorized : AuthorizationFlow → Bool
is_google_preauthorized google_preauthorized = true
is_google_preauthorized _ = false

-- `ClientRegistry::pre_authorizes`
unfoldable pub pre_authorizes : ClientRegistry → PendingAuthorizationGrant → Bool
pre_authorizes reg pending =
    not (is_some pending.dynamic)
    && not (is_some reg.dynamic)
    && is_some_and
        (λ (client : FirstPartyClient).
          is_google_preauthorized client.authorization_flow
          && any
              (λ (r : RegisteredRedirect).
                kind_beq r.kind app_claimed_https && r.uri == pending.redirect_uri)
              client.redirects
          && contains client.resources pending.resource
          && all (λ scope. contains client.scopes scope) pending.scopes)
        (HashMap.get pending.client_id reg.clients)

-- `cimd_binding_json` of both grants
abbrev pub cimd_binding_json : Libs → Option ResolvedCimdPolicy → Option Text
cimd_binding_json lib none = none
cimd_binding_json lib (some d) = some (lib.show_binding d.binding)
