-- ===== src/Tests/Policies.antt =====
-- oauth.rs on concrete inputs.
use eri.Common.{
  ◌≤◌, bytes, true, false, none, some, [], ◌∷◌, length, all, ◌≡◌, ◌↔◌, ◌⊎◌, refl, is_some, ok,
  text_beq, any, strip_prefix,
}
use eri.Common.SortedSet.{collect, contains, is_subset, insert, cmp}
use eri.Common.HashMap
use eri.Cimd.Binding.{security_binding}
use eri.Oauth.Types.{native_loopback}
use eri.Oauth.Pkce.{is_verifier_byte, validate_pkce_challenge, verify_s256, valid_scope_token}
use eri.Oauth.Pkce.Verification.{verify_s256_iff}
use eri.Oauth.Redirect.{
  redirect_matches, safe_redirect, loopback_parts, new_redirect, safe_url, safe_security_identifier,
}
use eri.Oauth.Redirect.Loopback.{IsLoopback, loopback_parts_iff}
use eri.Oauth.Redirect.Matching.{DifferInPort, redirect_matches_iff}
use eri.Oauth.Client.{FirstPartyClient, new_client, with_authorization_flow, blank_from}
use eri.Oauth.Registry.{
  ensure_fresh, dynamic_for, build, build_clients, project_cimd, redirects_of, keep_scopes,
}
use eri.Oauth.Registry.Keys.{IsKeyed, build-IsKeyed}
use eri.Oauth.Policy.{
  validate_pending, choose_resource, refuses_scopes, refuses_resource, revalidate_pending, approve,
  pre_authorizes,
}
use eri.Oauth.Policy.Admission.{IsAdmitted, grant_of, validate_pending_iff}
use eri.Oauth.Policy.Conditions.{Leased}
use eri.Oauth.Policy.Stability.{revalidate-validate}
use eri.Oauth.Policy.Consent.{approve_grants}
use eri.Tests.Demo.{
  lib, lib-EncodesDigests, fill, registry, request, pending, grant, verifier, challenge, client,
  openid, api, native, snapshot, projected,
}

validated : validate_pending lib 0 registry request ≡ ok pending
unfolding validate_pending ensure_fresh dynamic_for HashMap.get text_beq validate_pkce_challenge
    fill all any redirect_matches safe_redirect strip_prefix refuses_scopes collect
    valid_scope_token is_subset choose_resource refuses_resource cmp contains insert
validated = refl

built_registry : build (client ∷ []) none ≡ ok registry
unfolding build build_clients HashMap.get HashMap.insert text_beq
built_registry = refl

keyed : IsKeyed registry
keyed = build-IsKeyed (client ∷ []) none registry built_registry

projects : project_cimd lib 0 registry snapshot (openid ∷ []) (api ∷ []) false ≡ ok projected
unfolding project_cimd HashMap.get HashMap.insert text_beq redirects_of new_redirect safe_redirect
    strip_prefix new_client with_authorization_flow keep_scopes collect insert cmp blank_from any
    valid_scope_token all safe_url safe_security_identifier security_binding contains
projects = refl

granted : approve 0 pending true ≡ ok grant
unfolding approve any text_beq ensure_fresh
granted = refl

pre_authorized : pre_authorizes registry pending ≡ true
unfolding pre_authorizes HashMap.get text_beq any all contains cmp
pre_authorized = refl

validate_pending_iff_example : (validate_pending lib 0 registry request ≡ ok pending) ↔ (
    (c : FirstPartyClient) × IsAdmitted lib 0 registry request c pending
    × (pending ≡ grant_of registry request c pending.resource))
validate_pending_iff_example = validate_pending_iff lib 0 registry request pending

revalidate-validate_example : revalidate_pending lib 0 registry pending ≡ ok pending
revalidate-validate_example = revalidate-validate lib 0 registry keyed request pending validated

approve_grants_example :
    Leased pending.dynamic 0
    × (grant.client_id ≡ pending.client_id)
    × (grant.redirect_uri ≡ pending.redirect_uri)
    × (grant.scopes ≡ pending.scopes)
    × (grant.resource ≡ pending.resource)
    × (grant.code_challenge ≡ pending.code_challenge)
    × (grant.dynamic ≡ pending.dynamic)
    × (grant.issue_refresh_token ≡ contains pending.scopes (bytes "offline_access"))
    × ((grant.issue_refresh_token ≡ true) → true ≡ true)
approve_grants_example = approve_grants 0 pending true grant granted

verify_s256_iff_example : (verify_s256 lib verifier challenge ≡ true) ↔ (
    (43 ≤ length verifier)
    × (length verifier ≤ 128)
    × (all is_verifier_byte verifier ≡ true)
    × (challenge ≡ lib.base64_encode (lib.sha256 verifier)))
verify_s256_iff_example = verify_s256_iff lib lib-EncodesDigests verifier challenge

redirect_matches_iff_example :
    (redirect_matches lib native (bytes "http://127.0.0.1:49152/cb") ≡ true) ↔ (
      (is_some (safe_redirect lib (bytes "http://127.0.0.1:49152/cb")) ≡ true)
      × ((native.uri ≡ bytes "http://127.0.0.1:49152/cb")
          ⊎ ((native.kind ≡ native_loopback)
              × DifferInPort native.uri (bytes "http://127.0.0.1:49152/cb"))))
redirect_matches_iff_example = redirect_matches_iff lib native (bytes "http://127.0.0.1:49152/cb")

loopback_parts_iff_example :
    (loopback_parts (bytes "http://[::1]:8080/cb") ≡ some (bytes "[::1]", bytes "/cb"))
    ↔ IsLoopback (bytes "http://[::1]:8080/cb") (bytes "[::1]") (bytes "/cb")
loopback_parts_iff_example =
    loopback_parts_iff (bytes "http://[::1]:8080/cb") (bytes "[::1]") (bytes "/cb")
