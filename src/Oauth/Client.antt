-- ===== src/Oauth/Client.antt =====
-- oauth.rs: `FirstPartyClient`, its constructor and its guards.
use eri.Common.{
  ℕ, Text, bytes, Bool, true, false, not, ◌&&◌, ◌||◌, Option, List, [], ◌∷◌, is_empty, any, is_some,
  is_some_and, nat_beq, leb, ◌==◌, text_eq, Result, ok, ◌>>◌, refuse_if, if◌then◌else◌,
}
use eri.Common.SortedSet.{collect, contains}
use eri.External.{Libs, Url}
use eri.Oauth.Types.{AuthorizationFlow, LogoutFlow, OauthError, invalid_client_declaration}
use eri.Oauth.Pkce.{valid_scope_token}
use eri.Oauth.Redirect.{RegisteredRedirect, safe_url, safe_redirect, safe_security_identifier}

pub record FirstPartyClient : Type 0 where
  pub id : Text
  pub display_name : Text
  pub redirects : List RegisteredRedirect
  pub scopes : List Text
  pub resources : List Text
  pub default_resource : Option Text
  pub browser_origins : List Text
  pub post_logout_redirects : List Text
  pub authorization_flow : AuthorizationFlow
  pub logout_flow : LogoutFlow

-- `str::trim().is_empty()`: every character is white space. The states are the beginnings of the
-- UTF-8 forms of the white space beyond ASCII: U+0085, U+00A0, U+1680, U+2000 to U+200A, U+2028,
-- U+2029, U+202F, U+205F and U+3000.
pub data BlankState : Type 0 where
  between after_c2 after_e1 after_e19a after_e2 after_e280 after_e281 after_e3 after_e380 :
      BlankState
  not_blank : BlankState

abbrev pub blank_start : ℕ → BlankState
blank_start b =
    if (leb 0x09 b && leb b 0x0d) || nat_beq b 0x20
    then between
    else if nat_beq b 0xc2
    then after_c2
    else if nat_beq b 0xe1
    then after_e1
    else if nat_beq b 0xe2
    then after_e2
    else if nat_beq b 0xe3
    then after_e3
    else not_blank

abbrev pub blank_step : BlankState → ℕ → BlankState
blank_step between b = blank_start b
blank_step after_c2 b = if nat_beq b 0x85 || nat_beq b 0xa0 then between else not_blank
blank_step after_e1 b = if nat_beq b 0x9a then after_e19a else not_blank
blank_step after_e19a b = if nat_beq b 0x80 then between else not_blank
blank_step after_e2 b =
    if nat_beq b 0x80 then after_e280 else if nat_beq b 0x81 then after_e281 else not_blank
blank_step after_e280 b =
    if (leb 0x80 b && leb b 0x8a) || nat_beq b 0xa8 || nat_beq b 0xa9 || nat_beq b 0xaf
    then between
    else not_blank
blank_step after_e281 b = if nat_beq b 0x9f then between else not_blank
blank_step after_e3 b = if nat_beq b 0x80 then after_e380 else not_blank
blank_step after_e380 b = if nat_beq b 0x80 then between else not_blank
blank_step not_blank b = not_blank

unfoldable pub blank_from : BlankState → Text → Bool
blank_from between [] = true
blank_from _ [] = false
blank_from st (b ∷ s) = blank_from (blank_step st b) s

abbrev pub is_blank : Text → Bool
is_blank = blank_from between

-- The arguments of `FirstPartyClient::new` and `with_authorization_flow`.
pub record ClientParts : Type 0 where
  pub id : Text
  pub display_name : Text
  pub redirects : List RegisteredRedirect
  pub scopes : List Text
  pub resources : List Text
  pub default_resource : Option Text
  pub browser_origins : List Text
  pub post_logout_redirects : List Text

module _ (lib : Libs) where
  -- `safe_url(o).is_err() || Url::parse(o).is_ok_and(|u| …)`
  unfoldable pub bad_browser_origin : Text → Bool
  bad_browser_origin o =
      not (is_some (safe_url lib o))
      || is_some_and (λ (u : Url). not (u.path == bytes "/") || is_some u.query) (lib.parse_url o)

  -- `FirstPartyClient::with_authorization_flow`
  unfoldable pub with_authorization_flow :
      ClientParts → AuthorizationFlow → Result OauthError FirstPartyClient
  with_authorization_flow parts flow = do
    let scopes = collect parts.scopes
    let resources = collect parts.resources
    let browser_origins = collect parts.browser_origins
    let post_logout_redirects = collect parts.post_logout_redirects
    refuse_if
        (is_empty parts.id
          || is_blank parts.display_name
          || is_empty parts.redirects
          || is_empty scopes
          || any (λ s. not (valid_scope_token s)) scopes)
        invalid_client_declaration
    refuse_if
        (is_some_and (λ r. not (contains resources r)) parts.default_resource
          || any (λ r. not (safe_security_identifier lib r)) resources
          || any bad_browser_origin browser_origins
          || any (λ r. not (is_some (safe_redirect lib r))) post_logout_redirects)
        invalid_client_declaration
    ok (record {
      id = parts.id;
      display_name = parts.display_name;
      redirects = parts.redirects;
      scopes = scopes;
      resources = resources;
      default_resource = parts.default_resource;
      browser_origins = browser_origins;
      post_logout_redirects = post_logout_redirects;
      authorization_flow = flow;
      logout_flow = LogoutFlow.interactive;
    })

  -- `FirstPartyClient::new`
  unfoldable pub new_client : ClientParts → Result OauthError FirstPartyClient
  new_client parts = with_authorization_flow parts AuthorizationFlow.interactive

-- `FirstPartyClient::with_logout_flow`
abbrev pub with_logout_flow : FirstPartyClient → LogoutFlow → FirstPartyClient
with_logout_flow client flow = record client { logout_flow = flow }
