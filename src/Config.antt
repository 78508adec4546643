-- ===== src/Config.antt =====
-- config.rs: the validation of the configuration, and the registry that it declares.
pub mod Types
pub mod Registry
pub mod Valid
use eri.Common.{
  ℕ, Text, bytes, Bool, true, false, not, ◌&&◌, ◌||◌, Option, none, some, List, [], ◌∷◌, length,
  is_empty, any, ltb, nat_beq, ◌==◌, text_eq, is_some, is_some_and, Result, ok, err, ◌>>=◌, ◌>>◌,
  refuse_if, map_err, is_err, if◌then◌else◌,
}
use eri.Common.SortedSet.{collect}
use eri.External.{Libs, Url, Host, domain, ipv4, ipv6}
use eri.Cimd.Address.{IpAddr, v4, v6}
use eri.Oauth.Types.{RedirectKind, exact, AuthorizationFlow, LogoutFlow}
use eri.Oauth.Redirect.{RegisteredRedirect, new_redirect}
use eri.Oauth.Client.{
  FirstPartyClient, ClientParts, is_blank, new_client, with_authorization_flow, with_logout_flow,
}
use eri.Oauth.Registry.{ClientRegistry, with_issuer}
use eri.Config.Types.{
  Mode, development, production, CimdPolicyConfig, GoogleClientConfig, RedirectDeclaration,
  ClientDeclaration, AuthorizationConfig, DatabaseConfig, Config, ConfigError, invalid,
  is_loopback_ip, is_loopback_url, resolved_url,
}

module _ (lib : Libs) where
  abbrev pub policy_error : ConfigError
  policy_error = invalid (bytes "CIMD policy is invalid")

  abbrev pub policy_parts : CimdPolicyConfig → RegisteredRedirect → ClientParts
  policy_parts policy redirect = record {
    id = bytes "cimd-policy";
    display_name = bytes "CIMD policy";
    redirects = redirect ∷ [];
    scopes = policy.scopes;
    resources = policy.resources;
    default_resource = none;
    browser_origins = [];
    post_logout_redirects = [];
  }

  -- `CimdPolicyConfig::validate`
  unfoldable pub validate_policy : CimdPolicyConfig → Result ConfigError (Unit {0})
  validate_policy policy = do
    refuse_if
        (is_empty policy.scopes
          || ltb 64 (length policy.scopes)
          || is_empty policy.resources
          || ltb 32 (length policy.resources)
          || not (nat_beq (length (collect policy.scopes)) (length policy.scopes))
          || not (nat_beq (length (collect policy.resources)) (length policy.resources))
          || not (any (λ s. not (s == bytes "offline_access")) policy.scopes))
        policy_error
    redirect ←
        map_err (λ _. policy_error)
          (new_redirect lib (bytes "https://policy.example.org/callback") exact)
    _client ← map_err (λ _. policy_error) (new_client lib (policy_parts policy redirect))
    ok tt

  -- `c.redirects.iter().map(RegisteredRedirect::new).collect()`
  unfoldable pub declared_redirects :
      List RedirectDeclaration → Result ConfigError (List RegisteredRedirect)
  declared_redirects [] = ok []
  declared_redirects (r ∷ rs) = do
    redirect ←
        map_err (λ _. invalid (bytes "authorization client redirect is invalid"))
          (new_redirect lib r.uri r.kind)
    rest ← declared_redirects rs
    ok (redirect ∷ rest)

  abbrev pub declared_parts : ClientDeclaration → List RegisteredRedirect → ClientParts
  declared_parts c redirects = record {
    id = c.id;
    display_name = c.display_name;
    redirects = redirects;
    scopes = c.scopes;
    resources = c.resources;
    default_resource = c.default_resource;
    browser_origins = c.browser_origins;
    post_logout_redirects = c.post_logout_redirects;
  }

  unfoldable pub declared_client : ClientDeclaration → Result ConfigError FirstPartyClient
  declared_client c = do
    redirects ← declared_redirects c.redirects
    client ←
        map_err (λ _. invalid (bytes "authorization client is invalid"))
          (with_authorization_flow lib (declared_parts c redirects) c.authorization_flow)
    ok (with_logout_flow client c.logout_flow)

  unfoldable pub declared_clients :
      List ClientDeclaration → Result ConfigError (List FirstPartyClient)
  declared_clients [] = ok []
  declared_clients (c ∷ cs) = do
    client ← declared_client c
    rest ← declared_clients cs
    ok (client ∷ rest)

  unfoldable pub registry_of : AuthorizationConfig → Url → Result ConfigError ClientRegistry
  registry_of auth issuer = do
    clients ← declared_clients auth.clients
    map_err (λ _. invalid (bytes "authorization registry is invalid"))
        (with_issuer lib clients issuer)

  -- `Config::authorization_registry`
  unfoldable pub authorization_registry : Config → Result ConfigError (Option ClientRegistry)
  authorization_registry config = elim config.authorization [
    | none ↦ ok none
    | some auth ↦ do registry ← registry_of auth config.issuer; ok (some registry)
  ]

  abbrev pub bad_google : Option GoogleClientConfig → Bool
  bad_google none = true
  bad_google (some g) = is_blank g.client_id || is_blank g.client_secret_env

  -- The guards on the scheme of the issuer, by the mode.
  unfoldable pub check_scheme : Mode → Url → Result ConfigError (Unit {0})
  check_scheme production issuer =
      refuse_if (not (issuer.scheme == bytes "https"))
        (invalid (bytes "production issuer must use HTTPS"))
  check_scheme development issuer =
      if issuer.scheme == bytes "http" && not (is_loopback_url issuer)
      then err (invalid (bytes "development HTTP issuer must use a loopback IP"))
      else if not (issuer.scheme == bytes "http" || issuer.scheme == bytes "https")
      then err (invalid (bytes "issuer must use HTTP or HTTPS"))
      else ok tt

  unfoldable pub check_issuer : Mode → Url → Result ConfigError (Unit {0})
  check_issuer mode issuer = do
    refuse_if (issuer.cannot_be_a_base || not (is_some issuer.host))
        (invalid (bytes "issuer must be an absolute URL"))
    refuse_if
        (not (is_empty issuer.username)
          || is_some issuer.password
          || is_some issuer.query
          || is_some issuer.fragment)
        (invalid (bytes "issuer cannot contain credentials, query, or fragment"))
    refuse_if (not (issuer.path == bytes "/")) (invalid (bytes "issuer path is not supported"))
    check_scheme mode issuer

  abbrev pub check_cimd : Option AuthorizationConfig → Result ConfigError (Unit {0})
  check_cimd none = ok tt
  check_cimd (some auth) = elim auth.cimd [ none ↦ ok tt | some policy ↦ validate_policy policy ]

  abbrev pub bad_authorization : Config → Bool
  bad_authorization config =
      is_some_and
        (λ (auth : AuthorizationConfig).
          is_empty auth.clients || bad_google auth.google || is_err (authorization_registry config))
        config.authorization

  -- `Config::validate`
  unfoldable pub validate : Config → Result ConfigError (Unit {0})
  validate config = do
    check_issuer config.mode config.issuer
    refuse_if (not (is_loopback_ip config.bind_ip))
        (invalid (bytes "bind address must be an explicit loopback IP"))
    refuse_if (nat_beq config.bind_port 0) (invalid (bytes "bind port must be non-zero"))
    refuse_if
        (nat_beq config.database.max_connections 0
          || ltb config.database.max_connections config.database.min_connections)
        (invalid (bytes "database pool bounds are invalid"))
    refuse_if (is_blank config.database.url_env)
        (invalid (bytes "database url_env cannot be empty"))
    refuse_if (bad_authorization config) (invalid (bytes "authorization configuration is invalid"))
    check_cimd config.authorization
