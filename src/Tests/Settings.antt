-- ===== src/Tests/Settings.antt =====
-- A configuration, and its validation.
use eri.Common.{bytes, false, none, some, [], ◌∷◌, refl, any, all, text_beq, strip_prefix}
use eri.Common.HashMap
use eri.Common.SortedSet.{cmp, insert, collect, contains}
use eri.External.{Url, domain}
use eri.Cimd.Address.{v4}
use eri.Oauth.Types.{exact, interactive, LogoutFlow}
use eri.Oauth.Pkce.{valid_scope_token}
use eri.Oauth.Redirect.{
  new_redirect, safe_redirect, safe_security_identifier, safe_url, loopback_parts,
  loopback_authority, split_host, split_authority, check_port, valid_port,
}
use eri.Oauth.Client.{with_authorization_flow, blank_from, bad_browser_origin}
use eri.Oauth.Registry.{build, build_clients, with_issuer}
use eri.Config.Types.{production, Config}
use eri.Config.{
  validate, check_issuer, check_scheme, authorization_registry, registry_of, declared_clients,
  declared_client, declared_redirects,
}
use eri.Config.Valid.{IsValid, validate-IsValid}
use eri.Tests.Demo.{lib, callback, openid, api}

abbrev issuer : Url
issuer = record {
  scheme = bytes "https";
  username = [];
  password = none;
  host = some (domain (bytes "id.example"));
  port = none;
  path = bytes "/";
  query = none;
  fragment = none;
  cannot_be_a_base = false;
}

abbrev config : Config
config = record {
  mode = production;
  issuer = issuer;
  bind_ip = v4 127 0 0 1;
  bind_port = 8080;
  database = record {
    url = none;
    url_env = bytes "ERI_DATABASE_URL";
    max_connections = 10;
    min_connections = 1;
    connect_timeout_seconds = 5;
    acquire_timeout_seconds = 5;
    readiness_timeout_milliseconds = 500;
  };
  authorization = some (record {
    google = some (record { client_id = bytes "g"; client_secret_env = bytes "G" });
    clients =
        record {
          id = bytes "app";
          display_name = bytes "App";
          redirects = record { uri = callback; kind = exact } ∷ [];
          scopes = openid ∷ [];
          resources = api ∷ [];
          default_resource = some api;
          browser_origins = [];
          post_logout_redirects = [];
          authorization_flow = interactive;
          logout_flow = LogoutFlow.interactive;
        }
        ∷ [];
    cimd = none;
  });
}

validate-IsValid_example : IsValid lib config
unfolding validate check_issuer check_scheme text_beq blank_from authorization_registry registry_of
    declared_clients declared_client declared_redirects new_redirect safe_redirect strip_prefix
    with_authorization_flow collect any all valid_scope_token HashMap.get HashMap.insert cmp
    contains insert bad_browser_origin safe_security_identifier safe_url build build_clients
    with_issuer loopback_parts loopback_authority split_host split_authority check_port valid_port
validate-IsValid_example = validate-IsValid lib config refl
