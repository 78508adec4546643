-- ===== src/Config/Types.antt =====
-- config.rs: the parts of the configuration.
use eri.Common.{
  ℕ, Text, bytes, Bool, false, ◌&&◌, Option, none, some, List, [], ◌∷◌, is_empty, nat_beq, ◌==◌,
  text_eq, Result, ok, err, if◌then◌else◌,
}
use eri.External.{Url, ipv4, ipv6}
use eri.Cimd.Address.{IpAddr, v4, v6}
use eri.Oauth.Types.{RedirectKind, AuthorizationFlow, LogoutFlow}

pub data Mode : Type 0 where
  development production : Mode

pub record CimdPolicyConfig : Type 0 where
  pub scopes : List Text
  pub resources : List Text
  pub allow_refresh : Bool

pub record GoogleClientConfig : Type 0 where
  pub client_id : Text
  pub client_secret_env : Text

pub record RedirectDeclaration : Type 0 where
  pub uri : Text
  pub kind : RedirectKind

-- The configured kinds and flows are written with the constructors that they are turned into.
pub record ClientDeclaration : Type 0 where
  pub id : Text
  pub display_name : Text
  pub redirects : List RedirectDeclaration
  pub scopes : List Text
  pub resources : List Text
  pub default_resource : Option Text
  pub browser_origins : List Text
  pub post_logout_redirects : List Text
  pub authorization_flow : AuthorizationFlow
  pub logout_flow : LogoutFlow

pub record AuthorizationConfig : Type 0 where
  pub google : Option GoogleClientConfig
  pub clients : List ClientDeclaration
  pub cimd : Option CimdPolicyConfig

pub record DatabaseConfig : Type 0 where
  pub url : Option Text
  pub url_env : Text
  pub max_connections : ℕ
  pub min_connections : ℕ
  pub connect_timeout_seconds : ℕ
  pub acquire_timeout_seconds : ℕ
  pub readiness_timeout_milliseconds : ℕ

-- The path of the signing manifest is left out.
pub record Config : Type 0 where
  pub mode : Mode
  pub issuer : Url
  pub bind_ip : IpAddr
  pub bind_port : ℕ
  pub database : DatabaseConfig
  pub authorization : Option AuthorizationConfig

-- The errors of validation; the other two are of reading the file.
pub data ConfigError : Type 0 where
  invalid : Text → ConfigError

abbrev pub is_loopback_ip : IpAddr → Bool
is_loopback_ip (v4 a b c d) = nat_beq a 127
is_loopback_ip (v6 s0 s1 s2 s3 s4 s5 s6 s7) =
    nat_beq s0 0
    && nat_beq s1 0
    && nat_beq s2 0
    && nat_beq s3 0
    && nat_beq s4 0
    && nat_beq s5 0
    && nat_beq s6 0
    && nat_beq s7 1

abbrev first_is_127 : List ℕ → Bool
first_is_127 [] = false
first_is_127 (a ∷ _) = nat_beq a 127

abbrev pub is_loopback_url : Url → Bool
is_loopback_url url = elim url.host [
  | some (ipv4 octets) ↦ first_is_127 octets
  | some (ipv6 segments) ↦ segments == (0 ∷ 0 ∷ 0 ∷ 0 ∷ 0 ∷ 0 ∷ 0 ∷ 1 ∷ [])
  | _ ↦ false
]

-- `DatabaseConfig::resolved_url`, for the value of the variable that `url_env` names.
abbrev pub nonempty : Option Text → Option Text
nonempty none = none
nonempty (some v) = if is_empty v then none else some v

unfoldable pub resolved_url : DatabaseConfig → Option Text → Result ConfigError Text
resolved_url config variable = elim (nonempty variable) [
  | some value ↦ ok value
  | none ↦ elim (nonempty config.url) [
    | some value ↦ ok value
    | none ↦ err (invalid (bytes "database URL is not configured"))
  ]
]
