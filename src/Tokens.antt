-- ===== src/Tokens.antt =====
-- tokens.rs: the claims of access and identity tokens, and the response of the token endpoint.
use eri.Common.{
  ℕ, ◌+◌, Text, bytes, Bool, not, ◌&&◌, Option, none, some, List, [], ◌∷◌, ◌++◌, any, ◌==◌, text_eq,
  Result, ok, ◌>>=◌, ok_or, if◌then◌else◌,
}
use eri.Credentials.Types.{ExchangeResult}
use eri.Logout.{timestamp}

-- Identifiers of type `Uuid` are numbers here; the times are seconds.
pub record AccessClaims : Type 0 where
  pub iss : Text
  pub sub : ℕ
  pub aud : List Text
  pub exp : ℕ
  pub iat : ℕ
  pub jti : Text
  pub client_id : Text
  pub scope : Text

pub record IdClaims : Type 0 where
  pub sid : Option ℕ
  pub iss : Text
  pub sub : ℕ
  pub aud : Text
  pub exp : ℕ
  pub iat : ℕ
  pub nonce : Option Text
  pub auth_time : Option ℕ

pub record TokenResponse : Type 0 where
  pub access_token : Text
  pub token_type : Text
  pub expires_in : ℕ
  pub scope : Text
  pub refresh_token : Option Text
  pub id_token : Option Text

-- `SigningKeys::sign` and `sign_id`: a library's signature over the claims.
pub record Signer : Type 0 where
  pub sign : AccessClaims → Option Text
  pub sign_id : IdClaims → Option Text

-- `join(" ")`
unfoldable pub join : List Text → Text
join [] = []
join (scope ∷ []) = scope
join (scope ∷ next ∷ scopes) = let rest = join (next ∷ scopes) in scope ++ b' ' ∷ rest

abbrev pub has_openid : List Text → Bool
has_openid scopes = any (λ s. s == bytes "openid") scopes

-- The audiences: the resource, and the user information endpoint under `openid`.
abbrev pub audiences : Text → ExchangeResult → List Text
audiences userinfo exchange =
    if has_openid exchange.scopes && not (exchange.resource == userinfo)
    then exchange.resource ∷ userinfo ∷ []
    else exchange.resource ∷ []

abbrev pub access_claims : Text → Text → ℕ → Text → ExchangeResult → AccessClaims
access_claims issuer userinfo now jti exchange = record {
  iss = issuer;
  sub = exchange.user_id;
  aud = audiences userinfo exchange;
  exp = now + 300;
  iat = now;
  jti = jti;
  client_id = exchange.client_id;
  scope = join exchange.scopes;
}

abbrev auth_seconds : Option ℕ → Option ℕ
auth_seconds none = none
auth_seconds (some time) = some (timestamp time)

abbrev pub id_claims : Text → ℕ → ExchangeResult → IdClaims
id_claims issuer now exchange = record {
  sid = some exchange.session_id;
  iss = issuer;
  sub = exchange.user_id;
  aud = exchange.client_id;
  exp = now + 300;
  iat = now;
  nonce = exchange.oidc_nonce;
  auth_time = auth_seconds exchange.upstream_auth_time;
}

unfoldable pub identity_token :
    Signer → Text → ℕ → ExchangeResult → Bool → Result (Unit {0}) (Option Text)
identity_token keys issuer now exchange initial =
    if initial && has_openid exchange.scopes
    then (do token ← ok_or (keys.sign_id (id_claims issuer now exchange)) tt; ok (some token))
    else ok none

unfoldable pub issue :
    Signer → Text → Text → ℕ → Text → ExchangeResult → Bool → Result (Unit {0}) TokenResponse
unfolding join any
issue keys issuer userinfo now jti exchange initial = do
  access_token ← ok_or (keys.sign (access_claims issuer userinfo now jti exchange)) tt
  id_token ← identity_token keys issuer now exchange initial
  ok (record {
    access_token = access_token;
    token_type = bytes "Bearer";
    expires_in = 300;
    scope = join exchange.scopes;
    refresh_token = exchange.refresh_token;
    id_token = id_token;
  })
