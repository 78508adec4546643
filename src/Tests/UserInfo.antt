-- ===== src/Tests/UserInfo.antt =====
-- A request for user information, at a concrete input.
use eri.Common.{
  ◌≡◌, Text, bytes, Option, none, some, [], ◌∷◌, find, any, all, text_beq, split, refl, true,
  if◌then◌else◌, ok, err, strip_prefix,
}
use eri.Oauth.Pkce.{valid_scope_token}
use eri.Store.{Db, ProfileRow}
use eri.Tokens.{AccessClaims}
use eri.Web.Form.{HeaderMap, bearer, one, values_of, origin}
use eri.Web.UserInfo.{UserInfo, user_profile, read_form, userinfo}
use eri.Web.UserInfo.Disclosed.{IsDisclosed, userinfo-IsDisclosed}
use eri.Tests.Demo.{app}
use eri.Tests.Demo
use eri.Tests.Tokens.{start}
use eri.Tests.Web.{provider}

abbrev headers : HeaderMap
headers = record { cookies = []; origins = []; authorization = some (some (bytes "Bearer t")) }

abbrev pub claims : AccessClaims
claims = record {
  iss = provider.issuer;
  sub = 7;
  aud = provider.userinfo ∷ [];
  exp = 1_300;
  iat = 1_000;
  jti = bytes "j";
  client_id = app;
  scope = bytes "openid email";
}

abbrev accept : Text → Text → Text → Option AccessClaims
accept token issuer audience = if text_beq token (bytes "t") then some claims else none

abbrev profile : ProfileRow
profile = record {
  user_id = 7;
  name = some (bytes "Ada");
  given_name = none;
  family_name = none;
  picture = none;
  verified_email = some (bytes "ada@example.com");
  updated_at = 0;
}

abbrev db : Db
db = record start { profiles = profile ∷ [] }

-- The scope profile is not granted, so no name is shown.
abbrev shown : UserInfo
shown = record {
  sub = 7;
  name = none;
  given_name = none;
  family_name = none;
  picture = none;
  email = some (bytes "ada@example.com");
  email_verified = some true;
}

disclosed : userinfo Demo.lib accept provider headers [] 1_100 db ≡ ok (shown, none)
unfolding userinfo read_form bearer one values_of user_profile find any all text_beq split
    valid_scope_token strip_prefix origin
disclosed = refl

expired : userinfo Demo.lib accept provider headers [] 1_330 db ≡ err tt
unfolding userinfo read_form bearer one values_of user_profile find any all text_beq split
    valid_scope_token strip_prefix origin
expired = refl

userinfo-IsDisclosed_example :
    IsDisclosed Demo.lib accept provider headers [] 1_100 db shown × (origin headers ≡ none)
userinfo-IsDisclosed_example =
    userinfo-IsDisclosed Demo.lib accept provider headers [] 1_100 db shown none disclosed
