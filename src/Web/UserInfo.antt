-- ===== src/Web/UserInfo.antt =====
-- web.rs: the user information endpoint.
pub mod Disclosed
use eri.Common.{
  ℕ, ◌+◌, Text, bytes, Bool, true, false, not, ◌&&◌, ◌||◌, Option, none, some, List, [], ◌∷◌,
  is_empty, any, all, find, leb, ltb, nat_beq, ◌==◌, text_eq, is_some, Result, ok, err, ◌>>=◌, ◌>>◌,
  ok_or, refuse_if, map_err, if◌then◌else◌, split,
}
use eri.External.{Libs}
use eri.Oauth.Pkce.{valid_scope_token}
use eri.Store.{Db, ProfileRow}
use eri.Tokens.{AccessClaims}
use eri.Web.Form.{Form, HeaderMap, pairs_bytes, bearer, origin}
use eri.Web.Provider.{Provider}
use eri.Web.Token.{foreign_origin}

-- The object of the response: a field that is `none` is not written.
pub record UserInfo : Type 0 where
  pub sub : ℕ
  pub name : Option Text
  pub given_name : Option Text
  pub family_name : Option Text
  pub picture : Option Text
  pub email : Option Text
  pub email_verified : Option Bool

-- Seconds.
abbrev pub skew : ℕ
skew = 30

-- The guards on the times and the identifiers of the claims.
abbrev pub bad_access : AccessClaims → ℕ → Bool
bad_access claims now =
    leb (claims.exp + skew) now
    || ltb (now + skew) claims.iat
    || is_empty claims.jti
    || is_empty claims.client_id

abbrev pub has_scope : Text → List Text → Bool
has_scope scope scopes = any (λ s. s == scope) scopes

-- `valid_scope` of web.rs has the body of `valid_scope_token` of oauth.rs.
abbrev pub bad_scopes : List Text → Bool
bad_scopes scopes =
    not (has_scope (bytes "openid") scopes)
    || is_empty scopes
    || any (λ s. not (valid_scope_token s)) scopes

abbrev pub under {ℓ} : {A : Type ℓ} → Bool → Option A → Option A
under true v = v
under false v = none

abbrev verified : Option Text → Option Bool
verified none = none
verified (some address) = some true

-- `Database::user_profile`
unfoldable pub user_profile : ℕ → Db → Option ProfileRow
user_profile user_id db = find (λ (r : ProfileRow). nat_beq r.user_id user_id) db.profiles

abbrev pub disclose : AccessClaims → List Text → ProfileRow → UserInfo
disclose claims scopes profile = record {
  sub = claims.sub;
  name = under (has_scope (bytes "profile") scopes) profile.name;
  given_name = under (has_scope (bytes "profile") scopes) profile.given_name;
  family_name = under (has_scope (bytes "profile") scopes) profile.family_name;
  picture = under (has_scope (bytes "profile") scopes) profile.picture;
  email = under (has_scope (bytes "email") scopes) profile.verified_email;
  email_verified = under (has_scope (bytes "email") scopes) (verified profile.verified_email);
}

module _ (lib : Libs) (verify : Text → Text → Text → Option AccessClaims) where
  -- `if body.is_empty() { vec![] } else { … }`
  unfoldable pub read_form : Text → Result (Unit {0}) Form
  read_form body = if is_empty body then ok [] else pairs_bytes lib body 4096

  -- `userinfo`: every refusal is `bearer_error`. `verify` is `SigningKeys::verify` for a token, an
  -- issuer and an audience. Beside the object stands the origin that CORS names.
  unfoldable pub userinfo :
      Provider → HeaderMap → Text → ℕ → Db → Result (Unit {0}) (UserInfo × Option Text)
  userinfo p headers body now db = do
    form ← read_form body
    token ← ok_or (bearer headers form) tt
    claims ← ok_or (verify token p.issuer p.userinfo) tt
    refuse_if (bad_access claims now) tt
    refuse_if (bad_scopes (split b' ' claims.scope)) tt
    refuse_if (foreign_origin p headers claims.client_id) tt
    profile ← ok_or (user_profile claims.sub db) tt
    ok (disclose claims (split b' ' claims.scope) profile, origin headers)
