-- ===== src/Tests/Web.antt =====
-- Requests at the HTTP interface, at concrete inputs.
use eri.Common.{
  suc, ◌≡◌, Text, bytes, true, false, not, none, some, List, [], ◌∷◌, length, find, all, any,
  update_where, refl, err, text_beq, split, split_once, trim_start_by, trim_end_by, strip_prefix,
  is_utf8_from,
}
use eri.Common.HashMap
use eri.Common.SortedSet.{cmp, insert, collect, contains, is_subset}
use eri.External.{Libs}
use eri.Oauth.Pkce.{
  verify_s256, s256_challenge, validate_pkce_verifier, validate_pkce_challenge, valid_scope_token,
}
use eri.Oauth.Redirect.{redirect_matches, safe_redirect}
use eri.Oauth.Registry.{ensure_fresh, dynamic_for, validate_binding, match_binding}
use eri.Oauth.Policy.{validate_pending, refuses_scopes, choose_resource, refuses_resource}
use eri.Store.{
  Db, code_by_hash, code_by_id, session_by_id, insert_family, insert_member, family_by_id,
  member_by_id, member_by_hash, consume_code, revoke_families,
}
use eri.Transaction.{◌>>=◌}
use eri.Credentials.Types.{check_binding, check_policy}
use eri.Credentials.Exchange.{
  exchange_code_request, exchange_code_bound, exchange_locked, consume_and_issue, start_family,
  binds_code, replay_code,
}
use eri.Tokens.{TokenResponse, issue, join, identity_token}
use eri.Web.Percent.{
  valid_percent, valid_percent_from, well_encoded, byte_at, valid_percent-eq-reference,
}
use eri.Web.Escape.{escape, replace, read_text, is_markup, read_text-escape}
use eri.Web.Form.{
  HeaderMap, cookie, cookie_from, cookie_in, take, values_of, one, optional, origin, pairs,
  pairs_bytes,
}
use eri.Web.Form.Cookies.{cookies_of, cookie_value, cookie-eq-reference}
use eri.Web.Provider.{Provider, resolve_client}
use eri.Web.Token.{
  Surroundings, issued, token_error, grant_of, run_grant, attempt_grant, attempts, reply_of,
  read_token_request, token,
}
use eri.Web.Token.Issued.{IsIssued, token-IsIssued}
use eri.Cimd.Document.{busy}
use eri.Tests.Demo.{fill, verifier, app, callback, openid, registry}
use eri.Tests.Demo
use eri.Tests.Tokens.{start, raw_code, first_call}

valid_percent-eq-reference_example :
    (valid_percent_from (suc (length (bytes "a=%20b%4"))) (bytes "a=%20b%4") 0
      ≡ some (well_encoded 0 (bytes "a=%20b%4")))
    × (valid_percent (bytes "a=%20b%4") ≡ well_encoded 0 (bytes "a=%20b%4"))
valid_percent-eq-reference_example = valid_percent-eq-reference (bytes "a=%20b%4")

percents :
    (valid_percent (bytes "a=%20b") ≡ true)
    × (valid_percent (bytes "a=%20b%4") ≡ false)
    × (valid_percent (bytes "%zz") ≡ false)
unfolding valid_percent valid_percent_from byte_at
percents = (refl, refl, refl)

read_text-escape_example :
    (all (λ b. not (is_markup b)) (escape (bytes "<a href='x'>&")) ≡ true)
    × (read_text (suc (length (bytes "<a href='x'>&"))) (escape (bytes "<a href='x'>&"))
        ≡ bytes "<a href='x'>&")
read_text-escape_example = read_text-escape (bytes "<a href='x'>&")

escaped : escape (bytes "<b>") ≡ bytes "&lt;b&gt;"
unfolding escape replace
escaped = refl

abbrev headers : HeaderMap
headers = record {
  cookies = some (bytes "a=1; eri_dev_session=s_one") ∷ some (bytes "b=2") ∷ [];
  origins = [];
  authorization = none;
}

cookie-eq-reference_example :
    cookie headers (bytes "eri_dev_session")
    ≡ cookie_value (cookies_of headers.cookies) (bytes "eri_dev_session")
cookie-eq-reference_example = cookie-eq-reference headers (bytes "eri_dev_session")

found : cookie headers (bytes "eri_dev_session") ≡ some (bytes "s_one")
unfolding cookie cookie_from cookie_in take split split_once trim_start_by trim_end_by text_beq
found = refl

-- The only form, and keys that sign with a letter.
abbrev form : List (Text × Text)
form =
    (bytes "client_id", app)
    ∷ (bytes "grant_type", bytes "authorization_code")
    ∷ (bytes "code", raw_code)
    ∷ (bytes "redirect_uri", callback)
    ∷ (bytes "code_verifier", verifier)
    ∷ []

abbrev lib : Libs
lib = record Demo.lib { parse_form = λ body. form }

abbrev pub provider : Provider
provider = record {
  registry = registry;
  cimd_policy = none;
  issuer = bytes "https://id.example";
  userinfo = bytes "https://id.example/userinfo";
  keys = record { sign = λ claims. some (bytes "A"); sign_id = λ claims. some (bytes "I") };
}

abbrev around : Surroundings
around = record {
  env = λ k. first_call;
  resolved_at = λ k. k;
  fetched = λ k. err busy;
  now = 1_000;
  jti = bytes "j";
}

abbrev response : TokenResponse
response = record {
  access_token = bytes "A";
  token_type = bytes "Bearer";
  expires_in = 300;
  scope = openid;
  refresh_token = some (bytes "refresh_one");
  id_token = some (bytes "I");
}

abbrev answer : Db
answer = (token lib provider around headers (bytes "body") start).2

program : Unit {0}
unfolding token read_token_request attempts attempt_grant run_grant grant_of reply_of pairs_bytes
    pairs valid_percent valid_percent_from byte_at is_utf8_from one values_of optional origin
    resolve_client issue join identity_token exchange_code_request exchange_code_bound
    exchange_locked consume_and_issue start_family check_binding ◌>>=◌ binds_code code_by_hash
    code_by_id session_by_id find fill text_beq verify_s256 s256_challenge validate_pkce_verifier
    validate_pkce_challenge all insert_family insert_member family_by_id member_by_id member_by_hash
    consume_code update_where any check_policy HashMap.get validate_pending ensure_fresh dynamic_for
    redirect_matches safe_redirect strip_prefix refuses_scopes collect cmp insert contains
    valid_scope_token is_subset choose_resource refuses_resource validate_binding match_binding
program = tt

tokens : token lib provider around headers (bytes "body") start ≡ (issued response, none, answer)
unfolding program
tokens = refl

token-IsIssued_example :
    IsIssued lib provider around headers (bytes "body") start response answer
    × (none ≡ origin headers)
token-IsIssued_example =
    token-IsIssued lib provider around headers (bytes "body") start answer response none tokens

-- The same code, once its session has issued tokens, and a secret of a client.
refusals :
    ((token lib provider around headers (bytes "body") answer).0
      ≡ token_error (bytes "invalid_grant"))
    × ((token
          (record Demo.lib { parse_form = λ body. (bytes "client_secret", []) ∷ form })
          provider
          around
          headers
          (bytes "body")
          start).0
        ≡ token_error (bytes "invalid_client"))
unfolding program replay_code revoke_families
refusals = (refl, refl)
