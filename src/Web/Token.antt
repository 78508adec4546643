-- ===== src/Web/Token.antt =====
-- web.rs: the token endpoint and the revocation endpoint, over the credential store.
pub mod Issued
use eri.Common.{
  ℕ, zero, suc, ◌+◌, Text, bytes, Bool, true, false, not, ◌&&◌, ◌||◌, Option, none, some, List, [],
  ◌∷◌, is_empty, any, ◌==◌, text_eq, is_some, is_some_and, Result, ok, err, if◌then◌else◌, split,
  is_err, map_err, ok_or, refuse_if, ◌>>=◌, ◌>>◌,
}
use eri.External.{Libs}
use eri.Cimd.Binding.{LeasedClientMetadata}
use eri.Cimd.Document.{CimdError}
use eri.Oauth.Registry.{ClientRegistry, valid_browser_origin}
use eri.Store.{Db}
use eri.Transaction.{Ambient}
use eri.Credentials.Types.{CredentialError, metadata_expired, ExchangeResult}
use eri.Credentials.Exchange.{ExchangeRequest, exchange_code_request}
use eri.Credentials.Refresh.{RotateRequest, rotate_refresh_request, revoke_refresh}
use eri.Tokens.{TokenResponse, issue}
use eri.Web.Form.{Form, HeaderMap, values_of, one, optional, pairs_bytes, origin}
use eri.Web.Provider.{Provider, resolve_client}

-- The body of a response: `token_error`, or the tokens.
pub data TokenReply : Type 0 where
  token_error : Text → TokenReply
  issued : TokenResponse → TokenReply

-- What a call draws and reads beside its request, by its attempts.
pub record Surroundings : Type 0 where
  pub env : ℕ → Ambient Db
  pub resolved_at : ℕ → ℕ
  pub fetched : ℕ → Result CimdError LeasedClientMetadata
  pub now : ℕ
  pub jti : Text

-- The request, once its form is read.
pub record TokenRequest : Type 0 where
  pub form : Form
  pub client : Text
  pub resource : Option Text
  pub scope : Option (List Text)

-- The match on `grant_type` and the parameters of each grant.
pub data Grant : Type 0 where
  authorization_code : Text → Text → Text → Grant
  refresh_token : Text → Grant
  incomplete unsupported : Grant

abbrev code_grant : Option Text → Option Text → Option Text → Grant
code_grant (some code) (some redirect) (some verifier) = authorization_code code redirect verifier
code_grant _ _ _ = incomplete

abbrev refresh_grant : Option Text → Grant
refresh_grant (some refresh) = refresh_token refresh
refresh_grant none = incomplete

unfoldable pub grant_of : Form → Grant
unfolding one
grant_of q = elim (one q (bytes "grant_type")) [
  | none ↦ unsupported
  | some kind ↦
      if kind == bytes "authorization_code"
      then code_grant (one q (bytes "code")) (one q (bytes "redirect_uri"))
          (one q (bytes "code_verifier"))
      else if kind == bytes "refresh_token"
      then refresh_grant (one q (bytes "refresh_token"))
      else unsupported
]

-- How an attempt ends: by a reply, or by the store's result and the flag of a first token.
pub data Attempted : Type 0 where
  replied : Text → Attempted
  ran : Result CredentialError ExchangeResult → Bool → Db → Attempted

abbrev pub code_request : TokenRequest → Text → Text → Text → ExchangeRequest
code_request req code redirect verifier = record {
  raw = code;
  client_id = req.client;
  redirect_uri = redirect;
  resource = [];
  verifier = verifier;
}

abbrev pub refresh_request : TokenRequest → Text → RotateRequest
refresh_request req refresh = record { raw = refresh; client_id = req.client; resource = [] }

-- `matches!(&result, Err(MetadataExpired))`
abbrev pub is_expired : {A : Type 0} → Result CredentialError A → Bool
is_expired (err metadata_expired) = true
is_expired _ = false

abbrev pub has_field : Form → Text → Bool
has_field q name = not (is_empty (values_of name q))

-- `split(' ')`
abbrev scopes_of : Option Text → Option (List Text)
scopes_of none = none
scopes_of (some scope) = some (split b' ' scope)

-- `origin(&headers).is_some_and(|o| !valid_browser_origin(client, o))`
abbrev pub foreign_origin : Provider → HeaderMap → Text → Bool
foreign_origin p headers client =
    is_some_and (λ o. not (valid_browser_origin p.registry client o)) (origin headers)

abbrev is_reply : Attempted → Bool
is_reply (replied e) = true
is_reply (ran result initial after) = false

abbrev both : Option Text → Option Text → Option (Text × Text)
both (some a) (some b) = some (a, b)
both _ _ = none

-- The response to what the loop leaves.
unfoldable pub reply_of : Provider → Surroundings → Attempted → TokenReply
unfolding issue
reply_of p around (replied e) = token_error e
reply_of p around (ran (err e) initial after) = token_error (bytes "invalid_grant")
reply_of p around (ran (ok v) initial after) =
    elim (issue p.keys p.issuer p.userinfo around.now around.jti v initial) [
      | err _ ↦ token_error (bytes "server_error")
      | ok response ↦ issued response
    ]

abbrev pub sends_secret : Form → Bool
sends_secret q =
    has_field q (bytes "client_secret")
    || has_field q (bytes "client_assertion")
    || has_field q (bytes "client_assertion_type")

module _ (lib : Libs) where
  unfoldable pub run_grant : Grant → TokenRequest → ClientRegistry → Ambient Db → Db → Attempted
  run_grant (authorization_code code redirect verifier) req registry env db =
      let (result, after) =
        exchange_code_request lib env (code_request req code redirect verifier) req.resource
          req.scope registry db in
      ran result true after
  run_grant (refresh_token refresh) req registry env db =
      let (result, after) =
        rotate_refresh_request lib env (refresh_request req refresh) req.resource req.scope registry
          db in
      ran result false after
  run_grant incomplete req registry env db = replied (bytes "invalid_request")
  run_grant unsupported req registry env db = replied (bytes "unsupported_grant_type")

  -- One round of the loop.
  unfoldable pub attempt_grant : Provider → Surroundings → ℕ → TokenRequest → Db → Attempted
  unfolding resolve_client run_grant grant_of
  attempt_grant p around attempt req db =
      elim (resolve_client lib (around.resolved_at attempt) p (around.fetched attempt) req.client) [
        | none ↦ replied (bytes "invalid_grant")
        | some registry ↦ run_grant (grant_of req.form) req registry (around.env attempt) db
      ]

  -- The loop: `retries` more rounds may follow this one.
  unfoldable pub attempts : ℕ → Provider → Surroundings → ℕ → TokenRequest → Db → Attempted × Db
  unfolding attempt_grant
  attempts zero p around attempt req db = elim (attempt_grant p around attempt req db) [
    | replied e ↦ (replied e, db)
    | ran result initial after ↦ (ran result initial after, after)
  ]
  attempts (suc retries) p around attempt req db = elim (attempt_grant p around attempt req db) [
    | replied e ↦ (replied e, db)
    | ran result initial after ↦
        let again = attempts retries p around (attempt + 1) req after in
        if is_expired result then again else (ran result initial after, after)
  ]

  -- The guards before the loop.
  unfoldable pub read_token_request : Provider → HeaderMap → Text → Result Text TokenRequest
  unfolding pairs_bytes one optional origin
  read_token_request p headers body = do
    form ← map_err (λ _. bytes "invalid_request") (pairs_bytes lib body 8192)
    client ← ok_or (one form (bytes "client_id")) (bytes "invalid_request")
    refuse_if (sends_secret form) (bytes "invalid_client")
    refuse_if (foreign_origin p headers client) (bytes "invalid_client")
    resource ← map_err (λ _. bytes "invalid_request") (optional form (bytes "resource"))
    scope ← map_err (λ _. bytes "invalid_request") (optional form (bytes "scope"))
    ok (record { form = form; client = client; resource = resource; scope = scopes_of scope })

  -- `token`: the reply, the origin that CORS names, and the database.
  unfoldable pub token :
      Provider → Surroundings → HeaderMap → Text → Db → TokenReply × Option Text × Db
  unfolding read_token_request attempts reply_of
  token p around headers body db = elim (read_token_request p headers body) [
    | err e ↦ (token_error e, none, db)
    | ok req ↦
        let (end, after) = attempts 1 p around 0 req db in
        (reply_of p around end, (if is_reply end then none else origin headers), after)
  ]

  -- `revoke`: `some` is an error of the request; a failure of the store is `server_error`.
  unfoldable pub revoke :
      Provider → Ambient Db → HeaderMap → Text → Db → Option Text × Option Text × Db
  unfolding pairs_bytes one origin
  revoke p env headers body db = elim (pairs_bytes lib body 4096) [
    | err _ ↦ (some (bytes "invalid_request"), none, db)
    | ok q ↦ elim (both (one q (bytes "client_id")) (one q (bytes "token"))) [
      | none ↦ (some (bytes "invalid_request"), none, db)
      | some (client, value) ↦
          if foreign_origin p headers client
          then (some (bytes "invalid_client"), none, db)
          else let (result, after) = revoke_refresh lib env value client db in
            ((if is_err result then some (bytes "server_error") else none), origin headers, after)
    ]
  ]
