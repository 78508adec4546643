-- ===== src/Web/Token/Issued.antt =====
-- web.rs: what stands behind the tokens that the token endpoint issues.
use eri.Common.{
  ℕ, ◌≡◌, ◌⊎◌, inl, inr, refl, subst, arith, Text, bytes, Bool, true, false, Option, some, Result,
  ok, err, Option-cases, Bool-cases, Result-cases,
}
use eri.External.{Libs}
use eri.Oauth.Registry.{ClientRegistry}
use eri.Store.{Db}
use eri.Credentials.Types.{
  CredentialError, metadata_expired, invalid_grant, invalid_lifetime, database, ExchangeResult,
}
use eri.Credentials.Exchange.{exchange_code_request}
use eri.Credentials.Refresh.{rotate_refresh_request}
use eri.Tokens.{TokenResponse, issue}
use eri.Web.Form.{HeaderMap, pairs_bytes, one, origin}
use eri.Web.Provider.{Provider, resolve_client}
use eri.Web.Token.{
  TokenReply, token_error, issued, Surroundings, TokenRequest, Grant, authorization_code,
  refresh_token, incomplete, unsupported, grant_of, Attempted, replied, ran, code_request,
  refresh_request, is_expired, foreign_origin, sends_secret, run_grant, attempt_grant, attempts,
  reply_of, read_token_request, token,
}

Attempted-cases :
    (end : Attempted)
    → ((e : Text) × (end ≡ replied e))
      ⊎ ((result : Result CredentialError ExchangeResult) × (initial : Bool) × (after : Db) × (end
            ≡ ran result initial after))
Attempted-cases (replied e) = inl (e, refl)
Attempted-cases (ran result initial after) = inr (result, initial, after, refl)

issue_ok :
    (signed : Result (Unit {0}) TokenResponse) (response : TokenResponse)
    → ◌≡◌ {A = TokenReply}
        (elim signed [ err _ ↦ token_error (bytes "server_error") | ok r ↦ issued r ])
        (issued response)
    → signed ≡ ok response
issue_ok (ok r) response run = ground arith
issue_ok (err e) response run = cc

module _ (lib : Libs) (p : Provider) (around : Surroundings) where
  -- The store's answer, at this attempt, to the request as it stands.
  abbrev pub Answered :
      ℕ
      → TokenRequest
      → ClientRegistry
      → Db
      → Result CredentialError ExchangeResult
      → Bool
      → Db
      → Type 0
  Answered attempt req registry before result initial after =
      ((code : Text) × (redirect : Text) × (verifier : Text) × (grant_of req.form
          ≡ authorization_code code redirect verifier)
        × (exchange_code_request lib (around.env attempt) (code_request req code redirect verifier)
              req.resource req.scope registry before
            ≡ (result, after))
        × (initial ≡ true))
      ⊎ ((refresh : Text) × (grant_of req.form ≡ refresh_token refresh)
          × (rotate_refresh_request lib (around.env attempt) (refresh_request req refresh)
                req.resource req.scope registry before
              ≡ (result, after))
          × (initial ≡ false))

  -- An attempt has resolved the client and was answered under its registry.
  abbrev pub Tried :
      ℕ → TokenRequest → Db → Result CredentialError ExchangeResult → Bool → Db → Type 0
  Tried attempt req before result initial after =
      (registry : ClientRegistry) × (resolve_client lib (around.resolved_at attempt) p
          (around.fetched attempt) req.client
        ≡ some registry)
      × Answered attempt req registry before result initial after

  -- The first attempt was granted; or it failed for metadata that expired, and the second one,
  -- on what the first has left, was granted.
  pub data GrantedBy (req : TokenRequest) (db : Db) (v : ExchangeResult) (initial : Bool)
      (after : Db) : Type 0 where
    at_first : Tried 0 req db (ok v) initial after → GrantedBy req db v initial after
    at_second :
        (between : Db) (first : Bool)
        → Tried 0 req db (err metadata_expired) first between
        → Tried 1 req between (ok v) initial after
        → GrantedBy req db v initial after

  run_grant-Answered :
      (grant : Grant) (attempt : ℕ) (req : TokenRequest) (registry : ClientRegistry)
      (before after : Db) (result : Result CredentialError ExchangeResult) (initial : Bool)
      → grant_of req.form ≡ grant
      → run_grant lib grant req registry (around.env attempt) before ≡ ran result initial after
      → Answered attempt req registry before result initial after
  unfolding run_grant
  run_grant-Answered (authorization_code code redirect verifier) attempt req registry before after
        result initial kind run =
      inl (code, redirect, verifier, kind, ground arith, ground arith)
  run_grant-Answered (refresh_token refresh) attempt req registry before after result initial kind
        run =
      inr (refresh, kind, ground arith, ground arith)
  run_grant-Answered incomplete attempt req registry before after result initial kind run = cc
  run_grant-Answered unsupported attempt req registry before after result initial kind run = cc

  attempt_grant-Tried :
      (attempt : ℕ) (req : TokenRequest) (before after : Db)
      (result : Result CredentialError ExchangeResult) (initial : Bool)
      → attempt_grant lib p around attempt req before ≡ ran result initial after
      → Tried attempt req before result initial after
  unfolding attempt_grant
  attempt_grant-Tried attempt req before after result initial run =
      elim (Option-cases
        (resolve_client lib (around.resolved_at attempt) p (around.fetched attempt) req.client)) [
          | inl unknown ↦ absurd (ground arith)
          | inr (registry, resolved) ↦ (
            registry,
            resolved,
            run_grant-Answered (grant_of req.form) attempt req registry before after result initial
                refl (ground arith),
          )
        ]

  is_expired-of :
      (result : Result CredentialError ExchangeResult)
      → is_expired result ≡ true
      → result ≡ err metadata_expired
  is_expired-of (err metadata_expired) h = refl
  is_expired-of (err invalid_grant) h = cc
  is_expired-of (err invalid_lifetime) h = cc
  is_expired-of (err database) h = cc
  is_expired-of (ok v) h = cc

  last_attempt :
      (req : TokenRequest) (before after db : Db) (v : ExchangeResult) (initial : Bool)
      → attempts lib 0 p around 1 req before ≡ (ran (ok v) initial after, db)
      → (after ≡ db) × (attempt_grant lib p around 1 req before ≡ ran (ok v) initial after)
  unfolding attempts
  last_attempt req before after db v initial run = (ground arith, ground arith)

  attempts-GrantedBy :
      (req : TokenRequest) (before after db : Db) (v : ExchangeResult) (initial : Bool)
      → attempts lib 1 p around 0 req before ≡ (ran (ok v) initial after, db)
      → GrantedBy req before v initial db
  unfolding attempts
  attempts-GrantedBy req before after db v initial run =
      elim (Attempted-cases (attempt_grant lib p around 0 req before)) [
        | inl (e, ended) ↦ absurd (ground arith)
        | inr (result, first, between, ended) ↦ elim (Bool-cases (is_expired result)) [
          | inl expired ↦
              let (same, second) = last_attempt req between after db v initial (ground arith) in
              at_second between first
                (subst (λ r. Tried 0 req before r first between) (is_expired-of result expired)
                  (attempt_grant-Tried 0 req before between result first ended))
                (subst (λ d. Tried 1 req between (ok v) initial d) same
                  (attempt_grant-Tried 1 req between after (ok v) initial second))
          | inr other ↦ at_first (attempt_grant-Tried 0 req before db (ok v) initial (ground arith))
        ]
      ]

  reply_of-issued :
      (end : Attempted) (response : TokenResponse)
      → reply_of p around end ≡ issued response
      → (v : ExchangeResult) × (initial : Bool) × (after : Db) × (end ≡ ran (ok v) initial after)
        × (issue p.keys p.issuer p.userinfo around.now around.jti v initial ≡ ok response)
  unfolding reply_of
  reply_of-issued (replied e) response run = cc
  reply_of-issued (ran (err e) initial after) response run = cc
  reply_of-issued (ran (ok v) initial after) response run = (
    v,
    initial,
    after,
    refl,
    issue_ok (issue p.keys p.issuer p.userinfo around.now around.jti v initial) response run,
  )

  read_token_request-checks :
      (headers : HeaderMap) (body : Text) (req : TokenRequest)
      → read_token_request lib p headers body ≡ ok req
      → (pairs_bytes lib body 8192 ≡ ok req.form)
        × (one req.form (bytes "client_id") ≡ some req.client)
        × (sends_secret req.form ≡ false)
        × (foreign_origin p headers req.client ≡ false)
  unfolding read_token_request
  read_token_request-checks headers body req run =
      (ground arith, ground arith, ground arith, ground arith)

  -- What stands behind the tokens of a response.
  pub record IsIssued (headers : HeaderMap) (body : Text) (db : Db) (response : TokenResponse)
      (after : Db) : Type 0 where
    pub req : TokenRequest
    pub v : ExchangeResult
    pub initial : Bool
    pub read : pairs_bytes lib body 8192 ≡ ok req.form
    pub client : one req.form (bytes "client_id") ≡ some req.client
    pub no_secret : sends_secret req.form ≡ false
    pub known_origin : foreign_origin p headers req.client ≡ false
    pub granted : GrantedBy req db v initial after
    pub signed : issue p.keys p.issuer p.userinfo around.now around.jti v initial ≡ ok response

  -- Tokens are issued only for a form that names one client and sends no secret, from no foreign origin, and only for what the credential store has granted under the resolved client's registry, a code exchange for first tokens or a rotation for others: in the first attempt, on the database as it was, or, where the store refused the first one because metadata had expired, and for no other error, in a second one, on what the first has left. The database is then the one that the granted call has left, and the origin of the request may read the response.
  pub token-IsIssued :
      (headers : HeaderMap) (body : Text) (db after : Db) (response : TokenResponse)
      (allowed : Option Text)
      → token lib p around headers body db ≡ (issued response, allowed, after)
      → IsIssued headers body db response after × (allowed ≡ origin headers)
  unfolding token
  token-IsIssued headers body db after response allowed run =
      elim (Result-cases (read_token_request lib p headers body)) [
        | inr (e, refused) ↦ absurd (ground arith)
        | inl (req, read) ↦
            let end = (attempts lib 1 p around 0 req db).0 in
            let (v, initial, left, is_end, signed) = reply_of-issued end response (ground arith) in
            let granted = attempts-GrantedBy req db left after v initial (ground arith) in
            let (form, client, no_secret, known) =
              read_token_request-checks headers body req read in
            (
              record {
                req = req;
                v = v;
                initial = initial;
                read = form;
                client = client;
                no_secret = no_secret;
                known_origin = known;
                granted = granted;
                signed = signed;
              },
              ground arith,
            )
      ]
