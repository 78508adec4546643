-- ===== src/Credentials/Exchange.antt =====
-- credentials.rs: the exchange of an authorization code.
pub mod Success
pub mod SingleUse
pub mod Replay
use eri.Common.{
  ℕ, ◌+◌, Text, Bool, true, false, not, ◌&&◌, ◌||◌, Option, none, some, List, [], ◌∷◌, is_some,
  is_some_and, find, min, ◌==◌, text_eq, nat_eq, Result, ok, err, if◌then◌else◌,
}
use eri.External.{Libs}
use eri.Oauth.Pkce.{verify_s256}
use eri.Oauth.Registry.{ClientRegistry}
use eri.Store.{
  Db, SessionRow, CodeRow, FamilyRow, MemberRow, days, elapsed, session_by_id, code_by_id,
  code_by_hash, insert_family, insert_member, consume_code, revoke_families, of_code,
}
use eri.Transaction.{
  Outcome, done, abort, commit_and_fail, ◌>>=◌, ◌>>◌, abort_if, found_or, attempt, settle, Ambient,
  later,
}
use eri.Credentials.Types.{
  CredentialError, invalid_grant, database, ExchangeResult, Tx, check_binding, check_policy,
  check_optional_policy, same_scopes,
}

-- The arguments of `exchange_code`.
pub record ExchangeRequest : Type 0 where
  pub raw : Text
  pub client_id : Text
  pub redirect_uri : Text
  pub resource : Text
  pub verifier : Text

module _ (lib : Libs) where
  -- The bindings of a code to its request.
  unfoldable pub binds_code : ExchangeRequest → CodeRow → Bool
  binds_code req code =
      code.client_id == req.client_id
      && code.redirect_uri == req.redirect_uri
      && code.resource == req.resource
      && verify_s256 lib req.verifier code.code_challenge

  -- `insert_refresh`: the identifier and the secret are drawn here.
  abbrev pub member_row : ℕ → Text → ℕ → ℕ → MemberRow
  member_row id raw family_id now = record {
    id = id;
    family_id = family_id;
    token_hash = lib.sha256 raw;
    issued_at = now;
    consumed_at = none;
    successor_id = none;
  }

  abbrev pub family_row : ℕ → CodeRow → SessionRow → ℕ → FamilyRow
  family_row id code session now = record {
    id = id;
    source_code_id = code.id;
    session_id = code.session_id;
    user_id = session.user_id;
    client_id = code.client_id;
    scopes = code.scopes;
    resource = code.resource;
    issued_at = now;
    expires_at = min (now + days 30) session.expires_at;
    revoked_at = none;
    upstream_auth_time = code.upstream_auth_time;
    cimd_binding = code.cimd_binding;
  }

  -- The first refresh token, where the grant carries one.
  unfoldable pub start_family : Ambient Db → CodeRow → SessionRow → Db → Tx (Option Text × Db)
  start_family env code session db = if not code.issue_refresh_token then done (none, db) else do
    with_family ← insert_family database (family_row (env.uuid 0) code session (env.wall 0)) db
    after ←
        insert_member database (member_row (env.uuid 1) (env.secret 0) (env.uuid 0) (env.wall 0))
          with_family
    done (some (env.secret 0), after)

  -- The answer to a code that has been used: its family is revoked, and that is committed.
  unfoldable pub replay_code :
      Ambient Db → Option ClientRegistry → ExchangeRequest → CodeRow → Db → Tx (ExchangeResult × Db)
  replay_code env registry req code db = do
    attempt (check_binding lib registry (env.instant 3) req.client_id code.cimd_binding)
    commit_and_fail invalid_grant (revoke_families (of_code code.id) (env.wall 0) db)

  unfoldable pub consume_and_issue :
      Ambient Db
      → Option ClientRegistry
      → ExchangeRequest
      → CodeRow
      → SessionRow
      → Db
      → Tx (ExchangeResult × Db)
  consume_and_issue env registry req code session db = do
    abort_if
        (elapsed code.expires_at (env.wall 0)
          || elapsed session.expires_at (env.wall 0)
          || is_some session.revoked_at)
        invalid_grant
    (refresh_token, after) ← start_family env code session (consume_code code.id (env.wall 0) db)
    attempt (check_binding lib registry (env.instant 3) req.client_id code.cimd_binding)
    done (
      record {
        session_id = code.session_id;
        user_id = session.user_id;
        client_id = code.client_id;
        scopes = code.scopes;
        resource = code.resource;
        refresh_token = refresh_token;
        oidc_nonce = code.oidc_nonce;
        upstream_auth_time = code.upstream_auth_time;
      },
      after,
    )

  -- The part under the lock of the session: `first` is the row that was read without a lock.
  unfoldable pub exchange_locked :
      Ambient Db → Option ClientRegistry → ExchangeRequest → CodeRow → Db → Tx (ExchangeResult × Db)
  exchange_locked env registry req first db = do
    session ← found_or (session_by_id first.session_id db) invalid_grant
    code ← found_or (code_by_id first.id db) database
    abort_if (not (code.session_id == first.session_id) || not (binds_code req code)) invalid_grant
    attempt (check_binding lib registry (env.instant 0) req.client_id code.cimd_binding)
    attempt (
        check_optional_policy lib registry (env.instant 1) req.client_id req.redirect_uri
          code.code_challenge code.scopes req.resource)
    attempt (check_binding lib registry (env.instant 2) req.client_id code.cimd_binding)
    if is_some code.consumed_at
        then replay_code env registry req code db
        else consume_and_issue env registry req code session db

  unfoldable pub exchange_code_bound :
      Ambient Db
      → Option ClientRegistry
      → ExchangeRequest
      → Db
      → Result CredentialError ExchangeResult × Db
  exchange_code_bound env registry req db = elim (code_by_hash (lib.sha256 req.raw) db) [
    | none ↦ (err invalid_grant, db)
    | some first ↦
        if not (binds_code req first)
        then (err invalid_grant, db)
        else settle (env.others 0 db) (exchange_locked env registry req first (env.others 0 db))
  ]

  abbrev pub exchange_code :
      Ambient Db → ExchangeRequest → Db → Result CredentialError ExchangeResult × Db
  exchange_code env req db = exchange_code_bound env none req db

  -- The row that `exchange_code_request` reads first, outside the transaction.
  abbrev pub names_request : ExchangeRequest → CodeRow → Bool
  names_request req r =
      r.code_hash == lib.sha256 req.raw
      && r.client_id == req.client_id
      && r.redirect_uri == req.redirect_uri

  abbrev pub differs_from : Option Text → Text → Bool
  differs_from resource stored = is_some_and (λ r. not (r == stored)) resource

  abbrev pub scopes_differ : Option (List Text) → List Text → Bool
  scopes_differ scopes stored = is_some_and (λ s. not (same_scopes s stored)) scopes

  -- The resource of `req` is not used: the stored one takes its place.
  unfoldable pub exchange_code_request :
      Ambient Db
      → ExchangeRequest
      → Option Text
      → Option (List Text)
      → ClientRegistry
      → Db
      → Result CredentialError ExchangeResult × Db
  exchange_code_request env req resource scopes registry db =
      elim (find (names_request req) db.codes) [
        | none ↦ (err invalid_grant, db)
        | some stored ↦
            if differs_from resource stored.resource || scopes_differ scopes stored.scopes
            then (err invalid_grant, db)
            else elim (check_policy lib (env.instant 0) registry req.client_id req.redirect_uri
                stored.code_challenge stored.scopes stored.resource) [
                  | err e ↦ (err e, db)
                  | ok _ ↦
                      exchange_code_bound (later env) (some registry)
                        (record req { resource = stored.resource }) (env.others 0 db)
                ]
      ]
