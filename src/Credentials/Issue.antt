-- ===== src/Credentials/Issue.antt =====
-- credentials.rs: provider sessions and the issue of authorization codes.
use eri.Common.{
  ℕ, ◌+◌, Text, Bool, not, ◌&&◌, Option, none, some, is_some, is_err, find, min, ◌==◌, text_eq,
  Result, ok, err,
}
use eri.External.{Libs}
use eri.Oauth.Registry.{ensure_fresh}
use eri.Oauth.Policy.{ValidatedAuthorizationGrant, cimd_binding_json}
use eri.Store.{
  Db, SessionRow, CodeRow, seconds, elapsed, session_by_id, insert_session, insert_code,
}
use eri.Transaction.{done, ◌>>=◌, ◌>>◌, abort_if, found_or, attempt, settle, Ambient}
use eri.Credentials.Types.{
  CredentialError, metadata_expired, invalid_grant, database, ProviderSession, Tx, Duration,
  bounded_seconds,
}

module _ (lib : Libs) where
  unfoldable pub create_provider_session_tx :
      Ambient Db → ℕ → Option ℕ → Duration → Db → Tx (ProviderSession × Db)
  create_provider_session_tx env user_id upstream_auth_time lifetime db = do
    secs ← attempt (bounded_seconds lifetime 2_592_000)
    let row : SessionRow = record {
      id = env.uuid 0;
      token_hash = lib.sha256 (env.secret 0);
      user_id = user_id;
      auth_time = env.wall 0;
      expires_at = env.wall 0 + seconds secs;
      revoked_at = none;
      upstream_auth_time = upstream_auth_time;
    }
    after ← insert_session database row db
    done (record { raw = env.secret 0; id = row.id; expires_at = row.expires_at }, after)

  -- The statement is its own transaction.
  unfoldable pub create_provider_session :
      Ambient Db → ℕ → Option ℕ → Duration → Db → Result CredentialError ProviderSession × Db
  create_provider_session env user_id upstream_auth_time lifetime db =
      settle db (create_provider_session_tx env user_id upstream_auth_time lifetime db)

  -- `revoked_at IS NULL AND expires_at > clock_timestamp()`
  abbrev pub is_active : ℕ → SessionRow → Bool
  is_active now r = not (is_some r.revoked_at) && not (elapsed r.expires_at now)

  unfoldable pub find_provider_session :
      Ambient Db → Text → Db → Result CredentialError ProviderSession
  find_provider_session env raw db =
      elim (find (λ (r : SessionRow). r.token_hash == lib.sha256 raw && is_active (env.wall 0) r)
        db.sessions) [
          | none ↦ err invalid_grant
          | some r ↦ ok (record { raw = raw; id = r.id; expires_at = r.expires_at })
        ]

  -- `insert_authorization_code_tx`: the row of a grant. The code expires with its session.
  abbrev pub code_row :
      ℕ → Text → ℕ → SessionRow → ValidatedAuthorizationGrant → Option Text → Option ℕ → ℕ → CodeRow
  code_row id raw now session grant oidc_nonce upstream_auth_time lifetime_seconds = record {
    id = id;
    code_hash = lib.sha256 raw;
    session_id = session.id;
    client_id = grant.client_id;
    redirect_uri = grant.redirect_uri;
    scopes = grant.scopes;
    resource = grant.resource;
    code_challenge = grant.code_challenge;
    issue_refresh_token = grant.issue_refresh_token;
    issued_at = now;
    expires_at = min (now + seconds lifetime_seconds) session.expires_at;
    consumed_at = none;
    oidc_nonce = oidc_nonce;
    upstream_auth_time = upstream_auth_time;
    cimd_binding = cimd_binding_json lib grant.dynamic;
  }

  -- `issue_authorization_code`: the session is locked, then read.
  unfoldable pub issue_authorization_code_tx :
      Ambient Db → ProviderSession → ValidatedAuthorizationGrant → ℕ → Db → Tx (Text × Db)
  issue_authorization_code_tx env session grant secs db = do
    row ← found_or (session_by_id session.id db) invalid_grant
    abort_if (not (is_active (env.wall 0) row)) invalid_grant
    abort_if (is_err (ensure_fresh grant.dynamic (env.instant 0))) metadata_expired
    after ←
        insert_code database
          (code_row (env.uuid 0) (env.secret 0) (env.wall 1) row grant none row.upstream_auth_time
            secs)
          db
    abort_if (is_err (ensure_fresh grant.dynamic (env.instant 1))) metadata_expired
    done (env.secret 0, after)

  unfoldable pub issue_authorization_code :
      Ambient Db
      → ProviderSession
      → ValidatedAuthorizationGrant
      → Duration
      → Db
      → Result CredentialError Text × Db
  issue_authorization_code env session grant lifetime db = elim (bounded_seconds lifetime 60) [
    | err e ↦ (err e, db)
    | ok secs ↦
        settle (env.others 0 db)
          (issue_authorization_code_tx env session grant secs (env.others 0 db))
  ]
