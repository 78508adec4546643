-- ===== src/Browser/Login.antt =====
-- browser.rs: `complete_callback_bound`, which signs the user in after Google's answer.
use eri.Common.{ℕ, ◌+◌, Text, Bool, not, ◌&&◌, Option, none, some, count, nat_beq, if◌then◌else◌}
use eri.External.{Libs}
use eri.Oauth.Registry.{ClientRegistry}
use eri.Store.{
  Db, callback_claimed, awaiting_consent, expired, BrowserRow, SessionRow, seconds, elapsed,
  insert_session,
}
use eri.Transaction.{done, commit_and_fail, ◌>>=◌, ◌>>◌, abort_if, found_or, attempt, Ambient}
use eri.Identity.{VerifiedGoogleIdentity, upsert_identity}
use eri.Credentials.Types.{Duration}
use eri.Browser.Types.{
  invalid, database, LoginCompletion, BrowserTx, validate_optional_registry, bounded_seconds,
}
use eri.Browser.Rows.{browser_has_id, browser_where, update_browser, is_claimed_by, stage_beq}

-- `SET stage='awaiting_consent',session_id=$2,csrf_hash=$3,claim_hash=NULL`
abbrev pub consent_row : ℕ → Text → BrowserRow → BrowserRow
consent_row session_id csrf_hash r = record r {
  stage = awaiting_consent;
  session_id = some session_id;
  csrf_hash = some csrf_hash;
  claim_hash = none;
}

-- `SET stage='expired'`
abbrev pub expired_login_row : BrowserRow → BrowserRow
expired_login_row r = record r { stage = expired }

abbrev pub is_claimed_id : ℕ → BrowserRow → Bool
is_claimed_id id r = nat_beq r.id id && stage_beq r.stage callback_claimed

module _ (lib : Libs) where
  -- The session of a login.
  abbrev pub login_session : Ambient Db → ℕ → ℕ → Option ℕ → SessionRow
  login_session env user_id secs upstream_auth_time = record {
    id = env.uuid 0;
    token_hash = lib.sha256 (env.secret 0);
    user_id = user_id;
    auth_time = env.wall 0;
    expires_at = env.wall 0 + seconds secs;
    revoked_at = none;
    upstream_auth_time = upstream_auth_time;
  }

  -- The end of the transaction, after the savepoint has been released.
  unfoldable pub await_consent :
      Ambient Db
      → Option ClientRegistry
      → BrowserRow
      → SessionRow
      → Db
      → BrowserTx (LoginCompletion × Db)
  await_consent env registry row session db = do
    abort_if (not (nat_beq (count (is_claimed_id row.id) db.browser) 1)) invalid
    let after =
        update_browser (is_claimed_id row.id) (consent_row session.id (lib.sha256 (env.secret 1)))
          db
    attempt (validate_optional_registry lib (env.instant 6) (env.instant 7) registry row)
    done (
      record {
        session = record { raw = env.secret 0; id = session.id; expires_at = session.expires_at };
        consent = record { transaction_id = row.id; csrf = env.secret 1 };
      },
      after,
    )

  -- Where the transaction has expired, the savepoint is left: the session and the identity are not
  -- stored.
  unfoldable pub complete_callback :
      Ambient Db
      → Option ClientRegistry
      → VerifiedGoogleIdentity
      → Duration
      → Text
      → Db
      → BrowserTx (LoginCompletion × Db)
  complete_callback env registry identity lifetime claim db = do
    secs ← attempt (bounded_seconds lifetime 2_592_000)
    row ← found_or (browser_where (is_claimed_by (lib.sha256 claim)) db) invalid
    attempt (validate_optional_registry lib (env.instant 0) (env.instant 1) registry row)
    attempt (validate_optional_registry lib (env.instant 2) (env.instant 3) registry row)
    let known = upsert_identity identity (env.uuid 1) (env.wall 0) db
    let session = login_session env known.0 secs identity.auth_time
    staged ← insert_session database session known.1
    if elapsed row.expires_at (env.wall 1)
        then commit_and_fail invalid (update_browser (browser_has_id row.id) expired_login_row db)
        else do
          attempt (validate_optional_registry lib (env.instant 4) (env.instant 5) registry row)
          await_consent env registry row session staged
