-- ===== src/Browser/Google.antt =====
-- browser.rs: a browser transaction until Google's answer: its start, the claim of the callback, and
-- the ways in which it ends there.
use eri.Common.{
  ℕ, ◌+◌, Text, Bool, not, ◌&&◌, Option, none, some, count, nat_beq, map_err, if◌then◌else◌,
}
use eri.External.{Libs}
use eri.Oauth.Registry.{ClientRegistry, ensure_fresh}
use eri.Oauth.Policy.{PendingAuthorizationGrant, cimd_binding_json}
use eri.Store.{
  Db, awaiting_start, awaiting_google, callback_claimed, denied, failed, expired, BrowserRow,
  seconds, elapsed,
}
use eri.Transaction.{done, commit_and_fail, ◌>>=◌, ◌>>◌, abort_if, found_or, attempt, Ambient}
use eri.Browser.Types.{
  invalid, database, BrowserStart, DenialOutcome, BrowserTx, policy_error, revalidate,
  validate_optional_registry,
}
use eri.Browser.Rows.{
  browser_has_id, browser_where, update_browser, insert_browser, is_started_by, awaits_callback,
  is_claimed_by, has_text,
}

-- `SET stage='awaiting_google'`
abbrev pub started_row : BrowserRow → BrowserRow
started_row r = record r { stage = awaiting_google }

-- `SET stage='denied',upstream_verifier=NULL,upstream_nonce=NULL`
abbrev pub cancelled_row : BrowserRow → BrowserRow
cancelled_row r = record r { stage = denied; upstream_verifier = none; upstream_nonce = none }

-- `SET stage='expired',upstream_verifier=NULL`
abbrev pub expired_row : BrowserRow → BrowserRow
expired_row r = record r { stage = expired; upstream_verifier = none }

-- `SET stage='callback_claimed',claim_hash=$2,upstream_verifier=NULL`
abbrev pub claimed_row : Text → BrowserRow → BrowserRow
claimed_row claim_hash r = record r {
  stage = callback_claimed;
  claim_hash = some claim_hash;
  upstream_verifier = none;
}

-- `SET stage='failed'`
abbrev pub failed_row : BrowserRow → BrowserRow
failed_row r = record r { stage = failed }

-- `SET stage='denied',claim_hash=NULL`
abbrev pub denied_claim_row : BrowserRow → BrowserRow
denied_claim_row r = record r { stage = denied; claim_hash = none }

-- `.ok_or(BrowserError::Invalid)` on a column that is read as text.
abbrev pub column : Option Text → BrowserTx Text
column value = found_or value database

-- The columns that the update returns are read after it has been committed.
unfoldable pub read_back : Option Text → Option Text → Db → BrowserTx ((Text × Text) × Db)
read_back (some nonce) (some verifier) after = done ((nonce, verifier), after)
read_back _ _ after = commit_and_fail database after

module _ (lib : Libs) where
  -- The row that `begin_google` inserts.
  abbrev pub start_row :
      BrowserStart → ℕ → PendingAuthorizationGrant → Option Text → Option Text → Bool → BrowserRow
  start_row start now pending downstream_state oidc_nonce allow_pre_authorization = record {
    id = start.transaction_id;
    stage = awaiting_start;
    upstream_state_hash = some (lib.sha256 start.upstream_state);
    browser_binding_hash = some (lib.sha256 start.browser_binding);
    upstream_nonce = some start.upstream_nonce;
    upstream_verifier = some start.upstream_verifier;
    claim_hash = none;
    csrf_hash = none;
    session_id = none;
    client_id = pending.client_id;
    redirect_uri = pending.redirect_uri;
    scopes = pending.scopes;
    resource = pending.resource;
    code_challenge = pending.code_challenge;
    downstream_state = downstream_state;
    oidc_nonce = oidc_nonce;
    cimd_binding = cimd_binding_json lib pending.dynamic;
    allow_pre_authorization = allow_pre_authorization;
    created_at = now;
    expires_at = now + seconds 600;
  }

  -- `begin_google_with_pre_authorization`
  unfoldable pub begin_google :
      Ambient Db
      → PendingAuthorizationGrant
      → Option Text
      → Option Text
      → Bool
      → Db
      → BrowserTx (BrowserStart × Db)
  begin_google env pending downstream_state oidc_nonce allow_pre_authorization db = do
    let start : BrowserStart = record {
      transaction_id = env.uuid 0;
      upstream_state = env.secret 0;
      browser_binding = env.secret 1;
      upstream_nonce = env.secret 2;
      upstream_verifier = env.secret 3;
    }
    attempt (map_err policy_error (ensure_fresh pending.dynamic (env.instant 0)))
    after ←
        insert_browser database
          (start_row start (env.wall 0) pending downstream_state oidc_nonce allow_pre_authorization)
          db
    attempt (map_err policy_error (ensure_fresh pending.dynamic (env.instant 1)))
    done (start, after)

  -- The update is one statement: the row is selected and changed at once.
  unfoldable pub start_google : Ambient Db → ℕ → Text → Text → Db → BrowserTx ((Text × Text) × Db)
  start_google env id state binding db = do
    let selects = λ (r : BrowserRow).
        is_started_by id (lib.sha256 state) (lib.sha256 binding) r
        && not (elapsed r.expires_at (env.wall 0))
    row ← found_or (browser_where selects db) invalid
    read_back row.upstream_nonce row.upstream_verifier (update_browser selects started_row db)

  -- `cancel_google_bound`
  unfoldable pub cancel_google :
      Ambient Db → Option ClientRegistry → ℕ → Text → Text → Db → BrowserTx (DenialOutcome × Db)
  cancel_google env registry id state binding db = do
    row ←
        found_or
          (browser_where
            (λ (r : BrowserRow).
              is_started_by id (lib.sha256 state) (lib.sha256 binding) r
              && not (elapsed r.expires_at (env.wall 0)))
            db)
          invalid
    attempt (validate_optional_registry lib (env.instant 0) (env.instant 1) registry row)
    let after = update_browser (browser_has_id id) cancelled_row db
    attempt (validate_optional_registry lib (env.instant 2) (env.instant 3) registry row)
    done
        (record { redirect_uri = row.redirect_uri; downstream_state = row.downstream_state }, after)

  -- The state and the binding are spent even where the transaction has expired.
  unfoldable pub claim_callback :
      Ambient Db → Text → Text → Db → BrowserTx ((Text × Text × Text) × Db)
  claim_callback env state binding db = do
    row ←
        found_or (browser_where (awaits_callback (lib.sha256 state) (lib.sha256 binding)) db)
          invalid
    verifier ← column row.upstream_verifier
    nonce ← column row.upstream_nonce
    if elapsed row.expires_at (env.wall 0)
        then commit_and_fail invalid (update_browser (browser_has_id row.id) expired_row db)
        else done (
          (env.secret 0, verifier, nonce),
          update_browser (browser_has_id row.id) (claimed_row (lib.sha256 (env.secret 0))) db,
        )

  -- One statement, whose count of rows is read after it has been committed.
  unfoldable pub fail_callback : Text → Db → BrowserTx (Unit × Db)
  fail_callback claim db =
      let after = update_browser (is_claimed_by (lib.sha256 claim)) failed_row db in
      if nat_beq (count (is_claimed_by (lib.sha256 claim)) db.browser) 1
      then done (tt, after)
      else commit_and_fail invalid after

  unfoldable pub deny_callback :
      Ambient Db → ClientRegistry → Text → Db → BrowserTx (DenialOutcome × Db)
  deny_callback env registry claim db = do
    row ← found_or (browser_where (is_claimed_by (lib.sha256 claim)) db) invalid
    abort_if (elapsed row.expires_at (env.wall 0)) invalid
    _ ← attempt (revalidate lib (env.instant 0) (env.instant 1) registry row)
    let after = update_browser (λ r. has_text (lib.sha256 claim) r.claim_hash) denied_claim_row db
    _ ← attempt (revalidate lib (env.instant 2) (env.instant 3) registry row)
    done
        (record { redirect_uri = row.redirect_uri; downstream_state = row.downstream_state }, after)
