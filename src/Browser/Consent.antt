-- ===== src/Browser/Consent.antt =====
-- browser.rs: the consent of a signed-in user: its request, its view, and how it is answered.
use eri.Common.{
  ℕ, ◌+◌, Text, Bool, true, not, ◌||◌, Option, none, some, find, nat_beq, map_err, if◌then◌else◌,
}
use eri.External.{Libs}
use eri.Oauth.Registry.{ClientRegistry, ensure_fresh, display_name}
use eri.Oauth.Policy.{PendingAuthorizationGrant, approve, pre_authorizes, cimd_binding_json}
use eri.Store.{
  Db, awaiting_consent, approved, denied, BrowserRow, SessionRow, ProfileRow, seconds,
  session_by_id, insert_code,
}
use eri.Transaction.{done, ◌>>=◌, ◌>>◌, abort_if, found_or, attempt, Ambient}
use eri.Credentials.Types.{ProviderSession}
use eri.Credentials.Issue.{code_row}
use eri.Browser.Types.{
  invalid, policy_changed, database, ConsentHandle, ConsentOutcome, DenialOutcome, ConsentView,
  Account, email, named, anonymous, BrowserTx, policy_error, revalidate, validate_optional_registry,
  is_stale,
}
use eri.Browser.Rows.{browser_has_id, browser_where, update_browser, insert_browser, awaits_consent}

-- `SET stage='approved',csrf_hash=NULL`
abbrev pub approved_row : BrowserRow → BrowserRow
approved_row r = record r { stage = approved; csrf_hash = none }

-- `SET stage='denied',csrf_hash=NULL`
abbrev pub denied_row : BrowserRow → BrowserRow
denied_row r = record r { stage = denied; csrf_hash = none }

abbrev pub account_of : Option ProfileRow → ℕ → Account
account_of none user_id = anonymous user_id
account_of (some p) user_id = elim p.verified_email [
  | some address ↦ email address
  | none ↦ elim p.name [ some name ↦ named name user_id | none ↦ anonymous user_id ]
]

module _ (lib : Libs) where
  abbrev pub authenticated_row :
      ℕ
      → Text
      → ℕ
      → ProviderSession
      → PendingAuthorizationGrant
      → Option Text
      → Option Text
      → Bool
      → BrowserRow
  authenticated_row id csrf now session pending downstream_state oidc_nonce allow = record {
    id = id;
    stage = awaiting_consent;
    upstream_state_hash = none;
    browser_binding_hash = none;
    upstream_nonce = none;
    upstream_verifier = none;
    claim_hash = none;
    csrf_hash = some (lib.sha256 csrf);
    session_id = some session.id;
    client_id = pending.client_id;
    redirect_uri = pending.redirect_uri;
    scopes = pending.scopes;
    resource = pending.resource;
    code_challenge = pending.code_challenge;
    downstream_state = downstream_state;
    oidc_nonce = oidc_nonce;
    cimd_binding = cimd_binding_json lib pending.dynamic;
    allow_pre_authorization = allow;
    created_at = now;
    expires_at = now + seconds 600;
  }

  -- `begin_authenticated_with_pre_authorization`
  unfoldable pub begin_authenticated :
      Ambient Db
      → ProviderSession
      → PendingAuthorizationGrant
      → Option Text
      → Option Text
      → Bool
      → Db
      → BrowserTx (ConsentHandle × Db)
  begin_authenticated env session pending downstream_state oidc_nonce allow db = do
    session_row ← found_or (session_by_id session.id db) invalid
    abort_if (is_stale (env.wall 0) session_row none) invalid
    attempt (map_err policy_error (ensure_fresh pending.dynamic (env.instant 0)))
    after ←
        insert_browser database
          (authenticated_row (env.uuid 0) (env.secret 0) (env.wall 1) session pending
            downstream_state oidc_nonce allow)
          db
    attempt (map_err policy_error (ensure_fresh pending.dynamic (env.instant 1)))
    done (record { transaction_id = env.uuid 0; csrf = env.secret 0 }, after)

  unfoldable pub session_upstream_auth_time :
      Ambient Db → ProviderSession → Db → BrowserTx (Option ℕ × Db)
  session_upstream_auth_time env session db = do
    session_row ← found_or (session_by_id session.id db) invalid
    abort_if (is_stale (env.wall 0) session_row none) invalid
    done (session_row.upstream_auth_time, db)

  -- `lock_consent`
  abbrev pub lock_consent : ProviderSession → ConsentHandle → Db → BrowserTx BrowserRow
  lock_consent session handle db =
      found_or
        (browser_where (awaits_consent handle.transaction_id session.id (lib.sha256 handle.csrf))
          db)
        invalid

  -- The code and the new stage, which both ways of approval write.
  unfoldable pub write_code :
      Ambient Db
      → SessionRow
      → BrowserRow
      → ConsentHandle
      → PendingAuthorizationGrant
      → Db
      → BrowserTx Db
  write_code env session_row row handle pending db = do
    grant ← attempt (map_err policy_error (approve (env.instant 2) pending true))
    after ←
        insert_code database
          (code_row lib (env.uuid 0) (env.secret 0) (env.wall 1) session_row grant row.oidc_nonce
            session_row.upstream_auth_time 60)
          db
    done (update_browser (browser_has_id handle.transaction_id) approved_row after)

  abbrev outcome_of : Ambient Db → BrowserRow → ConsentOutcome
  outcome_of env row = record {
    code = env.secret 0;
    redirect_uri = row.redirect_uri;
    downstream_state = row.downstream_state;
  }

  -- `BrowserStore::approve`
  unfoldable pub approve_consent :
      Ambient Db
      → ClientRegistry
      → ProviderSession
      → ConsentHandle
      → Db
      → BrowserTx (ConsentOutcome × Db)
  approve_consent env registry session handle db = do
    session_row ← found_or (session_by_id session.id db) invalid
    row ← lock_consent session handle db
    abort_if (is_stale (env.wall 0) session_row (some row.expires_at)) invalid
    pending ← attempt (revalidate lib (env.instant 0) (env.instant 1) registry row)
    after ← write_code env session_row row handle pending db
    _ ← attempt (revalidate lib (env.instant 3) (env.instant 4) registry row)
    done (outcome_of env row, after)

  -- The rest of a pre-authorized approval, once the policy has allowed it.
  unfoldable pub approve_allowed :
      Ambient Db
      → ClientRegistry
      → SessionRow
      → BrowserRow
      → ConsentHandle
      → PendingAuthorizationGrant
      → Db
      → BrowserTx (Option ConsentOutcome × Db)
  approve_allowed env registry session_row row handle pending db = do
    after ← write_code env session_row row handle pending db
    current ← attempt (revalidate lib (env.instant 3) (env.instant 4) registry row)
    abort_if (not (pre_authorizes registry current)) policy_changed
    abort_if (is_stale (env.wall 2) session_row (some row.expires_at)) invalid
    done (some (outcome_of env row), after)

  unfoldable pub approve_pre_authorized :
      Ambient Db
      → ClientRegistry
      → ProviderSession
      → ConsentHandle
      → Db
      → BrowserTx (Option ConsentOutcome × Db)
  approve_pre_authorized env registry session handle db = do
    session_row ← found_or (session_by_id session.id db) invalid
    row ← lock_consent session handle db
    abort_if (is_stale (env.wall 0) session_row (some row.expires_at)) invalid
    pending ← attempt (revalidate lib (env.instant 0) (env.instant 1) registry row)
    if not row.allow_pre_authorization || not (pre_authorizes registry pending)
        then done (none, db)
        else approve_allowed env registry session_row row handle pending db

  unfoldable pub consent_view :
      Ambient Db
      → ClientRegistry
      → ProviderSession
      → ConsentHandle
      → Db
      → BrowserTx (ConsentView × Db)
  consent_view env registry session handle db = do
    session_row ← found_or (session_by_id session.id db) invalid
    row ← lock_consent session handle db
    abort_if (is_stale (env.wall 0) session_row (some row.expires_at)) invalid
    _ ← attempt (revalidate lib (env.instant 0) (env.instant 1) registry row)
    name ← found_or (display_name registry row.client_id) policy_changed
    _ ← attempt (revalidate lib (env.instant 2) (env.instant 3) registry row)
    done (
      record {
        transaction_id = handle.transaction_id;
        csrf = handle.csrf;
        client_name = name;
        scopes = row.scopes;
        resource = row.resource;
        redirect_uri = row.redirect_uri;
        account =
            account_of
              (find (λ (p : ProfileRow). nat_beq p.user_id session_row.user_id) db.profiles)
              session_row.user_id;
      },
      db,
    )

  -- `deny_bound`
  unfoldable pub deny_consent :
      Ambient Db
      → Option ClientRegistry
      → ProviderSession
      → ConsentHandle
      → Db
      → BrowserTx (DenialOutcome × Db)
  deny_consent env registry session handle db = do
    session_row ← found_or (session_by_id session.id db) invalid
    row ← lock_consent session handle db
    abort_if (is_stale (env.wall 0) session_row (some row.expires_at)) invalid
    attempt (validate_optional_registry lib (env.instant 0) (env.instant 1) registry row)
    let after = update_browser (browser_has_id handle.transaction_id) denied_row db
    attempt (validate_optional_registry lib (env.instant 2) (env.instant 3) registry row)
    done
        (record { redirect_uri = row.redirect_uri; downstream_state = row.downstream_state }, after)
