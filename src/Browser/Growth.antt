-- ===== src/Browser/Growth.antt =====
-- browser.rs: every transaction evolves the tables, however it ends.
pub mod Consent
use eri.Common.{
  ℕ, Text, Bool, true, false, not, ◌&&◌, ◌||◌, Option, none, some, count, nat_beq, find, find-In,
  is_some, ◌≡◌, refl, arith, Result, ok, err, if◌then◌else◌, List, ◌==◌, text_eq, Option-cases, inl,
  inr,
}
use eri.External.{Libs}
use eri.Oauth.Registry.{ClientRegistry}
use eri.Oauth.Policy.{PendingAuthorizationGrant, pre_authorizes}
use eri.Store.{
  Db, BrowserRow, SessionRow, insert_session, insert_code, approved, awaiting_start,
  awaiting_google, callback_claimed, elapsed, IdentityRow, ProfileRow,
}
use eri.Store.Evolution.{Evolves, Evolves-refl, Evolves-trans, is_final}
use eri.Store.Evolution.Rules.{insert_session-Ensures, insert_code-Ensures}
use eri.Store.Evolution.Insertions.{insert_session-Evolves, insert_code-Evolves}
use eri.Transaction.{Outcome, done, abort, commit_and_fail, ◌>>=◌, abort_if, Ambient}
use eri.Transaction.Ensures.{
  Ensures, is_done, is_abort, is_commit, bind-Ensures, attempt-Ensures, found_or-Ensures,
  abort_if-Ensures, if-Ensures,
}
use eri.Identity.{VerifiedGoogleIdentity, upsert_identity, store_identity}
use eri.Credentials.Types.{ProviderSession, Duration}
use eri.Browser.Types.{BrowserError, invalid, database, BrowserTx, ConsentHandle}
use eri.Browser.Rows.{
  browser_has_id, browser_where, update_browser, awaits_callback, is_claimed_by, is_started_by,
  awaits_consent, has_text, stage_beq,
}
use eri.Browser.Google.{
  begin_google, start_google, cancel_google, claim_callback, fail_callback, deny_callback,
  read_back, started_row, cancelled_row, expired_row, claimed_row, failed_row, denied_claim_row,
}
use eri.Browser.Login.{
  complete_callback, await_consent, consent_row, expired_login_row, is_claimed_id,
}
use eri.Browser.Consent.{
  begin_authenticated, session_upstream_auth_time, approve_consent, approve_pre_authorized,
  approve_allowed, write_code, deny_consent, consent_view, approved_row, denied_row,
}
use eri.Browser.Ended.{
  stage_beq-open, browser_where-open, update_found-Evolves, update_open-Evolves,
  update_final-Evolves, insert_browser-Evolves, insert_browser-Ensures,
}

-- A transaction whose commits evolve the tables.
abbrev pub Grows : {A : Type 0} → Db → BrowserTx (A × Db) → Type 0
Grows {A} db m = Ensures (λ (t : A × Db). Evolves db t.1) (λ d. Evolves db d) m

read_back-Grows :
    (db : Db) (oidc_nonce verifier : Option Text) (after : Db)
    → Evolves db after
    → Grows db (read_back oidc_nonce verifier after)
unfolding read_back
read_back-Grows db (some oidc_nonce) (some verifier) after e = is_done _ e
read_back-Grows db (some oidc_nonce) none after e = is_commit _ _ e
read_back-Grows db none verifier after e = is_commit _ _ e

-- The conditions on rows that name a stage at which the transaction goes on.
started-open :
    (id : ℕ) (state binding : Text) (late : BrowserRow → Bool) (r : BrowserRow)
    → (is_started_by id state binding r && late r) ≡ true
    → is_final r.stage ≡ false
started-open id state binding late r h = stage_beq-open r.stage awaiting_start refl (ground arith)

callback-open :
    (state binding : Text) (r : BrowserRow)
    → awaits_callback state binding r ≡ true
    → is_final r.stage ≡ false
callback-open state binding r h = stage_beq-open r.stage awaiting_google refl (ground arith)

claimed-open :
    (claim : Text) (r : BrowserRow) → is_claimed_by claim r ≡ true → is_final r.stage ≡ false
claimed-open claim r h = stage_beq-open r.stage callback_claimed refl (ground arith)

claimed_id-open : (id : ℕ) (r : BrowserRow) → is_claimed_id id r ≡ true → is_final r.stage ≡ false
claimed_id-open id r h = stage_beq-open r.stage callback_claimed refl (ground arith)

same_tables :
    (db : Db) (identities : List IdentityRow) (profiles : List ProfileRow)
    → Evolves db (record db { identities = identities; profiles = profiles })
same_tables db identities profiles = record {
  over = λ id o. o;
  session_ids = (Evolves-refl db).session_ids;
  session_hashes = (Evolves-refl db).session_hashes;
  code_ids = (Evolves-refl db).code_ids;
  code_hashes = (Evolves-refl db).code_hashes;
  family_ids = (Evolves-refl db).family_ids;
  member_ids = (Evolves-refl db).member_ids;
  member_hashes = (Evolves-refl db).member_hashes;
}

store_identity-Evolves :
    (known : Option IdentityRow) (identity : VerifiedGoogleIdentity) (fresh now : ℕ) (db : Db)
    → Evolves db (store_identity known identity fresh now db).1
unfolding store_identity
store_identity-Evolves (some row) identity fresh now db = same_tables db db.identities _
store_identity-Evolves none identity fresh now db = same_tables db _ _

upsert_identity-Evolves :
    (identity : VerifiedGoogleIdentity) (fresh now : ℕ) (db : Db)
    → Evolves db (upsert_identity identity fresh now db).1
unfolding upsert_identity
upsert_identity-Evolves identity fresh now db = store_identity-Evolves _ identity fresh now db

pub fail_callback-Grows :
    (lib : Libs) (db : Db) (claim : Text) → Grows db (fail_callback lib claim db)
unfolding fail_callback
fail_callback-Grows lib db claim =
    let grown =
      update_final-Evolves (is_claimed_by (lib.sha256 claim)) failed_row db (λ r. refl)
        (λ r. refl) in
    if-Ensures (nat_beq (count (is_claimed_by (lib.sha256 claim)) db.browser) 1) _ _
      (λ one. is_done _ grown) (λ other. is_commit _ _ grown)

module _ (lib : Libs) (env : Ambient Db) (db : Db) where
  pub begin_google-Grows :
      (pending : PendingAuthorizationGrant) (state oidc_nonce : Option Text) (allow : Bool)
      → Grows db (begin_google lib env pending state oidc_nonce allow db)
  unfolding begin_google
  begin_google-Grows pending state oidc_nonce allow = attempt-Ensures _ _ λ _ fresh.
      bind-Ensures _ (insert_browser-Ensures database _ db) λ after inserted.
        attempt-Ensures _ _
          λ _ still_fresh. is_done _ (insert_browser-Evolves database _ db after inserted)

  pub start_google-Grows :
      (id : ℕ) (state binding : Text) → Grows db (start_google lib env id state binding db)
  unfolding start_google
  start_google-Grows id state binding = found_or-Ensures _ _ _ λ row found.
      read_back-Grows db row.upstream_nonce row.upstream_verifier _ (
        update_open-Evolves _ started_row db (λ r. refl)
          λ r h.
            started-open id (lib.sha256 state) (lib.sha256 binding)
              (λ r. not (elapsed r.expires_at (env.wall 0))) r h)

  pub cancel_google-Grows :
      (registry : Option ClientRegistry) (id : ℕ) (state binding : Text)
      → Grows db (cancel_google lib env registry id state binding db)
  unfolding cancel_google
  cancel_google-Grows registry id state binding = found_or-Ensures _ _ _ λ row found.
      attempt-Ensures _ _ λ _ checked. attempt-Ensures _ _ λ _ still_checked.
        is_done _
          (update_final-Evolves (browser_has_id id) cancelled_row db (λ r. refl) (λ r. refl))

  pub claim_callback-Grows :
      (state binding : Text) → Grows db (claim_callback lib env state binding db)
  unfolding claim_callback
  claim_callback-Grows state binding = found_or-Ensures _ _ _ λ row found.
      found_or-Ensures _ _ _ λ verifier _. found_or-Ensures _ _ _ λ oidc_nonce _.
        let open_stage =
          browser_where-open _ db row found
            (callback-open (lib.sha256 state) (lib.sha256 binding)) in
        if-Ensures (elapsed row.expires_at (env.wall 0)) _ _
          (λ late.
            is_commit _ _
              (update_final-Evolves (browser_has_id row.id) expired_row db (λ r. refl) (λ r. refl)))
          (λ timely. is_done _ (
            update_found-Evolves _ (claimed_row (lib.sha256 (env.secret 0))) db row (λ r. refl)
              found open_stage))

  pub deny_callback-Grows :
      (registry : ClientRegistry) (claim : Text)
      → Grows db (deny_callback lib env registry claim db)
  unfolding deny_callback
  deny_callback-Grows registry claim = found_or-Ensures _ _ _ λ row found.
      abort_if-Ensures _ _ _ λ timely. attempt-Ensures _ _ λ _ checked.
        attempt-Ensures _ _ λ _ still_checked. is_done _ (
          update_final-Evolves (λ r. has_text (lib.sha256 claim) r.claim_hash) denied_claim_row db
            (λ r. refl) (λ r. refl))

  await_consent-Grows :
      (registry : Option ClientRegistry) (row : BrowserRow) (session : SessionRow) (staged : Db)
      → Evolves db staged
      → Grows db (await_consent lib env registry row session staged)
  unfolding await_consent
  await_consent-Grows registry row session staged e = abort_if-Ensures _ _ _ λ one.
      attempt-Ensures _ _ λ _ checked. is_done _ (
        Evolves-trans e (
          update_open-Evolves (is_claimed_id row.id)
            (consent_row session.id (lib.sha256 (env.secret 1))) staged (λ r. refl)
            (claimed_id-open row.id)))

  pub complete_callback-Grows :
      (registry : Option ClientRegistry) (identity : VerifiedGoogleIdentity) (lifetime : Duration)
      (claim : Text)
      → Grows db (complete_callback lib env registry identity lifetime claim db)
  unfolding complete_callback
  complete_callback-Grows registry identity lifetime claim = attempt-Ensures _ _ λ secs bounded.
      found_or-Ensures _ _ _ λ row found. attempt-Ensures _ _ λ _ checked.
        attempt-Ensures _ _ λ _ still_checked.
          bind-Ensures _ (insert_session-Ensures database _ _) λ staged inserted.
            if-Ensures (elapsed row.expires_at (env.wall 1)) _ _
              (λ late. is_commit _ _ (
                update_final-Evolves (browser_has_id row.id) expired_login_row db (λ r. refl)
                  (λ r. refl)))
              (λ timely. attempt-Ensures _ _ λ _ checked_again.
                await_consent-Grows registry row _ staged (
                  Evolves-trans (upsert_identity-Evolves identity (env.uuid 1) (env.wall 0) db)
                    (insert_session-Evolves database _ _ staged inserted)))
