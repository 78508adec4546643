-- ===== src/Browser/Approval.antt =====
-- browser.rs: what an approval has checked and written, and how one is made without asking.
use eri.Common.{true, false, not, ◌||◌, Option, none, some, ok, map_err, ◌≡◌, refl, arith}
use eri.External.{Libs}
use eri.Oauth.Registry.{ClientRegistry}
use eri.Oauth.Policy.{
  PendingAuthorizationGrant, ValidatedAuthorizationGrant, approve, pre_authorizes,
}
use eri.Store.{Db, BrowserRow, SessionRow, session_by_id, insert_code}
use eri.Store.Evolution.Rules.{insert_code-Ensures}
use eri.Transaction.{done, Ambient}
use eri.Transaction.Ensures.{
  Ensures, is_done, if-Ensures, bind-Ensures, attempt-Ensures, found_or-Ensures, abort_if-Ensures,
}
use eri.Credentials.Types.{ProviderSession}
use eri.Credentials.Issue.{code_row}
use eri.Browser.Types.{database, ConsentHandle, ConsentOutcome, policy_error, revalidate, is_stale}
use eri.Browser.Rows.{browser_has_id, browser_where, update_browser, awaits_consent}
use eri.Browser.Consent.{
  write_code, approve_consent, approve_pre_authorized, approve_allowed, approved_row,
}

module _ (lib : Libs) (env : Ambient Db) (registry : ClientRegistry) (session : ProviderSession)
    (handle : ConsentHandle) (db : Db) where
  -- A code that has been issued on a consent: `db` is the state under the locks.
  pub record IsApproved (outcome : ConsentOutcome) (after : Db) : Type 0 where
    pub session_row : SessionRow
    pub row : BrowserRow
    pub pending : PendingAuthorizationGrant
    pub grant : ValidatedAuthorizationGrant
    pub session_found : session_by_id session.id db ≡ some session_row
    pub row_found :
        browser_where (awaits_consent handle.transaction_id session.id (lib.sha256 handle.csrf)) db
        ≡ some row
    pub live : is_stale (env.wall 0) session_row (some row.expires_at) ≡ false
    pub valid : revalidate lib (env.instant 0) (env.instant 1) registry row ≡ ok pending
    pub consented : map_err policy_error (approve (env.instant 2) pending true) ≡ ok grant
    pub with_code : Db
    pub inserted :
        insert_code database
          (code_row lib
            (env.uuid 0)
            (env.secret 0)
            (env.wall 1)
            session_row
            grant
            row.oidc_nonce
            session_row.upstream_auth_time
            60)
          db
        ≡ done with_code
    pub closed :
        after ≡ update_browser (browser_has_id handle.transaction_id) approved_row with_code
    pub current : PendingAuthorizationGrant
    pub still_valid : revalidate lib (env.instant 3) (env.instant 4) registry row ≡ ok current
    pub code : outcome.code ≡ env.secret 0
    pub redirect : outcome.redirect_uri ≡ row.redirect_uri
    pub state : outcome.downstream_state ≡ row.downstream_state

  -- The code and the stage, as `write_code` writes them.
  record IsWritten (session_row : SessionRow) (row : BrowserRow)
      (pending : PendingAuthorizationGrant) (after : Db) : Type 0 where
    pub grant : ValidatedAuthorizationGrant
    pub consented : map_err policy_error (approve (env.instant 2) pending true) ≡ ok grant
    pub with_code : Db
    pub inserted :
        insert_code database
          (code_row lib
            (env.uuid 0)
            (env.secret 0)
            (env.wall 1)
            session_row
            grant
            row.oidc_nonce
            session_row.upstream_auth_time
            60)
          db
        ≡ done with_code
    pub closed :
        after ≡ update_browser (browser_has_id handle.transaction_id) approved_row with_code

  write_code-Ensures :
      {R : Db → Type 0} (session_row : SessionRow) (row : BrowserRow)
      (pending : PendingAuthorizationGrant)
      → Ensures
          (λ after. IsWritten session_row row pending after)
          R
          (write_code lib env session_row row handle pending db)
  unfolding write_code
  write_code-Ensures session_row row pending = attempt-Ensures _ _ λ grant consented.
      bind-Ensures _ (insert_code-Ensures database _ db) λ with_code inserted. is_done _ (record {
        grant = grant;
        consented = consented;
        with_code = with_code;
        inserted = inserted;
        closed = refl;
      })

  pub approve_consent-Ensures :
      {R : Db → Type 0}
      → Ensures
          (λ (t : ConsentOutcome × Db). IsApproved t.0 t.1)
          R
          (approve_consent lib env registry session handle db)
  unfolding approve_consent
  approve_consent-Ensures = found_or-Ensures _ _ _ λ session_row session_found.
      found_or-Ensures _ _ _ λ row row_found. abort_if-Ensures _ _ _ λ live.
        attempt-Ensures _ _ λ pending valid.
          bind-Ensures _ (write_code-Ensures session_row row pending) λ after w.
            attempt-Ensures _ _ λ current still_valid. is_done _ (record {
              session_row = session_row;
              row = row;
              pending = pending;
              grant = w.grant;
              session_found = session_found;
              row_found = row_found;
              live = live;
              valid = valid;
              consented = w.consented;
              with_code = w.with_code;
              inserted = w.inserted;
              closed = w.closed;
              current = current;
              still_valid = still_valid;
              code = refl;
              redirect = refl;
              state = refl;
            })

  -- A code that has been issued without asking: the policy of the client allows it before and after,
  -- and so did the request.
  pub record IsPreApproved (outcome : ConsentOutcome) (after : Db) : Type 0 where
    pub approved : IsApproved outcome after
    pub recorded : approved.row.allow_pre_authorization ≡ true
    pub allowed : pre_authorizes registry approved.pending ≡ true
    pub still_allowed : pre_authorizes registry approved.current ≡ true
    pub still_live :
        is_stale (env.wall 2) approved.session_row (some approved.row.expires_at) ≡ false

  -- The user is asked, and nothing has changed, or the code has been issued.
  pub data IsAnswered (answer : Option ConsentOutcome) (after : Db) : Type 0 where
    asks : answer ≡ none → after ≡ db → IsAnswered answer after
    issues :
        (outcome : ConsentOutcome)
        → answer ≡ some outcome
        → IsPreApproved outcome after
        → IsAnswered answer after

  pub approve_pre_authorized-Ensures :
      {R : Db → Type 0}
      → Ensures
          (λ (t : Option ConsentOutcome × Db). IsAnswered t.0 t.1)
          R
          (approve_pre_authorized lib env registry session handle db)
  unfolding approve_pre_authorized approve_allowed
  approve_pre_authorized-Ensures = found_or-Ensures _ _ _ λ session_row session_found.
      found_or-Ensures _ _ _ λ row row_found. abort_if-Ensures _ _ _ λ live.
        attempt-Ensures _ _ λ pending valid.
          if-Ensures (not row.allow_pre_authorization || not (pre_authorizes registry pending)) _
            (approve_allowed lib env registry session_row row handle pending db)
            (λ refused. is_done _ (asks refl refl))
            (λ allowed. bind-Ensures _ (write_code-Ensures session_row row pending) λ after w.
              attempt-Ensures _ _ λ current still_valid. abort_if-Ensures _ _ _ λ still_allowed.
                abort_if-Ensures _ _ _ λ still_live. is_done _ (
                  issues _ refl (record {
                    approved = record {
                      session_row = session_row;
                      row = row;
                      pending = pending;
                      grant = w.grant;
                      session_found = session_found;
                      row_found = row_found;
                      live = live;
                      valid = valid;
                      consented = w.consented;
                      with_code = w.with_code;
                      inserted = w.inserted;
                      closed = w.closed;
                      current = current;
                      still_valid = still_valid;
                      code = refl;
                      redirect = refl;
                      state = refl;
                    };
                    recorded = ground arith;
                    allowed = ground arith;
                    still_allowed = ground arith;
                    still_live = still_live;
                  })))
