-- ===== src/Browser/Growth/Consent.antt =====
-- browser.rs: the transactions on the consent evolve the tables, however they end.
use eri.Common.{Text, Bool, not, ◌||◌, Option, refl, text_eq}
use eri.External.{Libs}
use eri.Oauth.Registry.{ClientRegistry}
use eri.Oauth.Policy.{PendingAuthorizationGrant, pre_authorizes}
use eri.Store.{Db, BrowserRow, SessionRow}
use eri.Store.Evolution.{Evolves, Evolves-refl, Evolves-trans}
use eri.Store.Evolution.Rules.{insert_code-Ensures}
use eri.Store.Evolution.Insertions.{insert_code-Evolves}
use eri.Transaction.{Ambient}
use eri.Transaction.Ensures.{
  Ensures, is_done, bind-Ensures, attempt-Ensures, found_or-Ensures, abort_if-Ensures, if-Ensures,
}
use eri.Credentials.Types.{ProviderSession}
use eri.Browser.Types.{database, ConsentHandle}
use eri.Browser.Rows.{browser_has_id}
use eri.Browser.Consent.{
  begin_authenticated, approve_consent, approve_pre_authorized, approve_allowed, write_code,
  deny_consent, approved_row, denied_row,
}
use eri.Browser.Ended.{update_final-Evolves, insert_browser-Evolves, insert_browser-Ensures}
use eri.Browser.Growth.{Grows}

module _ (lib : Libs) (env : Ambient Db) (db : Db) where
  pub begin_authenticated-Grows :
      (session : ProviderSession) (pending : PendingAuthorizationGrant)
      (state oidc_nonce : Option Text) (allow : Bool)
      → Grows db (begin_authenticated lib env session pending state oidc_nonce allow db)
  unfolding begin_authenticated
  begin_authenticated-Grows session pending state oidc_nonce allow =
      found_or-Ensures _ _ _ λ session_row found. abort_if-Ensures _ _ _ λ live.
        attempt-Ensures _ _ λ _ fresh.
          bind-Ensures _ (insert_browser-Ensures database _ db) λ after inserted.
            attempt-Ensures _ _
              λ _ still_fresh. is_done _ (insert_browser-Evolves database _ db after inserted)

  write_code-Evolves :
      (session_row : SessionRow) (row : BrowserRow) (handle : ConsentHandle)
      (pending : PendingAuthorizationGrant)
      → Ensures
          (λ after. Evolves db after)
          (λ d. Evolves db d)
          (write_code lib env session_row row handle pending db)
  unfolding write_code
  write_code-Evolves session_row row handle pending = attempt-Ensures _ _ λ grant approved.
      bind-Ensures _ (insert_code-Ensures database _ db) λ after inserted. is_done _ (
        Evolves-trans (insert_code-Evolves database _ db after inserted) (
          update_final-Evolves (browser_has_id handle.transaction_id) approved_row after (λ r. refl)
            (λ r. refl)))

  pub approve_consent-Grows :
      (registry : ClientRegistry) (session : ProviderSession) (handle : ConsentHandle)
      → Grows db (approve_consent lib env registry session handle db)
  unfolding approve_consent
  approve_consent-Grows registry session handle =
      found_or-Ensures _ _ _ λ session_row session_found. found_or-Ensures _ _ _ λ row found.
        abort_if-Ensures _ _ _ λ live. attempt-Ensures _ _ λ pending checked.
          bind-Ensures _ (write_code-Evolves session_row row handle pending)
            λ after grown. attempt-Ensures _ _ λ _ still_checked. is_done _ grown

  approve_allowed-Grows :
      (registry : ClientRegistry) (session_row : SessionRow) (row : BrowserRow)
      (handle : ConsentHandle) (pending : PendingAuthorizationGrant)
      → Grows db (approve_allowed lib env registry session_row row handle pending db)
  unfolding approve_allowed
  approve_allowed-Grows registry session_row row handle pending =
      bind-Ensures _ (write_code-Evolves session_row row handle pending) λ after grown.
        attempt-Ensures _ _ λ current checked.
          abort_if-Ensures _ _ _ λ allowed. abort_if-Ensures _ _ _ λ live. is_done _ grown

  pub approve_pre_authorized-Grows :
      (registry : ClientRegistry) (session : ProviderSession) (handle : ConsentHandle)
      → Grows db (approve_pre_authorized lib env registry session handle db)
  unfolding approve_pre_authorized
  approve_pre_authorized-Grows registry session handle =
      found_or-Ensures _ _ _ λ session_row session_found. found_or-Ensures _ _ _ λ row found.
        abort_if-Ensures _ _ _ λ live. attempt-Ensures _ _ λ pending checked.
          if-Ensures (not row.allow_pre_authorization || not (pre_authorizes registry pending)) _ _
            (λ refused. is_done _ (Evolves-refl db))
            (λ allowed. approve_allowed-Grows registry session_row row handle pending)

  pub deny_consent-Grows :
      (registry : Option ClientRegistry) (session : ProviderSession) (handle : ConsentHandle)
      → Grows db (deny_consent lib env registry session handle db)
  unfolding deny_consent
  deny_consent-Grows registry session handle = found_or-Ensures _ _ _ λ session_row session_found.
      found_or-Ensures _ _ _ λ row found. abort_if-Ensures _ _ _ λ live.
        attempt-Ensures _ _ λ _ checked. attempt-Ensures _ _ λ _ still_checked. is_done _ (
          update_final-Evolves (browser_has_id handle.transaction_id) denied_row db (λ r. refl)
            (λ r. refl))
