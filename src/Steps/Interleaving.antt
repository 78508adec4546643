-- ===== src/Steps/Interleaving.antt =====
-- Every step, and so every sequence of steps, evolves the tables.
use eri.Common.{ℕ, Option}
use eri.External.{Libs}
use eri.Oauth.Registry.{ClientRegistry}
use eri.Oauth.Policy.{ValidatedAuthorizationGrant}
use eri.Store.{Db, CodeRow, revoke_session, is_family, of_session}
use eri.Store.Evolution.{Evolves, Evolves-refl, Evolves-trans}
use eri.Store.Evolution.Steps.{revoke_families-Evolves, revoke_session-Evolves}
use eri.Store.Evolution.Insertions.{insert_session-Evolves, insert_code-Evolves}
use eri.Store.Evolution.Rules.{insert_session-Ensures, insert_code-Ensures}
use eri.Transaction.{Outcome, Ambient, settle}
use eri.Transaction.Ensures.{
  Ensures, is_done, bind-Ensures, attempt-Ensures, found_or-Ensures, lock-Ensures, abort_if-Ensures,
  settle-Ensures, weaken-Ensures,
}
use eri.Credentials.Types.{database, ProviderSession, Duration, Tx}
use eri.Credentials.Issue.{create_provider_session_tx, issue_authorization_code_tx}
use eri.Credentials.Exchange.{ExchangeRequest, exchange_locked}
use eri.Credentials.Exchange.Success.{exchange_locked-Ensures, IsExchanged-Evolves}
use eri.Credentials.Exchange.Success
use eri.Credentials.Refresh.{
  RotateRequest, TokenLookup, rotate_locked, revoke_locked, logout_locked,
}
use eri.Credentials.Refresh.Success.{rotate_locked-Ensures, IsRotated-Evolves}
use eri.Credentials.Refresh.Success as RefreshSuccess
use eri.Browser.Growth.{
  begin_google-Grows, start_google-Grows, cancel_google-Grows, claim_callback-Grows,
  fail_callback-Grows, deny_callback-Grows, complete_callback-Grows,
}
use eri.Browser.Growth.Consent.{
  begin_authenticated-Grows, approve_consent-Grows, approve_pre_authorized-Grows,
  deny_consent-Grows,
}
use eri.Logout.Finish.{insert_logout-Ensures, finish_inner-Ensures, IsFinished-Evolves}
use eri.Steps.{
  begins_google, starts_google, cancels_google, claims_callback, fails_callback, denies_callback,
  completes_callback, begins_consent, approves_consent, pre_authorizes_consent, denies_consent,
  begins_logout, finishes_logout, Step, creates_session, issues_code, exchanges_code, rotates,
  revokes, logs_out, Reach, here, next,
}

-- A transaction whose commits evolve the tables.
abbrev pub Grows : {A : Type 0} → Db → Tx (A × Db) → Type 0
Grows {A} db m = Ensures (λ (t : A × Db). Evolves db t.1) (λ d. Evolves db d) m

module _ (lib : Libs) (env : Ambient Db) (db : Db) where
  create-Grows :
      (user_id : ℕ) (upstream : Option ℕ) (lifetime : Duration)
      → Grows db (create_provider_session_tx lib env user_id upstream lifetime db)
  unfolding create_provider_session_tx
  create-Grows user_id upstream lifetime = attempt-Ensures _ _ λ secs bounded.
      bind-Ensures _ (insert_session-Ensures database _ db)
        λ after inserted. is_done _ (insert_session-Evolves database _ db after inserted)

  issue-Grows :
      (session : ProviderSession) (grant : ValidatedAuthorizationGrant) (secs : ℕ)
      → Grows db (issue_authorization_code_tx lib env session grant secs db)
  unfolding issue_authorization_code_tx
  issue-Grows session grant secs = found_or-Ensures _ _ _ λ row found.
      abort_if-Ensures _ _ _ λ active. abort_if-Ensures _ _ _ λ fresh.
        bind-Ensures _ (insert_code-Ensures database _ db) λ after inserted.
          abort_if-Ensures _ _ _
            λ still_fresh. is_done _ (insert_code-Evolves database _ db after inserted)

  exchange-Grows :
      (registry : Option ClientRegistry) (req : ExchangeRequest) (first : CodeRow)
      → Grows db (exchange_locked lib env registry req first db)
  exchange-Grows registry req first =
      weaken-Ensures (λ t e. IsExchanged-Evolves lib env registry req first db t.0 t.1 e)
        (λ d e. Success.IsReplayed-Evolves lib env registry req first db d e)
        (exchange_locked-Ensures lib env registry req first db)

  rotate-Grows :
      (registry : Option ClientRegistry) (req : RotateRequest) (lookup : TokenLookup)
      → Grows db (rotate_locked lib env registry req lookup db)
  rotate-Grows registry req lookup =
      weaken-Ensures (λ t e. IsRotated-Evolves lib env registry req lookup db t.0 t.1 e)
        (λ d e. RefreshSuccess.IsReplayed-Evolves lib env registry req lookup db d e)
        (rotate_locked-Ensures lib env registry req lookup db)

  revoke-Grows : (lookup : TokenLookup) → Grows db (revoke_locked lib env lookup db)
  unfolding revoke_locked
  revoke-Grows lookup = lock-Ensures _ _ _ λ session session_found.
      lock-Ensures _ _ _ λ family family_found.
        is_done _ (revoke_families-Evolves (is_family lookup.family_id) (env.wall 0) db)

logout-Grows :
    (env : Ambient Db) (session_id : ℕ) (db : Db) → Grows db (logout_locked env session_id db)
unfolding logout_locked
logout-Grows env session_id db = lock-Ensures _ _ _ λ session session_found. is_done _ (
    Evolves-trans (revoke_session-Evolves session_id (env.wall 0) db) (
      revoke_families-Evolves (of_session session_id) (env.wall 1)
        (revoke_session session_id (env.wall 0) db)))

committed :
    {E A : Type 0} (db : Db) (m : Outcome E Db (A × Db))
    → Ensures (λ (t : A × Db). Evolves db t.1) (λ d. Evolves db d) m
    → Evolves db (settle db m).1
committed db m h = settle-Ensures db m (Evolves-refl db) h

pub Step-Evolves : {lib : Libs} {a b : Db} → Step lib a b → Evolves a b
Step-Evolves {lib} {a} (creates_session env user upstream lifetime e) =
    rw e (committed a _ (create-Grows lib env a user upstream lifetime))
Step-Evolves {lib} {a} (issues_code env session grant secs e) =
    rw e (committed a _ (issue-Grows lib env a session grant secs))
Step-Evolves {lib} {a} (exchanges_code env registry req first e) =
    rw e (committed a _ (exchange-Grows lib env a registry req first))
Step-Evolves {lib} {a} (rotates env registry req lookup e) =
    rw e (committed a _ (rotate-Grows lib env a registry req lookup))
Step-Evolves {lib} {a} (revokes env lookup e) = rw e (committed a _ (revoke-Grows lib env a lookup))
Step-Evolves {lib} {a} (logs_out env session_id e) =
    rw e (committed a _ (logout-Grows env session_id a))
Step-Evolves {lib} {a} (begins_google env pending state oidc_nonce allow e) =
    rw e (committed a _ (begin_google-Grows lib env a pending state oidc_nonce allow))
Step-Evolves {lib} {a} (starts_google env id state binding e) =
    rw e (committed a _ (start_google-Grows lib env a id state binding))
Step-Evolves {lib} {a} (cancels_google env registry id state binding e) =
    rw e (committed a _ (cancel_google-Grows lib env a registry id state binding))
Step-Evolves {lib} {a} (claims_callback env state binding e) =
    rw e (committed a _ (claim_callback-Grows lib env a state binding))
Step-Evolves {lib} {a} (fails_callback claim e) =
    rw e (committed a _ (fail_callback-Grows lib a claim))
Step-Evolves {lib} {a} (denies_callback env registry claim e) =
    rw e (committed a _ (deny_callback-Grows lib env a registry claim))
Step-Evolves {lib} {a} (completes_callback env registry identity lifetime claim e) =
    rw e (committed a _ (complete_callback-Grows lib env a registry identity lifetime claim))
Step-Evolves {lib} {a} (begins_consent env session pending state oidc_nonce allow e) =
    rw e
      (committed a _ (begin_authenticated-Grows lib env a session pending state oidc_nonce allow))
Step-Evolves {lib} {a} (approves_consent env registry session handle e) =
    rw e (committed a _ (approve_consent-Grows lib env a registry session handle))
Step-Evolves {lib} {a} (pre_authorizes_consent env registry session handle e) =
    rw e (committed a _ (approve_pre_authorized-Grows lib env a registry session handle))
Step-Evolves {lib} {a} (denies_consent env registry session handle e) =
    rw e (committed a _ (deny_consent-Grows lib env a registry session handle))
Step-Evolves {lib} {a} (begins_logout env session client_id redirect state e) =
    rw e (committed a _ (insert_logout-Ensures lib env session a client_id redirect state))
Step-Evolves {lib} {a} (finishes_logout env session challenge registry hint e) = rw e (
    committed a _ (
      weaken-Ensures (λ t f. IsFinished-Evolves lib env session a challenge registry hint t.0 t.1 f)
        (λ d f. f) (finish_inner-Ensures lib env session a challenge registry hint)))

-- Any sequence of steps keeps every row of the credential tables and its bindings under its keys,
-- undoes no consumption and no revocation, and reopens no browser transaction that has ended.
pub Reach-Evolves : {lib : Libs} {a b : Db} → Reach lib a b → Evolves a b
Reach-Evolves {a} here = Evolves-refl a
Reach-Evolves (next r s) = Evolves-trans (Reach-Evolves r) (Step-Evolves s)
