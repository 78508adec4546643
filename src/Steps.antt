-- ===== src/Steps.antt =====
-- The calls of the program as steps on the database: each commits one transaction, and any
-- interleaving of calls is a sequence of such steps. A call that first reads a row and then waits
-- for a lock takes that row as an argument of its step, whatever it was.
pub mod Interleaving
use eri.Common.{Bool, ℕ, Text, Option, none, some, List, ◌≡◌, refl}
use eri.External.{Libs}
use eri.Oauth.Registry.{ClientRegistry}
use eri.Oauth.Policy.{PendingAuthorizationGrant, ValidatedAuthorizationGrant}
use eri.Store.{Db, CodeRow}
use eri.Transaction.{Ambient, settle}
use eri.Credentials.Types.{ProviderSession, Duration}
use eri.Credentials.Issue.{create_provider_session_tx, issue_authorization_code_tx}
use eri.Credentials.Exchange.{ExchangeRequest, exchange_locked}
use eri.Credentials.Refresh.{
  RotateRequest, TokenLookup, rotate_locked, revoke_locked, logout_locked,
}
use eri.Identity.{VerifiedGoogleIdentity}
use eri.Browser.Types.{ConsentHandle}
use eri.Browser.Google.{
  begin_google, start_google, cancel_google, claim_callback, fail_callback, deny_callback,
}
use eri.Browser.Login.{complete_callback}
use eri.Browser.Consent.{begin_authenticated, approve_consent, approve_pre_authorized, deny_consent}
use eri.Logout.{LogoutChallenge, IdClaims, insert_logout, finish_inner}

pub data Step (lib : Libs) (a b : Db) : Type 0 where
  creates_session :
      (env : Ambient Db) (user_id : ℕ) (upstream : Option ℕ) (lifetime : Duration)
      → b ≡ (settle a (create_provider_session_tx lib env user_id upstream lifetime a)).1
      → Step lib a b
  issues_code :
      (env : Ambient Db) (session : ProviderSession) (grant : ValidatedAuthorizationGrant)
      (secs : ℕ)
      → b ≡ (settle a (issue_authorization_code_tx lib env session grant secs a)).1
      → Step lib a b
  exchanges_code :
      (env : Ambient Db) (registry : Option ClientRegistry) (req : ExchangeRequest)
      (first : CodeRow)
      → b ≡ (settle a (exchange_locked lib env registry req first a)).1
      → Step lib a b
  rotates :
      (env : Ambient Db) (registry : Option ClientRegistry) (req : RotateRequest)
      (lookup : TokenLookup)
      → b ≡ (settle a (rotate_locked lib env registry req lookup a)).1
      → Step lib a b
  revokes :
      (env : Ambient Db) (lookup : TokenLookup)
      → b ≡ (settle a (revoke_locked lib env lookup a)).1
      → Step lib a b
  logs_out :
      (env : Ambient Db) (session_id : ℕ)
      → b ≡ (settle a (logout_locked env session_id a)).1
      → Step lib a b
  begins_google :
      (env : Ambient Db) (pending : PendingAuthorizationGrant) (state nonce : Option Text)
      (allow : Bool)
      → b ≡ (settle a (begin_google lib env pending state nonce allow a)).1
      → Step lib a b
  starts_google :
      (env : Ambient Db) (id : ℕ) (state binding : Text)
      → b ≡ (settle a (start_google lib env id state binding a)).1
      → Step lib a b
  cancels_google :
      (env : Ambient Db) (registry : Option ClientRegistry) (id : ℕ) (state binding : Text)
      → b ≡ (settle a (cancel_google lib env registry id state binding a)).1
      → Step lib a b
  claims_callback :
      (env : Ambient Db) (state binding : Text)
      → b ≡ (settle a (claim_callback lib env state binding a)).1
      → Step lib a b
  fails_callback : (claim : Text) → b ≡ (settle a (fail_callback lib claim a)).1 → Step lib a b
  denies_callback :
      (env : Ambient Db) (registry : ClientRegistry) (claim : Text)
      → b ≡ (settle a (deny_callback lib env registry claim a)).1
      → Step lib a b
  completes_callback :
      (env : Ambient Db) (registry : Option ClientRegistry) (identity : VerifiedGoogleIdentity)
      (lifetime : Duration) (claim : Text)
      → b ≡ (settle a (complete_callback lib env registry identity lifetime claim a)).1
      → Step lib a b
  begins_consent :
      (env : Ambient Db) (session : ProviderSession) (pending : PendingAuthorizationGrant)
      (state nonce : Option Text) (allow : Bool)
      → b ≡ (settle a (begin_authenticated lib env session pending state nonce allow a)).1
      → Step lib a b
  approves_consent :
      (env : Ambient Db) (registry : ClientRegistry) (session : ProviderSession)
      (handle : ConsentHandle)
      → b ≡ (settle a (approve_consent lib env registry session handle a)).1
      → Step lib a b
  pre_authorizes_consent :
      (env : Ambient Db) (registry : ClientRegistry) (session : ProviderSession)
      (handle : ConsentHandle)
      → b ≡ (settle a (approve_pre_authorized lib env registry session handle a)).1
      → Step lib a b
  denies_consent :
      (env : Ambient Db) (registry : Option ClientRegistry) (session : ProviderSession)
      (handle : ConsentHandle)
      → b ≡ (settle a (deny_consent lib env registry session handle a)).1
      → Step lib a b
  begins_logout :
      (env : Ambient Db) (session : ProviderSession) (client_id redirect : Text)
      (state : Option Text)
      → b ≡ (settle a (insert_logout lib env session client_id redirect state a)).1
      → Step lib a b
  finishes_logout :
      (env : Ambient Db) (session : ProviderSession) (challenge : LogoutChallenge)
      (registry : ClientRegistry) (hint : Option IdClaims)
      → b ≡ (settle a (finish_inner lib env session challenge registry hint a)).1
      → Step lib a b

pub data Reach (lib : Libs) (a : Db) : Db → Type 0 where
  here : Reach lib a a
  next : {b c : Db} → Reach lib a b → Step lib b c → Reach lib a c

-- While a call waits for its locks, other calls make steps.
abbrev pub IsFair : Libs → Ambient Db → Type 0
IsFair lib env = (k : ℕ) (d : Db) → Reach lib d (env.others k d)
