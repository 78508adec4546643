-- ===== src/Browser/Types.antt =====
-- browser.rs: the values that the operations take and give, the errors, and the checks of policy.
use eri.Common.{
  ℕ, Text, Bool, not, ◌&&◌, ◌||◌, Option, none, some, List, is_some, is_some_and, nat_beq, ltb,
  Result, ok, err, ◌>>◌, map_err, if◌then◌else◌,
}
use eri.External.{Libs}
use eri.Oauth.Types.{OauthError}
use eri.Oauth.Registry.{ClientRegistry, validate_binding}
use eri.Oauth.Policy.{PendingAuthorizationGrant, request_of, validate_pending}
use eri.Store.{Db, SessionRow, BrowserRow, elapsed}
use eri.Transaction.{Outcome}
use eri.Credentials.Types.{ProviderSession, Duration, forget}

pub data BrowserError : Type 0 where
  metadata_expired invalid policy_changed database : BrowserError

pub record BrowserStart : Type 0 where
  pub transaction_id : ℕ
  pub upstream_state : Text
  pub browser_binding : Text
  pub upstream_nonce : Text
  pub upstream_verifier : Text

pub record ConsentHandle : Type 0 where
  pub transaction_id : ℕ
  pub csrf : Text

pub record LoginCompletion : Type 0 where
  pub session : ProviderSession
  pub consent : ConsentHandle

pub record ConsentOutcome : Type 0 where
  pub code : Text
  pub redirect_uri : Text
  pub downstream_state : Option Text

pub record DenialOutcome : Type 0 where
  pub redirect_uri : Text
  pub downstream_state : Option Text

-- `account` is the user's name or email address, or the identifier of the user.
pub data Account : Type 0 where
  email : Text → Account
  named : Text → ℕ → Account
  anonymous : ℕ → Account

pub record ConsentView : Type 0 where
  pub transaction_id : ℕ
  pub csrf : Text
  pub client_name : Text
  pub scopes : List Text
  pub resource : Text
  pub redirect_uri : Text
  pub account : Account

abbrev pub BrowserTx : Type 0 → Type 0
BrowserTx A = Outcome BrowserError Db A

abbrev pub policy_error : OauthError → BrowserError
policy_error OauthError.metadata_expired = metadata_expired
policy_error _ = policy_changed

-- The check of a stored row against the registry, at two readings of the monotonic clock.
unfoldable pub revalidate :
    Libs → ℕ → ℕ → ClientRegistry → BrowserRow → Result BrowserError PendingAuthorizationGrant
revalidate lib instant instant' reg row = do
  map_err policy_error (validate_binding lib instant reg row.client_id row.cimd_binding)
  map_err policy_error (
      validate_pending lib instant' reg
        (request_of lib row.client_id row.redirect_uri row.code_challenge row.scopes row.resource))

unfoldable pub validate_optional_registry :
    Libs → ℕ → ℕ → Option ClientRegistry → BrowserRow → Result BrowserError (Unit {0})
validate_optional_registry lib instant instant' (some reg) row =
    forget (revalidate lib instant instant' reg row)
validate_optional_registry lib instant instant' none row =
    if is_some row.cimd_binding then err policy_changed else ok tt

unfoldable pub bounded_seconds : Duration → ℕ → Result BrowserError ℕ
bounded_seconds d maximum =
    if (nat_beq d.secs 0 && nat_beq d.subsec_nanos 0)
      || ltb maximum d.secs
      || not (nat_beq d.subsec_nanos 0)
    then err invalid
    else ok d.secs

-- `ensure_fresh`, as a test: the session, and the row that it is for, are over.
abbrev pub is_stale : ℕ → SessionRow → Option ℕ → Bool
is_stale now session browser_expiry =
    is_some session.revoked_at
    || elapsed session.expires_at now
    || is_some_and (λ expiry. elapsed expiry now) browser_expiry
