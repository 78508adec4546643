-- ===== src/Credentials/Types.antt =====
-- credentials.rs: the types, the error conversions, and the checks that the operations share.
use eri.Common.{
  ℕ, Text, Bool, true, false, not, ◌||◌, ◌&&◌, Option, none, some, List, [], ◌∷◌, is_some, length,
  nat_beq, ltb, text_eq, Result, ok, err, map_err, if◌then◌else◌, text_beq,
}
use eri.Common.SortedSet.{collect}
use eri.External.{Libs}
use eri.Oauth.Types.{OauthError}
use eri.Oauth.Registry.{ClientRegistry, validate_binding}
use eri.Oauth.Policy.{request_of, validate_pending}
use eri.Store.{Db}
use eri.Transaction.{Outcome}

pub data CredentialError : Type 0 where
  metadata_expired invalid_grant invalid_lifetime database : CredentialError

pub record ProviderSession : Type 0 where
  pub raw : Text
  pub id : ℕ
  pub expires_at : ℕ

pub record ExchangeResult : Type 0 where
  pub session_id : ℕ
  pub user_id : ℕ
  pub client_id : Text
  pub scopes : List Text
  pub resource : Text
  pub refresh_token : Option Text
  pub oidc_nonce : Option Text
  pub upstream_auth_time : Option ℕ

-- A transaction of the credential store.
abbrev pub Tx : Type 0 → Type 0
Tx A = Outcome CredentialError Db A

abbrev pub credential_policy_error : OauthError → CredentialError
credential_policy_error OauthError.metadata_expired = metadata_expired
credential_policy_error _ = invalid_grant

-- `std::time::Duration`
pub record Duration : Type 0 where
  pub secs : ℕ
  pub subsec_nanos : ℕ

unfoldable pub bounded_seconds : Duration → ℕ → Result CredentialError ℕ
bounded_seconds d maximum =
    if (nat_beq d.secs 0 && nat_beq d.subsec_nanos 0)
      || ltb maximum d.secs
      || not (nat_beq d.subsec_nanos 0)
    then err invalid_lifetime
    else ok d.secs

abbrev texts_beq : List Text → List Text → Bool
texts_beq [] [] = true
texts_beq (a ∷ xs) (b ∷ ys) = text_beq a b && texts_beq xs ys
texts_beq _ _ = false

unfoldable pub same_scopes : List Text → List Text → Bool
same_scopes left right =
    nat_beq (length (collect left)) (length left) && texts_beq (collect left) (collect right)

module _ (lib : Libs) (registry : Option ClientRegistry) where
  -- `check_binding`, at a reading of the monotonic clock
  unfoldable pub check_binding : ℕ → Text → Option Text → Result CredentialError (Unit {0})
  check_binding instant client binding = elim registry [
    | some reg ↦ map_err credential_policy_error (validate_binding lib instant reg client binding)
    | none ↦ if is_some binding then err invalid_grant else ok tt
  ]

abbrev pub forget : {E A : Type 0} → Result E A → Result E (Unit {0})
forget (ok a) = ok tt
forget (err e) = err e

-- The validation of stored parts under a registry, for its errors alone.
unfoldable pub check_policy :
    Libs
    → ℕ
    → ClientRegistry
    → Text
    → Text
    → Text
    → List Text
    → Text
    → Result CredentialError (Unit {0})
check_policy lib instant reg client_id redirect_uri challenge scopes resource = forget (
    map_err credential_policy_error (
      validate_pending lib instant reg
        (request_of lib client_id redirect_uri challenge scopes resource)))

-- As `check_policy`, where the caller may have no registry.
abbrev pub check_optional_policy :
    Libs
    → Option ClientRegistry
    → ℕ
    → Text
    → Text
    → Text
    → List Text
    → Text
    → Result CredentialError (Unit {0})
check_optional_policy lib none instant client_id redirect_uri challenge scopes resource = ok tt
check_optional_policy lib (some reg) instant client_id redirect_uri challenge scopes resource =
    check_policy lib instant reg client_id redirect_uri challenge scopes resource
