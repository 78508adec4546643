-- ===== src/Oauth/Types.antt =====
-- oauth.rs: the enumerations and the error type.
pub data RedirectKind : Type 0 where
  exact native_loopback app_claimed_https : RedirectKind

pub data AuthorizationFlow : Type 0 where
  interactive google_preauthorized : AuthorizationFlow

pub data LogoutFlow : Type 0 where
  interactive id_token_hint : LogoutFlow

pub data OauthError : Type 0 where
  metadata_expired invalid_client_declaration unknown_client unsupported_response_type : OauthError
  unsupported_pkce_method invalid_pkce invalid_redirect invalid_scope : OauthError
  invalid_resource consent_required : OauthError
