-- ===== src/Tests/Tokens.antt =====
-- Rows, clocks and requests for runs of credentials.rs, with the results of the runs.
use eri.Common.{
  ℕ, ◌+◌, Text, bytes, true, none, some, [], ◌∷◌, Result, ok, ◌≡◌, refl, any, all, find,
  update_where, text_beq,
}
use eri.Oauth.Pkce.{validate_pkce_challenge, validate_pkce_verifier, s256_challenge, verify_s256}
use eri.Store.{
  Db, SessionRow, CodeRow, seconds, days, session_by_id, code_by_id, code_by_hash, family_by_id,
  member_by_id, member_by_hash, insert_family, insert_member, consume_code, consume_member,
  revoke_families, revoke_session,
}
use eri.Transaction.{Ambient, ◌>>=◌}
use eri.Credentials.Types.{ProviderSession, ExchangeResult, check_binding}
use eri.Credentials.Exchange.{
  ExchangeRequest, binds_code, start_family, consume_and_issue, exchange_locked,
  exchange_code_bound,
}
use eri.Credentials.Refresh.{
  RotateRequest, lookup_token, binds_family, issue_successor, rotate_locked, rotate_refresh_bound,
  logout_locked, logout,
}
use eri.Steps.{Reach, here, next, exchanges_code, IsFair}
use eri.Tests.Demo.{lib, fill, verifier, challenge, app, callback, api, openid}

abbrev session_row : ℕ → Text → SessionRow
session_row id raw = record {
  id = id;
  token_hash = lib.sha256 raw;
  user_id = 7;
  auth_time = 0;
  expires_at = days 1;
  revoked_at = none;
  upstream_auth_time = none;
}

abbrev pub code_row : ℕ → ℕ → Text → CodeRow
code_row id session_id raw = record {
  id = id;
  code_hash = lib.sha256 raw;
  session_id = session_id;
  client_id = app;
  redirect_uri = callback;
  scopes = openid ∷ [];
  resource = api;
  code_challenge = challenge;
  issue_refresh_token = true;
  issued_at = 0;
  expires_at = seconds 60;
  consumed_at = none;
  oidc_nonce = none;
  upstream_auth_time = none;
  cimd_binding = none;
}

abbrev pub raw_code : Text
raw_code = bytes "code_one"

abbrev pub other_code : Text
other_code = bytes "code_two"

-- Two sessions with a code each.
abbrev pub start : Db
start = record {
  sessions = session_row 1 (bytes "s_one") ∷ session_row 2 (bytes "s_two") ∷ [];
  codes = code_row 11 1 raw_code ∷ code_row 12 2 other_code ∷ [];
  families = [];
  members = [];
  browser = [];
  challenges = [];
  identities = [];
  profiles = [];
}

-- A call in which no other call gets in between.
abbrev pub alone : ℕ → Text → Ambient Db
alone base secret = record {
  instant = λ k. k;
  wall = λ k. 1_000;
  secret = λ k. secret;
  uuid = λ k. base + k;
  others = λ k d. d;
}

abbrev pub first_call : Ambient Db
first_call = alone 100 (bytes "refresh_one")

abbrev pub second_call : Ambient Db
second_call = alone 200 (bytes "refresh_two")

abbrev pub third_call : Ambient Db
third_call = alone 300 (bytes "refresh_three")

pub first-IsFair : IsFair lib first_call
first-IsFair k d = here

pub second-IsFair : IsFair lib second_call
second-IsFair k d = here

pub third-IsFair : IsFair lib third_call
third-IsFair k d = here

abbrev pub exchange_request : Text → ExchangeRequest
exchange_request raw = record {
  raw = raw;
  client_id = app;
  redirect_uri = callback;
  resource = api;
  verifier = verifier;
}

abbrev pub rotate_request : Text → RotateRequest
rotate_request raw = record { raw = raw; client_id = app; resource = api }

abbrev pub given : ℕ → Text → ExchangeResult
given session_id token = record {
  session_id = session_id;
  user_id = 7;
  client_id = app;
  scopes = openid ∷ [];
  resource = api;
  refresh_token = some token;
  oidc_nonce = none;
  upstream_auth_time = none;
}

-- What the run of a call has left.
abbrev pub left : {E A : Type 0} → Result E A × Db → Db
left t = t.1

abbrev pub exchanged : Db
exchanged = left (exchange_code_bound lib first_call none (exchange_request raw_code) start)

pub exchange_runs :
    exchange_code_bound lib first_call none (exchange_request raw_code) start
    ≡ (ok (given 1 (bytes "refresh_one")), exchanged)
unfolding exchange_code_bound exchange_locked consume_and_issue start_family check_binding ◌>>=◌
    binds_code code_by_hash code_by_id session_by_id find fill text_beq verify_s256 s256_challenge
    validate_pkce_verifier validate_pkce_challenge all insert_family insert_member family_by_id
    member_by_id member_by_hash consume_code update_where any
exchange_runs = refl

abbrev pub rotated : Db
rotated =
    left
      (rotate_refresh_bound lib second_call none (rotate_request (bytes "refresh_one")) exchanged)

pub rotate_runs :
    rotate_refresh_bound lib second_call none (rotate_request (bytes "refresh_one")) exchanged
    ≡ (ok (given 1 (bytes "refresh_two")), rotated)
unfolding exchange_code_bound exchange_locked consume_and_issue start_family check_binding ◌>>=◌
    binds_code code_by_hash code_by_id session_by_id find fill text_beq verify_s256 s256_challenge
    validate_pkce_verifier validate_pkce_challenge all insert_family insert_member family_by_id
    member_by_id member_by_hash consume_code update_where any rotate_refresh_bound lookup_token
    rotate_locked binds_family issue_successor consume_member
rotate_runs = refl

-- The two sessions, the tokens of the second, and a logout of the first.
abbrev pub first_session : ProviderSession
first_session = record { raw = bytes "s_one"; id = 1; expires_at = days 1 }

abbrev pub out : Db
out = left (logout third_call first_session start)

pub logout_runs : logout third_call first_session start ≡ (ok tt, out)
unfolding logout logout_locked ◌>>=◌ session_by_id find revoke_session revoke_families update_where
logout_runs = refl

abbrev pub other_exchanged : Db
other_exchanged = left (exchange_code_bound lib first_call none (exchange_request other_code) out)

pub other_exchange_runs :
    exchange_code_bound lib first_call none (exchange_request other_code) out
    ≡ (ok (given 2 (bytes "refresh_one")), other_exchanged)
unfolding exchange_code_bound exchange_locked consume_and_issue start_family check_binding ◌>>=◌
    binds_code code_by_hash code_by_id session_by_id find fill text_beq verify_s256 s256_challenge
    validate_pkce_verifier validate_pkce_challenge all insert_family insert_member family_by_id
    member_by_id member_by_hash consume_code update_where any logout logout_locked revoke_session
    revoke_families
other_exchange_runs = refl

-- The exchange of the other code is a step.
pub other_exchange_steps : Reach lib out other_exchanged
unfolding exchange_code_bound exchange_locked consume_and_issue start_family check_binding ◌>>=◌
    binds_code code_by_hash code_by_id session_by_id find fill text_beq verify_s256 s256_challenge
    validate_pkce_verifier validate_pkce_challenge all insert_family insert_member family_by_id
    member_by_id member_by_hash consume_code update_where any logout logout_locked revoke_session
    revoke_families
other_exchange_steps =
    next here
      (exchanges_code first_call none (exchange_request other_code) (code_row 12 2 other_code) refl)

abbrev pub other_rotated : Db
other_rotated = left (
    rotate_refresh_bound lib second_call none (rotate_request (bytes "refresh_one"))
      other_exchanged)

pub other_rotate_runs :
    rotate_refresh_bound lib second_call none (rotate_request (bytes "refresh_one")) other_exchanged
    ≡ (ok (given 2 (bytes "refresh_two")), other_rotated)
unfolding exchange_code_bound exchange_locked consume_and_issue start_family check_binding ◌>>=◌
    binds_code code_by_hash code_by_id session_by_id find fill text_beq verify_s256 s256_challenge
    validate_pkce_verifier validate_pkce_challenge all insert_family insert_member family_by_id
    member_by_id member_by_hash consume_code update_where any rotate_refresh_bound lookup_token
    rotate_locked binds_family issue_successor consume_member logout logout_locked revoke_session
    revoke_families
other_rotate_runs = refl
