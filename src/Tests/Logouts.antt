-- ===== src/Tests/Logouts.antt =====
-- A logout with a hint, of a session that has refresh tokens.
use eri.Common.{
  Text, bytes, none, some, [], ◌∷◌, ok, err, ◌≡◌, refl, any, all, find, update_where, text_beq,
}
use eri.Common.HashMap
use eri.Oauth.Types.{LogoutFlow}
use eri.Oauth.Client.{FirstPartyClient}
use eri.Oauth.Registry.{ClientRegistry, valid_post_logout_redirect, allows_id_token_logout}
use eri.Oauth.Pkce.{validate_pkce_challenge, validate_pkce_verifier, s256_challenge, verify_s256}
use eri.Store.{
  Db, ChallengeRow, seconds, session_by_id, code_by_id, code_by_hash, family_by_id, member_by_id,
  member_by_hash, insert_family, insert_member, consume_code, revoke_families, revoke_session,
}
use eri.Transaction.{◌>>=◌, settle}
use eri.Credentials.Types.{check_binding, invalid_grant}
use eri.Credentials.Exchange.{
  binds_code, start_family, consume_and_issue, exchange_locked, exchange_code_bound,
}
use eri.Logout.{
  LogoutChallenge, LogoutOutcome, IdClaims, doubts_hint, finish_inner, close_session,
  consume_challenge,
}
use eri.Logout.Confirmed.{IsLoggedOut, finish_checks}
use eri.Tests.Demo.{lib, fill, client, app}
use eri.Tests.Tokens.{third_call, first_session, exchanged, left}

abbrev goodbye_uri : Text
goodbye_uri = bytes "https://app.example/bye"

abbrev leaving : FirstPartyClient
leaving = record client {
  post_logout_redirects = goodbye_uri ∷ [];
  logout_flow = LogoutFlow.id_token_hint;
}

abbrev registry : ClientRegistry
registry = record { clients = (app, leaving) ∷ []; userinfo_resource = none; dynamic = none }

abbrev asked : ChallengeRow
asked = record {
  id = 31;
  csrf_hash = lib.sha256 (bytes "csrf");
  session_id = 1;
  client_id = app;
  post_logout_redirect_uri = goodbye_uri;
  downstream_state = some (bytes "s");
  created_at = 0;
  expires_at = seconds 600;
  consumed_at = none;
}

abbrev waits : Db
waits = record exchanged { challenges = asked ∷ [] }

abbrev hint : IdClaims
hint = record { aud = app; sub = 7; sid = some 1; iat = 10; exp = 300 }

abbrev confirmation : LogoutChallenge
confirmation = record { id = 31; csrf = bytes "csrf"; redirect_uri = goodbye_uri }

abbrev goodbye : LogoutOutcome
goodbye = record { redirect_uri = goodbye_uri; state = some (bytes "s") }

abbrev closed : Db
closed = left (
    settle waits
      (finish_inner lib third_call first_session confirmation registry (some hint) waits))

program : Unit {0}
unfolding finish_inner doubts_hint allows_id_token_logout valid_post_logout_redirect HashMap.get
    close_session consume_challenge revoke_session exchange_code_bound exchange_locked
    consume_and_issue start_family check_binding ◌>>=◌ binds_code code_by_hash code_by_id
    session_by_id find fill text_beq verify_s256 s256_challenge validate_pkce_verifier
    validate_pkce_challenge all insert_family insert_member family_by_id member_by_id member_by_hash
    consume_code update_where any revoke_families
program = tt

confirms :
    settle waits (finish_inner lib third_call first_session confirmation registry (some hint) waits)
    ≡ (ok (some goodbye), closed)
unfolding program
confirms = refl

finish_checks_example :
    IsLoggedOut lib third_call first_session confirmation registry (some hint) waits closed goodbye
finish_checks_example =
    finish_checks lib third_call first_session confirmation registry (some hint) waits closed
      goodbye confirms

-- The same challenge a second time, and a hint of another user.
repeated :
    settle closed
      (finish_inner lib third_call first_session confirmation registry (some hint) closed)
    ≡ (err invalid_grant, closed)
unfolding program
repeated = refl

doubted :
    settle waits (
      finish_inner lib third_call first_session confirmation registry
        (some (record hint { sub = 8 }))
        waits)
    ≡ (ok none, waits)
unfolding program
doubted = refl
