-- ===== src/Tests/Browsing.antt =====
-- browser.rs and logout.rs on concrete inputs.
use eri.Common.{
  true, bytes, false, none, some, [], ◌∷◌, ok, ◌≡◌, ◌≢◌, refl, any, all, find, update_where,
  text_beq, strip_prefix,
}
use eri.Common.SortedSet.{collect, contains, is_subset, insert, cmp}
use eri.Common.HashMap
use eri.Oauth.Pkce.{
  validate_pkce_challenge, validate_pkce_verifier, s256_challenge, verify_s256, valid_scope_token,
}
use eri.Oauth.Redirect.{redirect_matches, safe_redirect}
use eri.Oauth.Registry.{ensure_fresh, dynamic_for, validate_binding, match_binding}
use eri.Oauth.Policy.{
  PendingAuthorizationGrant, validate_pending, choose_resource, refuses_scopes, refuses_resource,
  approve, pre_authorizes,
}
use eri.Store.{
  Db, SessionRow, BrowserRow, awaiting_consent, ChallengeRow, seconds, session_by_id, insert_code,
  code_by_id, code_by_hash, revoke_session, revoke_families, insert_family, insert_member,
  family_by_id, member_by_id, member_by_hash, consume_code, consume_member,
}
use eri.Transaction.{◌>>=◌, settle}
use eri.Credentials.Types.{check_binding}
use eri.Credentials.Exchange.{
  binds_code, start_family, consume_and_issue, exchange_locked, exchange_code_bound,
}
use eri.Credentials.Refresh.{
  lookup_token, binds_family, issue_successor, rotate_locked, rotate_refresh_bound,
}
use eri.Browser.Types.{ConsentHandle, ConsentOutcome, revalidate}
use eri.Browser.Rows.{browser_where, update_browser}
use eri.Browser.Consent.{approve_consent, approve_pre_authorized, approve_allowed, write_code}
use eri.Browser.Consented.{IsConsented, IsUnasked, approve_checks, pre_approve_checks}
use eri.Browser.Once.{approve_once, pre_approve_once}
use eri.Logout.{LogoutChallenge, LogoutOutcome, finish_inner, close_session, consume_challenge}
use eri.Logout.Closed.{finish_ends_rotations}
use eri.Steps.{Reach, here, next, exchanges_code}
use eri.Tests.Demo.{lib, fill, registry, challenge, app, callback, api, openid}
use eri.Tests.Tokens.{
  start, first_call, second_call, third_call, second-IsFair, first_session, given, exchange_request,
  rotate_request, other_code, left, code_row,
}

abbrev waiting : BrowserRow
waiting = record {
  id = 21;
  stage = awaiting_consent;
  upstream_state_hash = none;
  browser_binding_hash = none;
  upstream_nonce = none;
  upstream_verifier = none;
  claim_hash = none;
  csrf_hash = some (lib.sha256 (bytes "csrf"));
  session_id = some 1;
  client_id = app;
  redirect_uri = callback;
  scopes = openid ∷ [];
  resource = api;
  code_challenge = challenge;
  downstream_state = none;
  oidc_nonce = none;
  cimd_binding = none;
  allow_pre_authorization = false;
  created_at = 0;
  expires_at = seconds 600;
}

abbrev asked : ChallengeRow
asked = record {
  id = 31;
  csrf_hash = lib.sha256 (bytes "csrf");
  session_id = 1;
  client_id = [];
  post_logout_redirect_uri = bytes "/";
  downstream_state = none;
  created_at = 0;
  expires_at = seconds 600;
  consumed_at = none;
}

-- A consent and a logout wait.
abbrev waits : Db
waits = record start { browser = waiting ∷ []; challenges = asked ∷ [] }

abbrev handle : ConsentHandle
handle = record { transaction_id = 21; csrf = bytes "csrf" }

abbrev outcome : ConsentOutcome
outcome = record { code = bytes "refresh_one"; redirect_uri = callback; downstream_state = none }

abbrev approved_db : Db
approved_db =
    left (settle waits (approve_consent lib first_call registry first_session handle waits))

approve_runs :
    settle waits (approve_consent lib first_call registry first_session handle waits)
    ≡ (ok outcome, approved_db)
unfolding approve_consent write_code revalidate validate_binding match_binding validate_pending
    ensure_fresh dynamic_for HashMap.get text_beq validate_pkce_challenge fill all any
    redirect_matches safe_redirect strip_prefix refuses_scopes collect valid_scope_token is_subset
    choose_resource refuses_resource cmp contains insert approve ◌>>=◌ session_by_id find
    browser_where update_browser update_where insert_code code_by_id code_by_hash
approve_runs = refl

approve_checks_example :
    (session_row : SessionRow) × (row : BrowserRow) × (pending : PendingAuthorizationGrant)
    × (current : PendingAuthorizationGrant) × IsConsented lib first_call registry first_session
        handle waits outcome approved_db session_row row pending current
approve_checks_example =
    approve_checks lib first_call registry first_session handle waits approved_db outcome
      approve_runs

approve_once_example :
    settle approved_db (approve_consent lib second_call registry first_session handle approved_db)
    ≢ (ok outcome, approved_db)
approve_once_example =
    approve_once lib first_call second_call registry registry first_session first_session handle
      handle waits approved_db approved_db outcome approve_runs here refl outcome approved_db

abbrev confirmation : LogoutChallenge
confirmation = record { id = 31; csrf = bytes "csrf"; redirect_uri = [] }

abbrev goodbye : LogoutOutcome
goodbye = record { redirect_uri = bytes "/"; state = none }

abbrev closed : Db
closed =
    left (settle waits (finish_inner lib third_call first_session confirmation registry none waits))

finish_runs :
    settle waits (finish_inner lib third_call first_session confirmation registry none waits)
    ≡ (ok (some goodbye), closed)
unfolding finish_inner ◌>>=◌ session_by_id find fill text_beq close_session consume_challenge
    revoke_session revoke_families update_where
finish_runs = refl

abbrev exchanged_after : Db
exchanged_after =
    left (exchange_code_bound lib first_call none (exchange_request other_code) closed)

exchange_after_runs :
    exchange_code_bound lib first_call none (exchange_request other_code) closed
    ≡ (ok (given 2 (bytes "refresh_one")), exchanged_after)
unfolding exchange_code_bound exchange_locked consume_and_issue start_family check_binding ◌>>=◌
    binds_code code_by_hash code_by_id session_by_id find fill text_beq verify_s256 s256_challenge
    validate_pkce_verifier validate_pkce_challenge all insert_family insert_member family_by_id
    member_by_id member_by_hash consume_code update_where any finish_inner close_session
    consume_challenge revoke_session revoke_families
exchange_after_runs = refl

exchange_after_steps : Reach lib closed exchanged_after
unfolding exchange_code_bound exchange_locked consume_and_issue start_family check_binding ◌>>=◌
    binds_code code_by_hash code_by_id session_by_id find fill text_beq verify_s256 s256_challenge
    validate_pkce_verifier validate_pkce_challenge all insert_family insert_member family_by_id
    member_by_id member_by_hash consume_code update_where any finish_inner close_session
    consume_challenge revoke_session revoke_families
exchange_after_steps =
    next here
      (exchanges_code first_call none (exchange_request other_code) (code_row 12 2 other_code) refl)

abbrev rotated_after : Db
rotated_after = left (
    rotate_refresh_bound lib second_call none (rotate_request (bytes "refresh_one"))
      exchanged_after)

rotate_after_runs :
    rotate_refresh_bound lib second_call none (rotate_request (bytes "refresh_one")) exchanged_after
    ≡ (ok (given 2 (bytes "refresh_two")), rotated_after)
unfolding exchange_code_bound exchange_locked consume_and_issue start_family check_binding ◌>>=◌
    binds_code code_by_hash code_by_id session_by_id find fill text_beq verify_s256 s256_challenge
    validate_pkce_verifier validate_pkce_challenge all insert_family insert_member family_by_id
    member_by_id member_by_hash consume_code update_where any finish_inner close_session
    consume_challenge revoke_session revoke_families rotate_refresh_bound lookup_token rotate_locked
    binds_family issue_successor consume_member
rotate_after_runs = refl

finish_ends_rotations_example : (given 2 (bytes "refresh_two")).session_id ≢ first_session.id
finish_ends_rotations_example =
    finish_ends_rotations lib third_call second_call first_session confirmation registry none waits
      closed exchanged_after goodbye finish_runs exchange_after_steps second-IsFair none
      (rotate_request (bytes "refresh_one")) (given 2 (bytes "refresh_two")) rotated_after
      rotate_after_runs

pre_approve_once_example :
    settle approved_db
      (approve_pre_authorized lib second_call registry first_session handle approved_db)
    ≢ (ok (some outcome), approved_db)
pre_approve_once_example =
    pre_approve_once lib first_call second_call registry registry first_session first_session handle
      handle waits approved_db approved_db outcome approve_runs here refl outcome approved_db

-- The same consent, whose request had recorded that it may be granted without asking.
abbrev allowing : Db
allowing = record waits { browser = record waiting { allow_pre_authorization = true } ∷ [] }

abbrev pre_approved_db : Db
pre_approved_db =
    left (
      settle allowing
        (approve_pre_authorized lib first_call registry first_session handle allowing))

pre_approve_runs :
    settle allowing (approve_pre_authorized lib first_call registry first_session handle allowing)
    ≡ (ok (some outcome), pre_approved_db)
unfolding approve_pre_authorized approve_allowed pre_authorizes write_code revalidate
    validate_binding match_binding validate_pending ensure_fresh dynamic_for HashMap.get text_beq
    validate_pkce_challenge fill all any redirect_matches safe_redirect strip_prefix refuses_scopes
    collect valid_scope_token is_subset choose_resource refuses_resource cmp contains insert approve
    ◌>>=◌ session_by_id find browser_where update_browser update_where insert_code code_by_id
    code_by_hash
pre_approve_runs = refl

pre_approve_checks_example :
    IsUnasked lib first_call registry first_session handle allowing outcome pre_approved_db
pre_approve_checks_example =
    pre_approve_checks lib first_call registry first_session handle allowing pre_approved_db outcome
      pre_approve_runs
