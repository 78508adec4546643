-- ===== src/Logout.antt =====
-- logout.rs: the challenges that confirm a logout, and what finishing one does.
pub mod Finish
pub mod Closed
pub mod Confirmed
use eri.Common.{
  ℕ, ◌+◌, ◌/◌, Text, bytes, Bool, true, false, not, ◌&&◌, ◌||◌, Option, none, some, List, [], ◌∷◌,
  find, update_where, is_empty, is_some, is_some_and, nat_beq, ltb, leb, option_beq, ◌==◌, text_eq,
  nat_eq, Result, ok, err, if◌then◌else◌,
}
use eri.External.{Libs}
use eri.Oauth.Registry.{ClientRegistry, valid_post_logout_redirect, allows_id_token_logout}
use eri.Store.{
  Db, SessionRow, ChallengeRow, seconds, elapsed, session_by_id, revoke_session, revoke_families,
  of_session,
}
use eri.Transaction.{
  Outcome, done, abort, commit_and_fail, ◌>>=◌, ◌>>◌, abort_if, found_or, settle, Ambient,
}
use eri.Credentials.Types.{CredentialError, invalid_grant, database, ProviderSession, Tx}
use eri.Credentials.Issue.{is_active}

pub record LogoutChallenge : Type 0 where
  pub id : ℕ
  pub csrf : Text
  pub redirect_uri : Text

pub record LogoutOutcome : Type 0 where
  pub redirect_uri : Text
  pub state : Option Text

-- What the logout reads of `IdClaims`. The times are seconds, of tokens that this server signed.
pub record IdClaims : Type 0 where
  pub aud : Text
  pub sub : ℕ
  pub sid : Option ℕ
  pub iat : ℕ
  pub exp : ℕ

-- `CLOCK_SKEW_SECONDS` of keys.rs
abbrev pub clock_skew_seconds : ℕ
clock_skew_seconds = 30

-- `DateTime::timestamp`
abbrev pub timestamp : ℕ → ℕ
timestamp t = t / 1_000_000

unfoldable pub challenge_by_id : ℕ → Db → Option ChallengeRow
challenge_by_id id db = find (λ (r : ChallengeRow). nat_beq r.id id) db.challenges

unfoldable pub insert_challenge : ChallengeRow → Db → Tx Db
insert_challenge row db =
    abort_if (is_some (challenge_by_id row.id db)) database
    >> done (record db { challenges = row ∷ db.challenges })

abbrev pub consume_challenge_row : ℕ → ChallengeRow → ChallengeRow
consume_challenge_row now r = record r { consumed_at = some now }

unfoldable pub consume_challenge : ℕ → ℕ → Db → Db
consume_challenge id now db = record db {
  challenges =
      update_where (λ (r : ChallengeRow). nat_beq r.id id) (consume_challenge_row now)
        db.challenges;
}

-- The tests on the claims, whose failure is an error.
abbrev pub refuses_hint : ℕ → ChallengeRow → IdClaims → Bool
refuses_hint now row hint =
    not (hint.aud == row.client_id)
    || leb hint.exp hint.iat
    || ltb (timestamp now + clock_skew_seconds) hint.iat

-- The tests on the claims, whose failure asks for the user's confirmation.
unfoldable pub doubts_hint :
    ClientRegistry → ProviderSession → SessionRow → ChallengeRow → IdClaims → Bool
doubts_hint registry session session_row row hint =
    not (allows_id_token_logout registry row.client_id)
    || not (hint.sub == session_row.user_id)
    || not (is_some_and (λ sid. nat_beq sid session.id) hint.sid)
    || ltb (hint.iat + clock_skew_seconds) (timestamp session_row.auth_time)

-- `SELECT … WHERE id=$1 AND session_id=$2 AND csrf_hash=$3`
abbrev pub is_challenge : ℕ → ℕ → Text → ChallengeRow → Bool
is_challenge id session_id csrf_hash r =
    nat_beq r.id id && nat_beq r.session_id session_id && r.csrf_hash == csrf_hash

-- The tests on the session and the challenge.
abbrev pub refuses_finish : ℕ → ClientRegistry → SessionRow → ChallengeRow → Bool
refuses_finish now registry session_row row =
    is_some session_row.revoked_at
    || elapsed session_row.expires_at now
    || is_some row.consumed_at
    || elapsed row.expires_at now
    || (not (is_empty row.client_id)
        && not (valid_post_logout_redirect registry row.client_id row.post_logout_redirect_uri))

-- The three updates of a logout that is confirmed, at one time.
unfoldable pub close_session : ℕ → ℕ → ℕ → Db → Db
close_session challenge_id session_id now db =
    revoke_families (of_session session_id) now
      (revoke_session session_id now (consume_challenge challenge_id now db))

-- `.await?.ok_or(CredentialError::InvalidGrant)`
abbrev pub require_outcome :
    Result CredentialError (Option LogoutOutcome) × Db → Result CredentialError LogoutOutcome × Db
require_outcome (ok (some outcome), after) = (ok outcome, after)
require_outcome (ok none, after) = (err invalid_grant, after)
require_outcome (err e, after) = (err e, after)

module _ (lib : Libs) where
  -- `LogoutStore::insert`
  unfoldable pub insert_logout :
      Ambient Db → ProviderSession → Text → Text → Option Text → Db → Tx (LogoutChallenge × Db)
  insert_logout env session client_id redirect state db = do
    session_row ← found_or (session_by_id session.id db) invalid_grant
    abort_if (not (is_active lib (env.wall 0) session_row)) invalid_grant
    after ←
        insert_challenge
          (record {
            id = env.uuid 0;
            csrf_hash = lib.sha256 (env.secret 0);
            session_id = session.id;
            client_id = client_id;
            post_logout_redirect_uri = redirect;
            downstream_state = state;
            created_at = env.wall 1;
            expires_at = env.wall 1 + seconds 600;
            consumed_at = none;
          })
          db
    done (record { id = env.uuid 0; csrf = env.secret 0; redirect_uri = redirect }, after)

  unfoldable pub begin_logout :
      Ambient Db
      → ProviderSession
      → Text
      → Text
      → Option Text
      → ClientRegistry
      → Db
      → Tx (LogoutChallenge × Db)
  begin_logout env session client_id redirect state registry db = do
    abort_if (not (valid_post_logout_redirect registry client_id redirect)) invalid_grant
    insert_logout env session client_id redirect state db

  -- `begin_local`, for a logout at the server itself
  abbrev pub begin_local : Ambient Db → ProviderSession → Text → Db → Tx (LogoutChallenge × Db)
  begin_local env session local_uri db = insert_logout env session [] local_uri none db

  abbrev logout_outcome : ChallengeRow → LogoutOutcome
  logout_outcome row = record {
    redirect_uri = row.post_logout_redirect_uri;
    state = row.downstream_state;
  }

  unfoldable pub finish_inner :
      Ambient Db
      → ProviderSession
      → LogoutChallenge
      → ClientRegistry
      → Option IdClaims
      → Db
      → Tx (Option LogoutOutcome × Db)
  finish_inner env session challenge registry hint db = do
    session_row ← found_or (session_by_id session.id db) invalid_grant
    row ←
        found_or
          (find (is_challenge challenge.id session.id (lib.sha256 challenge.csrf)) db.challenges)
          invalid_grant
    abort_if (refuses_finish (env.wall 0) registry session_row row) invalid_grant
    abort_if (is_some_and (λ h. refuses_hint (env.wall 0) row h) hint) invalid_grant
    if is_some_and (λ h. doubts_hint registry session session_row row h) hint
        then done (none, db)
        else done (some (logout_outcome row), close_session challenge.id session.id (env.wall 0) db)

  unfoldable pub finish_logout :
      Ambient Db
      → ProviderSession
      → LogoutChallenge
      → ClientRegistry
      → Db
      → Result CredentialError LogoutOutcome × Db
  finish_logout env session challenge registry db = require_outcome (
      settle (env.others 0 db) (finish_inner env session challenge registry none (env.others 0 db)))
