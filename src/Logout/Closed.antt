-- ===== src/Logout/Closed.antt =====
-- logout.rs: a logout that is confirmed closes its session for good.
use eri.Common.{ℕ, Option, some, ok, ◌≡◌, ◌≢◌, refl, arith, subst}
use eri.External.{Libs}
use eri.Oauth.Registry.{ClientRegistry}
use eri.Store.{Db, SessionRow, session_by_id, revoke_session, revoke_session_row, of_session}
use eri.Store.Evolution.Keys.{revoke_session-found}
use eri.Store.Evolution.Steps.{revoke_families-Evolves}
use eri.Transaction.{Ambient, settle}
use eri.Transaction.Ensures.{done-Ensures, settle-eq-ok}
use eri.Credentials.Types.{ProviderSession, ExchangeResult}
use eri.Credentials.Exchange.{ExchangeRequest, exchange_code_bound}
use eri.Credentials.Refresh.{RotateRequest, rotate_refresh_bound}
use eri.Credentials.Refresh.Rotation.{IsDeadSession, IsDeadSession-Evolves}
use eri.Credentials.Refresh.Replay.{coalesce_some}
use eri.Credentials.Refresh.Logout.{dead_exchanges, dead_rotations}
use eri.Logout.{
  LogoutChallenge, LogoutOutcome, IdClaims, consume_challenge, close_session, finish_inner,
}
use eri.Logout.Finish.{IsConfirmed, IsFinished, asks, confirms, finish_inner-Ensures}
use eri.Steps.{Reach, IsFair}
use eri.Steps.Interleaving.{Reach-Evolves}

consume_challenge-session :
    (id now k : ℕ) (db : Db) → session_by_id k (consume_challenge id now db) ≡ session_by_id k db
unfolding session_by_id consume_challenge
consume_challenge-session id now k db = refl

pub close_session-IsDeadSession :
    (challenge_id session_id now : ℕ) (db : Db) (row : SessionRow)
    → session_by_id session_id db ≡ some row
    → IsDeadSession session_id (close_session challenge_id session_id now db)
unfolding close_session
close_session-IsDeadSession challenge_id session_id now db row found =
    let c = consume_challenge challenge_id now db in
    let there : session_by_id session_id c ≡ some row =
      rw (consume_challenge-session challenge_id now session_id db) found in
    IsDeadSession-Evolves
      (revoke_families-Evolves (of_session session_id) now (revoke_session session_id now c))
      session_id
      (record {
        row = revoke_session_row now row;
        found = revoke_session-found session_id now c there;
        dead = coalesce_some row.revoked_at now;
      })

confirmed :
    {lib : Libs} {env : Ambient Db} {session : ProviderSession} {db : Db}
    {challenge : LogoutChallenge} {registry : ClientRegistry} {hint : Option IdClaims}
    {answer : Option LogoutOutcome} {outcome : LogoutOutcome} {after : Db}
    → answer ≡ some outcome
    → IsFinished lib env session db challenge registry hint answer after
    → IsConfirmed lib env session db challenge registry hint outcome after
confirmed same (asks none_given _) = cc
confirmed {lib} {env} {session} {db} {challenge} {registry} {hint} {after} same
      (confirms o given c) =
    subst (λ x. IsConfirmed lib env session db challenge registry hint x after) (cc (same, given)) c

-- What a logout that is confirmed has checked and done.
pub finish_inner-IsConfirmed :
    (lib : Libs) (env : Ambient Db) (session : ProviderSession) (challenge : LogoutChallenge)
    (registry : ClientRegistry) (hint : Option IdClaims) (db after : Db) (outcome : LogoutOutcome)
    → settle db (finish_inner lib env session challenge registry hint db)
      ≡ (ok (some outcome), after)
    → IsConfirmed lib env session db challenge registry hint outcome after
finish_inner-IsConfirmed lib env session challenge registry hint db after outcome h =
    confirmed refl (
      done-Ensures {R = λ _. Unit {0}}
        (finish_inner-Ensures lib env session db challenge registry hint)
        (settle-eq-ok db (finish_inner lib env session challenge registry hint db) h))

module _ (lib : Libs) (env env' : Ambient Db) (session : ProviderSession)
    (challenge : LogoutChallenge) (registry : ClientRegistry) (hint : Option IdClaims)
    (db after end : Db) (outcome : LogoutOutcome)
    (out : settle db (finish_inner lib env session challenge registry hint db)
      ≡ (ok (some outcome), after))
    (steps : Reach lib after end) where
  dead : IsDeadSession session.id end
  dead =
      let c =
        finish_inner-IsConfirmed lib env session challenge registry hint db after outcome out in
      IsDeadSession-Evolves (Reach-Evolves steps) session.id (
        rw c.closed (
          close_session-IsDeadSession challenge.id session.id (env.wall 0) db c.session_row
            c.session_found))

  -- After a confirmed logout and any steps, no exchange of a code succeeds for its session.
  pub finish_ends_exchanges :
      IsFair lib env'
      → (policy : Option ClientRegistry) (req : ExchangeRequest) (r : ExchangeResult) (last : Db)
      → exchange_code_bound lib env' policy req end ≡ (ok r, last)
      → r.session_id ≢ session.id
  finish_ends_exchanges fair policy req r last h =
      dead_exchanges lib env' fair policy session.id end dead r last req h

  -- After a confirmed logout and any steps, no rotation of a refresh token succeeds for its session.
  pub finish_ends_rotations :
      IsFair lib env'
      → (policy : Option ClientRegistry) (req : RotateRequest) (r : ExchangeResult) (last : Db)
      → rotate_refresh_bound lib env' policy req end ≡ (ok r, last)
      → r.session_id ≢ session.id
  finish_ends_rotations fair policy req r last h =
      dead_rotations lib env' fair policy session.id end dead r last req h

  -- After a confirmed logout and any steps, no further logout of that session is confirmed, whatever
  -- the challenge, the registry and the hint.
  pub finish_once :
      (challenge' : LogoutChallenge) (registry' : ClientRegistry) (hint' : Option IdClaims)
      (outcome' : LogoutOutcome) (last : Db)
      → settle end (finish_inner lib env' session challenge' registry' hint' end)
        ≢ (ok (some outcome'), last)
  finish_once challenge' registry' hint' outcome' last again =
      let c =
        finish_inner-IsConfirmed lib env' session challenge' registry' hint' end last outcome'
          again in
      ground (arith, dead.found, dead.dead, c.session_found, c.passed)
