-- ===== src/Logout/Finish.antt =====
-- logout.rs: what a logout that is confirmed has checked and done.
use eri.Common.{ℕ, Text, false, Option, none, some, is_some_and, find, ◌≡◌, refl, arith, List, ◌∷◌}
use eri.External.{Libs}
use eri.Oauth.Registry.{ClientRegistry}
use eri.Store.{Db, SessionRow, ChallengeRow, session_by_id, of_session}
use eri.Store.Evolution.{Evolves, Evolves-refl, Evolves-trans}
use eri.Store.Evolution.Steps.{revoke_session-Evolves, revoke_families-Evolves}
use eri.Store.Evolution.Rules.{Ensures-of_done}
use eri.Transaction.{done, commit_and_fail, ◌>>=◌, Ambient}
use eri.Transaction.Ensures.{
  Ensures, is_done, bind-Ensures, found_or-Ensures, abort_if-Ensures, if-Ensures,
}
use eri.Credentials.Types.{CredentialError, ProviderSession}
use eri.Logout.{
  LogoutChallenge, LogoutOutcome, IdClaims, insert_challenge, consume_challenge, is_challenge,
  refuses_finish, refuses_hint, doubts_hint, close_session, insert_logout, finish_inner,
}

-- A change of the challenges alone.
challenges-Evolves :
    (db : Db) (challenges : List ChallengeRow) → Evolves db (record db { challenges = challenges })
challenges-Evolves db challenges = record {
  over = λ id o. o;
  session_ids = (Evolves-refl db).session_ids;
  session_hashes = (Evolves-refl db).session_hashes;
  code_ids = (Evolves-refl db).code_ids;
  code_hashes = (Evolves-refl db).code_hashes;
  family_ids = (Evolves-refl db).family_ids;
  member_ids = (Evolves-refl db).member_ids;
  member_hashes = (Evolves-refl db).member_hashes;
}

insert_challenge-commits :
    (row : ChallengeRow) (db : Db) (e : CredentialError) (d : Db)
    → insert_challenge row db ≡ commit_and_fail e d
    → ⊥
unfolding insert_challenge ◌>>=◌
insert_challenge-commits row db e d h = ground arith

insert_challenge-Evolves :
    (row : ChallengeRow) (db after : Db) → insert_challenge row db ≡ done after → Evolves db after
unfolding insert_challenge ◌>>=◌
insert_challenge-Evolves row db after h =
    let same : record db { challenges = row ∷ db.challenges } ≡ after = ground arith in
    rw (← same) (challenges-Evolves db (row ∷ db.challenges))

consume_challenge-Evolves : (id now : ℕ) (db : Db) → Evolves db (consume_challenge id now db)
unfolding consume_challenge
consume_challenge-Evolves id now db = challenges-Evolves db _

-- The logout's writes evolve the tables.
close_session-Evolves :
    (challenge_id session_id now : ℕ) (db : Db)
    → Evolves db (close_session challenge_id session_id now db)
unfolding close_session
close_session-Evolves challenge_id session_id now db =
    Evolves-trans (consume_challenge-Evolves challenge_id now db) (
      Evolves-trans (revoke_session-Evolves session_id now (consume_challenge challenge_id now db))
        (revoke_families-Evolves (of_session session_id) now _))

module _ (lib : Libs) (env : Ambient Db) (session : ProviderSession) (db : Db) where
  pub insert_logout-Ensures :
      (client_id redirect : Text) (state : Option Text)
      → Ensures
          (λ (t : LogoutChallenge × Db). Evolves db t.1)
          (λ d. Evolves db d)
          (insert_logout lib env session client_id redirect state db)
  unfolding insert_logout
  insert_logout-Ensures client_id redirect state = found_or-Ensures _ _ _ λ session_row found.
      abort_if-Ensures _ _ _ λ active.
        bind-Ensures _ (Ensures-of_done (insert_challenge _ db) (insert_challenge-commits _ db))
          λ after inserted. is_done _ (insert_challenge-Evolves _ db after inserted)

  module _ (challenge : LogoutChallenge) (registry : ClientRegistry) (hint : Option IdClaims) where
    -- A logout that is confirmed.
    pub record IsConfirmed (outcome : LogoutOutcome) (after : Db) : Type 0 where
      pub session_row : SessionRow
      pub row : ChallengeRow
      pub session_found : session_by_id session.id db ≡ some session_row
      pub row_found :
          find (is_challenge challenge.id session.id (lib.sha256 challenge.csrf)) db.challenges
          ≡ some row
      pub passed : refuses_finish (env.wall 0) registry session_row row ≡ false
      pub hint_passed : is_some_and (λ h. refuses_hint (env.wall 0) row h) hint ≡ false
      pub hint_trusted :
          is_some_and (λ h. doubts_hint registry session session_row row h) hint ≡ false
      pub redirect : outcome.redirect_uri ≡ row.post_logout_redirect_uri
      pub state : outcome.state ≡ row.downstream_state
      pub closed : after ≡ close_session challenge.id session.id (env.wall 0) db

    -- The logout is confirmed, or nothing has changed and the user is asked.
    pub data IsFinished (answer : Option LogoutOutcome) (after : Db) : Type 0 where
      asks : answer ≡ none → after ≡ db → IsFinished answer after
      confirms :
          (outcome : LogoutOutcome)
          → answer ≡ some outcome
          → IsConfirmed outcome after
          → IsFinished answer after

    pub finish_inner-Ensures :
        {R : Db → Type 0}
        → Ensures
            (λ (t : Option LogoutOutcome × Db). IsFinished t.0 t.1)
            R
            (finish_inner lib env session challenge registry hint db)
    unfolding finish_inner
    finish_inner-Ensures = found_or-Ensures _ _ _ λ session_row session_found.
        found_or-Ensures _ _ _ λ row row_found. abort_if-Ensures _ _ _ λ passed.
          abort_if-Ensures _ _ _ λ hint_passed.
            if-Ensures (is_some_and (λ h. doubts_hint registry session session_row row h) hint) _ _
              (λ doubted. is_done _ (asks refl refl))
              (λ trusted. is_done _ (
                confirms _ refl (record {
                  session_row = session_row;
                  row = row;
                  session_found = session_found;
                  row_found = row_found;
                  passed = passed;
                  hint_passed = hint_passed;
                  hint_trusted = trusted;
                  redirect = refl;
                  state = refl;
                  closed = refl;
                })))

    pub IsFinished-Evolves :
        (answer : Option LogoutOutcome) (after : Db) → IsFinished answer after → Evolves db after
    IsFinished-Evolves answer after (asks _ same) = rw same (Evolves-refl db)
    IsFinished-Evolves answer after (confirms _ _ c) =
        rw c.closed (close_session-Evolves challenge.id session.id (env.wall 0) db)
