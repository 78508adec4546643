-- ===== src/Credentials/Exchange/Success.antt =====
-- credentials.rs: what an exchange has checked, and what it has written, however it ends.
use eri.Common.{
  ◌<◌, Text, true, false, not, ◌||◌, Option, none, some, is_some, ok, ◌≡◌, refl, arith, ◌==◌,
  text_eq, nat_eq,
}
use eri.External.{Libs}
use eri.Oauth.Registry.{ClientRegistry}
use eri.Store.{
  Db, SessionRow, CodeRow, session_by_id, code_by_id, insert_family, insert_member, consume_code,
  revoke_families, of_code,
}
use eri.Store.Evolution.{Evolves, Evolves-refl, Evolves-trans}
use eri.Store.Evolution.Steps.{consume_code-Evolves, revoke_families-Evolves}
use eri.Store.Evolution.Insertions.{insert_family-Evolves, insert_member-Evolves}
use eri.Store.Evolution.Rules.{insert_family-Ensures, insert_member-Ensures}
use eri.Transaction.{done, Ambient}
use eri.Transaction.Ensures.{
  Ensures, is_done, is_commit, bind-Ensures, attempt-Ensures, found_or-Ensures, abort_if-Ensures,
  if-Ensures,
}
use eri.Credentials.Types.{
  database, invalid_grant, ExchangeResult, check_binding, check_optional_policy,
}
use eri.Credentials.Exchange.{
  ExchangeRequest, binds_code, member_row, family_row, start_family, replay_code, consume_and_issue,
  exchange_locked,
}

module _ (lib : Libs) (env : Ambient Db) (code : CodeRow) (session : SessionRow) (db : Db) where
  -- A grant without refresh tokens, or a family and its first member.
  pub data IsStarted (token : Option Text) (after : Db) : Type 0 where
    no_family : code.issue_refresh_token ≡ false → token ≡ none → after ≡ db → IsStarted token after
    one_family :
        (with_family : Db)
        → code.issue_refresh_token ≡ true
        → insert_family database (family_row lib (env.uuid 0) code session (env.wall 0)) db
          ≡ done with_family
        → insert_member database
            (member_row lib (env.uuid 1) (env.secret 0) (env.uuid 0) (env.wall 0))
            with_family
          ≡ done after
        → token ≡ some (env.secret 0)
        → IsStarted token after

  pub start_family-Ensures :
      {R : Db → Type 0} → Ensures (λ t. IsStarted t.0 t.1) R (start_family lib env code session db)
  unfolding start_family
  start_family-Ensures =
      if-Ensures (not code.issue_refresh_token) _ _
        (λ e. is_done _ (no_family (ground arith) refl refl))
        (λ e.
          bind-Ensures _
            (insert_family-Ensures database (family_row lib (env.uuid 0) code session (env.wall 0))
              db)
            λ with_family grown.
              bind-Ensures _
                (insert_member-Ensures database
                  (member_row lib (env.uuid 1) (env.secret 0) (env.uuid 0) (env.wall 0))
                  with_family)
                λ after grown_again.
                  is_done _ (one_family with_family (ground arith) grown grown_again refl))

  pub IsStarted-Evolves :
      (token : Option Text) (after : Db) → IsStarted token after → Evolves db after
  IsStarted-Evolves token after (no_family _ _ same) = rw same (Evolves-refl db)
  IsStarted-Evolves token after (one_family with_family _ family member _) =
      Evolves-trans (insert_family-Evolves database _ db with_family family)
        (insert_member-Evolves database _ with_family after member)

module _ (lib : Libs) (env : Ambient Db) (registry : Option ClientRegistry) (req : ExchangeRequest)
    (first : CodeRow) (db : Db) where
  -- A successful exchange: `db` is the state under the lock of the session.
  pub record IsExchanged (r : ExchangeResult) (after : Db) : Type 0 where
    pub code : CodeRow
    pub session : SessionRow
    pub code_found : code_by_id first.id db ≡ some code
    pub session_found : session_by_id first.session_id db ≡ some session
    pub same_session : code.session_id ≡ first.session_id
    pub bound : binds_code lib req code ≡ true
    pub unused : code.consumed_at ≡ none
    pub code_lives : env.wall 0 < code.expires_at
    pub session_lives : env.wall 0 < session.expires_at
    pub unrevoked : session.revoked_at ≡ none
    pub result_session : r.session_id ≡ code.session_id
    pub result_user : r.user_id ≡ session.user_id
    pub result_client : r.client_id ≡ code.client_id
    pub result_scopes : r.scopes ≡ code.scopes
    pub result_resource : r.resource ≡ code.resource
    pub result_nonce : r.oidc_nonce ≡ code.oidc_nonce
    pub binding : check_binding lib registry (env.instant 0) req.client_id code.cimd_binding ≡ ok tt
    pub policy :
        check_optional_policy lib registry
          (env.instant 1)
          req.client_id
          req.redirect_uri
          code.code_challenge
          code.scopes
          req.resource
        ≡ ok tt
    pub started :
        IsStarted lib env code session (consume_code code.id (env.wall 0) db) r.refresh_token after

  -- A committed failure: the code had been used, and the families that came of it are revoked.
  pub record IsReplayed (after : Db) : Type 0 where
    pub code : CodeRow
    pub code_found : code_by_id first.id db ≡ some code
    pub bound : binds_code lib req code ≡ true
    pub used : is_some code.consumed_at ≡ true
    pub revoked : after ≡ revoke_families (of_code code.id) (env.wall 0) db

  module _ (session : SessionRow) (code : CodeRow) (code_found : code_by_id first.id db ≡ some code)
      (session_found : session_by_id first.session_id db ≡ some session)
      (same_session : code.session_id ≡ first.session_id)
      (bound : binds_code lib req code ≡ true) where
    replay-Ensures :
        is_some code.consumed_at ≡ true
        → Ensures
            (λ (t : ExchangeResult × Db). IsExchanged t.0 t.1)
            IsReplayed
            (replay_code lib env registry req code db)
    unfolding replay_code
    replay-Ensures used = attempt-Ensures _ _ λ _ checked. is_commit invalid_grant _ (record {
      code = code;
      code_found = code_found;
      bound = bound;
      used = used;
      revoked = refl;
    })

    consume-Ensures :
        code.consumed_at ≡ none
        → check_binding lib registry (env.instant 0) req.client_id code.cimd_binding ≡ ok tt
        → check_optional_policy lib registry
            (env.instant 1)
            req.client_id
            req.redirect_uri
            code.code_challenge
            code.scopes
            req.resource
          ≡ ok tt
        → Ensures
            (λ (t : ExchangeResult × Db). IsExchanged t.0 t.1)
            IsReplayed
            (consume_and_issue lib env registry req code session db)
    unfolding consume_and_issue
    consume-Ensures unused binding policy = abort_if-Ensures _ invalid_grant _ λ lives.
        bind-Ensures _
          (start_family-Ensures lib env code session (consume_code code.id (env.wall 0) db))
          λ t grown. attempt-Ensures _ _ λ _ checked. is_done _ (record {
            code = code;
            session = session;
            code_found = code_found;
            session_found = session_found;
            same_session = same_session;
            bound = bound;
            unused = unused;
            code_lives = ground arith;
            session_lives = ground arith;
            unrevoked = ground arith;
            result_session = refl;
            result_user = refl;
            result_client = refl;
            result_scopes = refl;
            result_resource = refl;
            result_nonce = refl;
            binding = binding;
            policy = policy;
            started = grown;
          })

  same_session_of :
      (code : CodeRow)
      → (not (code.session_id == first.session_id) || not (binds_code lib req code)) ≡ false
      → (code.session_id ≡ first.session_id) × (binds_code lib req code ≡ true)
  same_session_of code kept = ground arith

  pub exchange_locked-Ensures :
      Ensures
        (λ (t : ExchangeResult × Db). IsExchanged t.0 t.1)
        IsReplayed
        (exchange_locked lib env registry req first db)
  unfolding exchange_locked
  exchange_locked-Ensures = found_or-Ensures _ _ _ λ session session_found.
      found_or-Ensures _ _ _ λ code code_found. abort_if-Ensures _ _ _ λ kept.
        attempt-Ensures _ _ λ _ first_check. attempt-Ensures _ _ λ _ policy.
          attempt-Ensures _ _ λ _ second_check.
            let same = same_session_of code kept in
            if-Ensures (is_some code.consumed_at) _ _
              (λ used. replay-Ensures session code code_found session_found same.0 same.1 used)
              (λ unused.
                consume-Ensures session code code_found session_found same.0 same.1 (ground arith)
                  first_check policy)

  pub IsExchanged-Evolves :
      (r : ExchangeResult) (after : Db) → IsExchanged r after → Evolves db after
  IsExchanged-Evolves r after e = Evolves-trans (consume_code-Evolves e.code.id (env.wall 0) db) (
      IsStarted-Evolves lib env e.code e.session (consume_code e.code.id (env.wall 0) db)
        r.refresh_token after e.started)

  pub IsReplayed-Evolves : (after : Db) → IsReplayed after → Evolves db after
  IsReplayed-Evolves after e =
      rw e.revoked (revoke_families-Evolves (of_code e.code.id) (env.wall 0) db)
