-- ===== src/Credentials/Refresh/Success.antt =====
-- credentials.rs: what a rotation has checked, and what it has written, however it ends.
use eri.Common.{◌<◌, true, false, Option, none, some, is_some, ok, ◌≡◌, refl, arith}
use eri.External.{Libs}
use eri.Oauth.Registry.{ClientRegistry}
use eri.Store.{
  Db, SessionRow, FamilyRow, MemberRow, session_by_id, family_by_id, member_by_id, insert_member,
  consume_member, revoke_families, is_family,
}
use eri.Store.Evolution.{Evolves, Evolves-trans}
use eri.Store.Evolution.Steps.{consume_member-Evolves, revoke_families-Evolves}
use eri.Store.Evolution.Insertions.{insert_member-Evolves}
use eri.Store.Evolution.Rules.{insert_member-Ensures}
use eri.Transaction.{done, Ambient}
use eri.Transaction.Ensures.{
  Ensures, is_done, is_commit, bind-Ensures, attempt-Ensures, found_or-Ensures, abort_if-Ensures,
  if-Ensures,
}
use eri.Credentials.Types.{database, invalid_grant, ExchangeResult, check_binding}
use eri.Credentials.Exchange.{member_row}
use eri.Credentials.Refresh.{
  RotateRequest, TokenLookup, binds_family, refuses_refresh, replay_token, issue_successor,
  rotate_locked,
}

module _ (lib : Libs) (env : Ambient Db) (registry : Option ClientRegistry) (req : RotateRequest)
    (lookup : TokenLookup) (db : Db) where
  -- A successful rotation: `db` is the state under the lock of the session.
  pub record IsRotated (r : ExchangeResult) (after : Db) : Type 0 where
    pub session : SessionRow
    pub family : FamilyRow
    pub member : MemberRow
    pub session_found : session_by_id lookup.session_id db ≡ some session
    pub family_found : family_by_id lookup.family_id db ≡ some family
    pub member_found : member_by_id lookup.id db ≡ some member
    pub bound : binds_family lib req family ≡ true
    pub permitted : refuses_refresh lib registry req.client_id family ≡ false
    pub binding :
        check_binding lib registry (env.instant 0) req.client_id family.cimd_binding ≡ ok tt
    pub unused : member.consumed_at ≡ none
    pub family_unrevoked : family.revoked_at ≡ none
    pub session_unrevoked : session.revoked_at ≡ none
    pub family_lives : env.wall 0 < family.expires_at
    pub session_lives : env.wall 0 < session.expires_at
    pub result_token : r.refresh_token ≡ some (env.secret 0)
    pub result_session : r.session_id ≡ lookup.session_id
    pub result_user : r.user_id ≡ session.user_id
    pub result_client : r.client_id ≡ family.client_id
    pub result_scopes : r.scopes ≡ family.scopes
    pub result_resource : r.resource ≡ family.resource
    pub with_successor : Db
    pub inserted :
        insert_member database
          (member_row lib (env.uuid 0) (env.secret 0) lookup.family_id (env.wall 0))
          db
        ≡ done with_successor
    pub consumed : after ≡ consume_member lookup.id (env.wall 0) (env.uuid 0) with_successor

  -- A committed failure: the token had been used, and its family is revoked.
  pub record IsReplayed (after : Db) : Type 0 where
    pub family : FamilyRow
    pub member : MemberRow
    pub family_found : family_by_id lookup.family_id db ≡ some family
    pub member_found : member_by_id lookup.id db ≡ some member
    pub bound : binds_family lib req family ≡ true
    pub used : is_some member.consumed_at ≡ true
    pub revoked : after ≡ revoke_families (is_family lookup.family_id) (env.wall 0) db

  module _ (session : SessionRow) (family : FamilyRow) (member : MemberRow)
      (session_found : session_by_id lookup.session_id db ≡ some session)
      (family_found : family_by_id lookup.family_id db ≡ some family)
      (member_found : member_by_id lookup.id db ≡ some member)
      (bound : binds_family lib req family ≡ true) where
    replay-Ensures :
        is_some member.consumed_at ≡ true
        → Ensures
            (λ (t : ExchangeResult × Db). IsRotated t.0 t.1)
            IsReplayed
            (replay_token lib env registry req lookup family db)
    unfolding replay_token
    replay-Ensures used = attempt-Ensures _ _ λ _ checked. is_commit invalid_grant _ (record {
      family = family;
      member = member;
      family_found = family_found;
      member_found = member_found;
      bound = bound;
      used = used;
      revoked = refl;
    })

    issue-Ensures :
        member.consumed_at ≡ none
        → refuses_refresh lib registry req.client_id family ≡ false
        → check_binding lib registry (env.instant 0) req.client_id family.cimd_binding ≡ ok tt
        → Ensures
            (λ (t : ExchangeResult × Db). IsRotated t.0 t.1)
            IsReplayed
            (issue_successor lib env registry req lookup session family db)
    unfolding issue_successor
    issue-Ensures unused permitted binding = abort_if-Ensures _ invalid_grant _ λ lives.
        bind-Ensures _
          (insert_member-Ensures database
            (member_row lib (env.uuid 0) (env.secret 0) lookup.family_id (env.wall 0)) db)
          λ with_successor inserted. attempt-Ensures _ _ λ _ checked. is_done _ (record {
            session = session;
            family = family;
            member = member;
            session_found = session_found;
            family_found = family_found;
            member_found = member_found;
            bound = bound;
            permitted = permitted;
            binding = binding;
            unused = unused;
            family_unrevoked = ground arith;
            session_unrevoked = ground arith;
            family_lives = ground arith;
            session_lives = ground arith;
            result_token = refl;
            result_session = refl;
            result_user = refl;
            result_client = refl;
            result_scopes = refl;
            result_resource = refl;
            with_successor = with_successor;
            inserted = inserted;
            consumed = refl;
          })

  pub rotate_locked-Ensures :
      Ensures
        (λ (t : ExchangeResult × Db). IsRotated t.0 t.1)
        IsReplayed
        (rotate_locked lib env registry req lookup db)
  unfolding rotate_locked
  rotate_locked-Ensures = found_or-Ensures _ _ _ λ session session_found.
      found_or-Ensures _ _ _ λ family family_found. found_or-Ensures _ _ _ λ member member_found.
        abort_if-Ensures _ _ _ λ kept. attempt-Ensures _ _ λ _ first_check.
          abort_if-Ensures _ _ _ λ permitted. attempt-Ensures _ _ λ _ second_check.
            if-Ensures (is_some member.consumed_at) _ _
              (λ used.
                replay-Ensures session family member session_found family_found member_found
                  (ground arith) used)
              (λ unused.
                issue-Ensures session family member session_found family_found member_found
                  (ground arith) (ground arith) permitted first_check)

  pub IsRotated-Evolves : (r : ExchangeResult) (after : Db) → IsRotated r after → Evolves db after
  IsRotated-Evolves r after e =
      Evolves-trans (insert_member-Evolves database _ db e.with_successor e.inserted) (
        rw e.consumed (consume_member-Evolves lookup.id (env.wall 0) (env.uuid 0) e.with_successor))

  pub IsReplayed-Evolves : (after : Db) → IsReplayed after → Evolves db after
  IsReplayed-Evolves after e =
      rw e.revoked (revoke_families-Evolves (is_family lookup.family_id) (env.wall 0) db)
