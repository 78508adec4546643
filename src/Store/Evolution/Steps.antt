-- ===== src/Store/Evolution/Steps.antt =====
-- Every update of the credential tables evolves them.
use eri.Common.{ℕ, Bool, refl, text_eq}
use eri.Common.Rows.{Persists-update}
use eri.Store.{
  SessionRow, CodeRow, FamilyRow, MemberRow, Db, consume_code_row, consume_code, revoke_family_row,
  revoke_families, consume_member_row, consume_member, revoke_session_row, revoke_session,
}
use eri.Store.Evolution.{
  SessionLater, SessionLater-refl, CodeLater, CodeLater-refl, FamilyLater, FamilyLater-refl,
  MemberLater, MemberLater-refl, session_has_id, session_has_hash, code_has_id, code_has_hash,
  family_has_id, member_has_id, member_has_hash, Evolves, Evolves-refl,
}

consume_code_row-Later : (now : ℕ) (r : CodeRow) → CodeLater r (consume_code_row now r)
consume_code_row-Later now r = record { same = refl; spent = λ e. refl }

consume_member_row-Later :
    (now successor : ℕ) (r : MemberRow) → MemberLater r (consume_member_row now successor r)
consume_member_row-Later now successor r = record { same = refl; spent = λ e. refl }

revoke_family_row-Later : (now : ℕ) (r : FamilyRow) → FamilyLater r (revoke_family_row now r)
revoke_family_row-Later now r = record { same = refl; kept = λ t e. rw e }

revoke_session_row-Later : (now : ℕ) (r : SessionRow) → SessionLater r (revoke_session_row now r)
revoke_session_row-Later now r = record { same = refl; kept = λ t e. rw e }

pub consume_code-Evolves : (id now : ℕ) (db : Db) → Evolves db (consume_code id now db)
unfolding consume_code
consume_code-Evolves id now db = record {
  over = λ id h. h;
  session_ids = (Evolves-refl db).session_ids;
  session_hashes = (Evolves-refl db).session_hashes;
  code_ids = λ k.
      Persists-update CodeLater (code_has_id k) (code_has_id id) (consume_code_row now) db.codes
        (λ r. refl) CodeLater-refl (consume_code_row-Later now);
  code_hashes = λ k.
      Persists-update CodeLater (code_has_hash k) (code_has_id id) (consume_code_row now) db.codes
        (λ r. refl) CodeLater-refl (consume_code_row-Later now);
  family_ids = (Evolves-refl db).family_ids;
  member_ids = (Evolves-refl db).member_ids;
  member_hashes = (Evolves-refl db).member_hashes;
}

pub consume_member-Evolves :
    (id now successor : ℕ) (db : Db) → Evolves db (consume_member id now successor db)
unfolding consume_member
consume_member-Evolves id now successor db = record {
  over = λ id h. h;
  session_ids = (Evolves-refl db).session_ids;
  session_hashes = (Evolves-refl db).session_hashes;
  code_ids = (Evolves-refl db).code_ids;
  code_hashes = (Evolves-refl db).code_hashes;
  family_ids = (Evolves-refl db).family_ids;
  member_ids = λ k.
      Persists-update MemberLater (member_has_id k) (member_has_id id)
        (consume_member_row now successor) db.members (λ r. refl) MemberLater-refl
        (consume_member_row-Later now successor);
  member_hashes = λ k.
      Persists-update MemberLater (member_has_hash k) (member_has_id id)
        (consume_member_row now successor) db.members (λ r. refl) MemberLater-refl
        (consume_member_row-Later now successor);
}

pub revoke_families-Evolves :
    (which : FamilyRow → Bool) (now : ℕ) (db : Db) → Evolves db (revoke_families which now db)
unfolding revoke_families
revoke_families-Evolves which now db = record {
  over = λ id h. h;
  session_ids = (Evolves-refl db).session_ids;
  session_hashes = (Evolves-refl db).session_hashes;
  code_ids = (Evolves-refl db).code_ids;
  code_hashes = (Evolves-refl db).code_hashes;
  family_ids = λ k.
      Persists-update FamilyLater (family_has_id k) (which) (revoke_family_row now) db.families
        (λ r. refl) FamilyLater-refl (revoke_family_row-Later now);
  member_ids = (Evolves-refl db).member_ids;
  member_hashes = (Evolves-refl db).member_hashes;
}

pub revoke_session-Evolves : (id now : ℕ) (db : Db) → Evolves db (revoke_session id now db)
unfolding revoke_session
revoke_session-Evolves id now db = record {
  over = λ id h. h;
  session_ids = λ k.
      Persists-update SessionLater (session_has_id k) (session_has_id id) (revoke_session_row now)
        db.sessions (λ r. refl) SessionLater-refl (revoke_session_row-Later now);
  session_hashes = λ k.
      Persists-update SessionLater (session_has_hash k) (session_has_id id) (revoke_session_row now)
        db.sessions (λ r. refl) SessionLater-refl (revoke_session_row-Later now);
  code_ids = (Evolves-refl db).code_ids;
  code_hashes = (Evolves-refl db).code_hashes;
  family_ids = (Evolves-refl db).family_ids;
  member_ids = (Evolves-refl db).member_ids;
  member_hashes = (Evolves-refl db).member_hashes;
}
