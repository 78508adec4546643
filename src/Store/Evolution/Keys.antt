-- ===== src/Store/Evolution/Keys.antt =====
-- What a query by a key finds later, and what the key says of the row.
use eri.Common.{ℕ, Text, Bool, true, some, find-In, nat_beq_iff, ◌≡◌, refl, arith}
use eri.Common.Rows.{find-update}
use eri.Store.{
  SessionRow, CodeRow, FamilyRow, MemberRow, Db, session_by_id, code_by_id, code_by_hash,
  family_by_id, member_by_id, member_by_hash, consume_code, consume_code_row, consume_member,
  consume_member_row, revoke_families, revoke_family_row, revoke_session, revoke_session_row,
}
use eri.Store.Evolution.{
  Evolves, SessionLater, CodeLater, FamilyLater, MemberLater, session_has_id, code_has_id,
  family_has_id, member_has_id,
}

module _ {a b : Db} (e : Evolves a b) where
  pub session_later :
      (id : ℕ) {r : SessionRow}
      → session_by_id id a ≡ some r
      → (s : SessionRow) × (session_by_id id b ≡ some s) × SessionLater r s
  unfolding session_by_id
  session_later id {r} h = e.session_ids id r h

  pub code_later :
      (id : ℕ) {r : CodeRow}
      → code_by_id id a ≡ some r
      → (s : CodeRow) × (code_by_id id b ≡ some s) × CodeLater r s
  unfolding code_by_id
  code_later id {r} h = e.code_ids id r h

  pub code_hash_later :
      (k : Text) {r : CodeRow}
      → code_by_hash k a ≡ some r
      → (s : CodeRow) × (code_by_hash k b ≡ some s) × CodeLater r s
  unfolding code_by_hash
  code_hash_later k {r} h = e.code_hashes k r h

  pub family_later :
      (id : ℕ) {r : FamilyRow}
      → family_by_id id a ≡ some r
      → (s : FamilyRow) × (family_by_id id b ≡ some s) × FamilyLater r s
  unfolding family_by_id
  family_later id {r} h = e.family_ids id r h

  pub member_later :
      (id : ℕ) {r : MemberRow}
      → member_by_id id a ≡ some r
      → (s : MemberRow) × (member_by_id id b ≡ some s) × MemberLater r s
  unfolding member_by_id
  member_later id {r} h = e.member_ids id r h

  pub member_hash_later :
      (k : Text) {r : MemberRow}
      → member_by_hash k a ≡ some r
      → (s : MemberRow) × (member_by_hash k b ≡ some s) × MemberLater r s
  unfolding member_by_hash
  member_hash_later k {r} h = e.member_hashes k r h

pub code_by_id-key : (id : ℕ) (db : Db) {r : CodeRow} → code_by_id id db ≡ some r → r.id ≡ id
unfolding code_by_id
code_by_id-key id db {r} h = (nat_beq_iff r.id id).0 (find-In (code_has_id id) db.codes h).1

pub family_by_id-key : (id : ℕ) (db : Db) {r : FamilyRow} → family_by_id id db ≡ some r → r.id ≡ id
unfolding family_by_id
family_by_id-key id db {r} h = (nat_beq_iff r.id id).0 (find-In (family_has_id id) db.families h).1

pub member_by_id-key : (id : ℕ) (db : Db) {r : MemberRow} → member_by_id id db ≡ some r → r.id ≡ id
unfolding member_by_id
member_by_id-key id db {r} h = (nat_beq_iff r.id id).0 (find-In (member_has_id id) db.members h).1

-- A row under an update of its table.
pub consume_code-found :
    (id now : ℕ) (db : Db) {r : CodeRow}
    → code_by_id id db ≡ some r
    → code_by_id id (consume_code id now db) ≡ some (consume_code_row now r)
unfolding code_by_id consume_code
consume_code-found id now db {r} h = ground (
  arith,
  find-update (code_has_id id) (code_has_id id) (consume_code_row now) db.codes (λ a. refl),
  find-In (code_has_id id) db.codes h,
)

pub consume_member-found :
    (id now successor : ℕ) (db : Db) {r : MemberRow}
    → member_by_id id db ≡ some r
    → member_by_id id (consume_member id now successor db)
      ≡ some (consume_member_row now successor r)
unfolding member_by_id consume_member
consume_member-found id now successor db {r} h = ground (
  arith,
  find-update (member_has_id id) (member_has_id id) (consume_member_row now successor) db.members
      (λ a. refl),
  find-In (member_has_id id) db.members h,
)

pub revoke_families-found :
    (which : FamilyRow → Bool) (id now : ℕ) (db : Db) {r : FamilyRow}
    → family_by_id id db ≡ some r
    → which r ≡ true
    → family_by_id id (revoke_families which now db) ≡ some (revoke_family_row now r)
unfolding family_by_id revoke_families
revoke_families-found which id now db {r} h hit =
    ground
      (arith, find-update (family_has_id id) which (revoke_family_row now) db.families (λ a. refl))

pub revoke_session-found :
    (id now : ℕ) (db : Db) {r : SessionRow}
    → session_by_id id db ≡ some r
    → session_by_id id (revoke_session id now db) ≡ some (revoke_session_row now r)
unfolding session_by_id revoke_session
revoke_session-found id now db {r} h = ground (
  arith,
  find-update (session_has_id id) (session_has_id id) (revoke_session_row now) db.sessions
      (λ a. refl),
  find-In (session_has_id id) db.sessions h,
)

pub consume_code-session :
    (id now : ℕ) (db : Db) (k : ℕ) → session_by_id k (consume_code id now db) ≡ session_by_id k db
unfolding session_by_id consume_code
consume_code-session id now db k = refl
