-- ===== src/Store/Evolution/Insertions.antt =====
-- Every insertion into the credential tables evolves them.
use eri.Common.{
  ℕ, Text, true, none, ◌∷◌, find, text_beq_iff, nat_beq_iff, ◌≡◌, arith, nat_beq, ◌==◌, text_eq,
}
use eri.Common.Rows.{Persists-insert}
use eri.Transaction.{done, ◌>>=◌}
use eri.Store.{
  SessionRow, CodeRow, FamilyRow, MemberRow, Db, session_by_id, session_by_hash, code_by_id,
  code_by_hash, family_by_id, member_by_id, member_by_hash, insert_session, insert_code,
  insert_family, insert_member,
}
use eri.Store.Evolution.{
  SessionLater, SessionLater-refl, CodeLater, CodeLater-refl, FamilyLater, FamilyLater-refl,
  MemberLater, MemberLater-refl, session_has_id, session_has_hash, code_has_id, code_has_hash,
  family_has_id, member_has_id, member_has_hash, Evolves, Evolves-refl,
}

module _ {E : Type 0} (database : E) (row : SessionRow) (db : Db) where
  session_id_free :
      {after : Db}
      → insert_session database row db ≡ done after
      → (k : ℕ) → nat_beq row.id k ≡ true
      → find (session_has_id k) db.sessions ≡ none
  unfolding insert_session ◌>>=◌ session_by_id
  session_id_free h k e = ground (arith, nat_beq_iff row.id k)

  session_hash_free :
      {after : Db}
      → insert_session database row db ≡ done after
      → (k : Text) → (row.token_hash == k) ≡ true
      → find (session_has_hash k) db.sessions ≡ none
  unfolding insert_session ◌>>=◌ session_by_hash
  session_hash_free h k e = ground (arith, text_beq_iff row.token_hash k)

  insert_session_rows :
      {after : Db}
      → insert_session database row db ≡ done after
      → after ≡ record db { sessions = row ∷ db.sessions }
  unfolding insert_session ◌>>=◌
  insert_session_rows h = ground arith

  pub insert_session-Evolves :
      (after : Db) → insert_session database row db ≡ done after → Evolves db after
  insert_session-Evolves after h =
      rw (insert_session_rows h) (grown (session_id_free h) (session_hash_free h))
    where
      grown :
          ((k : ℕ) → nat_beq row.id k ≡ true → find (session_has_id k) db.sessions ≡ none)
          → ((k : Text)
              → (row.token_hash == k) ≡ true
              → find (session_has_hash k) db.sessions ≡ none)
          → Evolves db (record db { sessions = row ∷ db.sessions })
      grown free_id free_hash = record {
        over = λ id h. h;
        session_ids = λ k.
            Persists-insert SessionLater (session_has_id k) row db.sessions SessionLater-refl
              (free_id k);
        session_hashes = λ k.
            Persists-insert SessionLater (session_has_hash k) row db.sessions SessionLater-refl
              (free_hash k);
        code_ids = (Evolves-refl db).code_ids;
        code_hashes = (Evolves-refl db).code_hashes;
        family_ids = (Evolves-refl db).family_ids;
        member_ids = (Evolves-refl db).member_ids;
        member_hashes = (Evolves-refl db).member_hashes;
      }

module _ {E : Type 0} (database : E) (row : CodeRow) (db : Db) where
  code_id_free :
      {after : Db}
      → insert_code database row db ≡ done after
      → (k : ℕ) → nat_beq row.id k ≡ true
      → find (code_has_id k) db.codes ≡ none
  unfolding insert_code ◌>>=◌ code_by_id
  code_id_free h k e = ground (arith, nat_beq_iff row.id k)

  code_hash_free :
      {after : Db}
      → insert_code database row db ≡ done after
      → (k : Text) → (row.code_hash == k) ≡ true
      → find (code_has_hash k) db.codes ≡ none
  unfolding insert_code ◌>>=◌ code_by_hash
  code_hash_free h k e = ground (arith, text_beq_iff row.code_hash k)

  insert_code_rows :
      {after : Db}
      → insert_code database row db ≡ done after
      → after ≡ record db { codes = row ∷ db.codes }
  unfolding insert_code ◌>>=◌
  insert_code_rows h = ground arith

  pub insert_code-Evolves :
      (after : Db) → insert_code database row db ≡ done after → Evolves db after
  insert_code-Evolves after h = rw (insert_code_rows h) (grown (code_id_free h) (code_hash_free h))
    where
      grown :
          ((k : ℕ) → nat_beq row.id k ≡ true → find (code_has_id k) db.codes ≡ none)
          → ((k : Text) → (row.code_hash == k) ≡ true → find (code_has_hash k) db.codes ≡ none)
          → Evolves db (record db { codes = row ∷ db.codes })
      grown free_id free_hash = record {
        over = λ id h. h;
        session_ids = (Evolves-refl db).session_ids;
        session_hashes = (Evolves-refl db).session_hashes;
        code_ids =
            λ k. Persists-insert CodeLater (code_has_id k) row db.codes CodeLater-refl (free_id k);
        code_hashes = λ k.
            Persists-insert CodeLater (code_has_hash k) row db.codes CodeLater-refl (free_hash k);
        family_ids = (Evolves-refl db).family_ids;
        member_ids = (Evolves-refl db).member_ids;
        member_hashes = (Evolves-refl db).member_hashes;
      }

module _ {E : Type 0} (database : E) (row : FamilyRow) (db : Db) where
  family_id_free :
      {after : Db}
      → insert_family database row db ≡ done after
      → (k : ℕ) → nat_beq row.id k ≡ true
      → find (family_has_id k) db.families ≡ none
  unfolding insert_family ◌>>=◌ family_by_id
  family_id_free h k e = ground (arith, nat_beq_iff row.id k)

  insert_family_rows :
      {after : Db}
      → insert_family database row db ≡ done after
      → after ≡ record db { families = row ∷ db.families }
  unfolding insert_family ◌>>=◌
  insert_family_rows h = ground arith

  pub insert_family-Evolves :
      (after : Db) → insert_family database row db ≡ done after → Evolves db after
  insert_family-Evolves after h = rw (insert_family_rows h) (grown (family_id_free h))
    where
      grown :
          ((k : ℕ) → nat_beq row.id k ≡ true → find (family_has_id k) db.families ≡ none)
          → Evolves db (record db { families = row ∷ db.families })
      grown free_id = record {
        over = λ id h. h;
        session_ids = (Evolves-refl db).session_ids;
        session_hashes = (Evolves-refl db).session_hashes;
        code_ids = (Evolves-refl db).code_ids;
        code_hashes = (Evolves-refl db).code_hashes;
        family_ids = λ k.
            Persists-insert FamilyLater (family_has_id k) row db.families FamilyLater-refl
              (free_id k);
        member_ids = (Evolves-refl db).member_ids;
        member_hashes = (Evolves-refl db).member_hashes;
      }

module _ {E : Type 0} (database : E) (row : MemberRow) (db : Db) where
  member_id_free :
      {after : Db}
      → insert_member database row db ≡ done after
      → (k : ℕ) → nat_beq row.id k ≡ true
      → find (member_has_id k) db.members ≡ none
  unfolding insert_member ◌>>=◌ member_by_id
  member_id_free h k e = ground (arith, nat_beq_iff row.id k)

  member_hash_free :
      {after : Db}
      → insert_member database row db ≡ done after
      → (k : Text) → (row.token_hash == k) ≡ true
      → find (member_has_hash k) db.members ≡ none
  unfolding insert_member ◌>>=◌ member_by_hash
  member_hash_free h k e = ground (arith, text_beq_iff row.token_hash k)

  insert_member_rows :
      {after : Db}
      → insert_member database row db ≡ done after
      → after ≡ record db { members = row ∷ db.members }
  unfolding insert_member ◌>>=◌
  insert_member_rows h = ground arith

  pub insert_member-Evolves :
      (after : Db) → insert_member database row db ≡ done after → Evolves db after
  insert_member-Evolves after h =
      rw (insert_member_rows h) (grown (member_id_free h) (member_hash_free h))
    where
      grown :
          ((k : ℕ) → nat_beq row.id k ≡ true → find (member_has_id k) db.members ≡ none)
          → ((k : Text) → (row.token_hash == k) ≡ true → find (member_has_hash k) db.members ≡ none)
          → Evolves db (record db { members = row ∷ db.members })
      grown free_id free_hash = record {
        over = λ id h. h;
        session_ids = (Evolves-refl db).session_ids;
        session_hashes = (Evolves-refl db).session_hashes;
        code_ids = (Evolves-refl db).code_ids;
        code_hashes = (Evolves-refl db).code_hashes;
        family_ids = (Evolves-refl db).family_ids;
        member_ids = λ k.
            Persists-insert MemberLater (member_has_id k) row db.members MemberLater-refl
              (free_id k);
        member_hashes = λ k.
            Persists-insert MemberLater (member_has_hash k) row db.members MemberLater-refl
              (free_hash k);
      }
