-- ===== src/Store/Evolution/Inserted.antt =====
-- A row that has been inserted is found under its keys.
use eri.Common.{ℕ, some, find, text_eq, nat_beq_iff, beq_refl, ◌≡◌, arith}
use eri.Store.{
  Db, FamilyRow, MemberRow, insert_family, insert_member, family_by_id, member_by_id,
  member_by_hash,
}
use eri.Transaction.{done, ◌>>=◌}

module _ {E : Type 0} (database : E) where
  pub insert_family-found :
      (row : FamilyRow) (db after : Db)
      → insert_family database row db ≡ done after
      → family_by_id row.id after ≡ some row
  unfolding insert_family ◌>>=◌ family_by_id find
  insert_family-found row db after h = ground (arith, nat_beq_iff row.id row.id)

  pub insert_member-found :
      (row : MemberRow) (db after : Db)
      → insert_member database row db ≡ done after
      → (member_by_hash row.token_hash after ≡ some row) × (member_by_id row.id after ≡ some row)
  unfolding insert_member ◌>>=◌ member_by_hash member_by_id find
  insert_member-found row db after h =
      ground (arith, nat_beq_iff row.id row.id, beq_refl row.token_hash)

  -- No member is put in another's place.
  pub insert_member-families :
      (row : MemberRow) (db after : Db) (id : ℕ)
      → insert_member database row db ≡ done after
      → family_by_id id after ≡ family_by_id id db
  unfolding insert_member ◌>>=◌ family_by_id
  insert_member-families row db after id h = ground arith
