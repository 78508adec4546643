-- ===== src/Store/Evolution/Rules.antt =====
-- The insertions as steps of a transaction: none commits by itself.
use eri.Common.{◌≡◌, refl, arith}
use eri.Store.{
  Db, SessionRow, CodeRow, FamilyRow, MemberRow, insert_session, insert_code, insert_family,
  insert_member,
}
use eri.Transaction.{Outcome, done, abort, commit_and_fail, ◌>>=◌}
use eri.Transaction.Ensures.{Ensures, is_done, is_abort}

-- A step that never commits by itself.
pub Ensures-of_done :
    {E D : Type 0} {R : D → Type 0} (m : Outcome E D D)
    → ((e : E) (d : D) → m ≡ commit_and_fail e d → ⊥)
    → Ensures (λ d. m ≡ done d) R m
Ensures-of_done (done d) k = is_done d refl
Ensures-of_done (abort e) k = is_abort e
Ensures-of_done (commit_and_fail e d) k = absurd (k e d refl)

module _ {E : Type 0} (database : E) where
  insert_session-commits :
      (row : SessionRow) (db : Db) (e : E) (d : Db)
      → insert_session database row db ≡ commit_and_fail e d
      → ⊥
  unfolding insert_session ◌>>=◌
  insert_session-commits row db e d h = ground arith

  pub insert_session-Ensures :
      {R : Db → Type 0} (row : SessionRow) (db : Db)
      → Ensures
          (λ after. insert_session database row db ≡ done after)
          R
          (insert_session database row db)
  insert_session-Ensures row db =
      Ensures-of_done (insert_session database row db) (insert_session-commits row db)

  insert_code-commits :
      (row : CodeRow) (db : Db) (e : E) (d : Db)
      → insert_code database row db ≡ commit_and_fail e d
      → ⊥
  unfolding insert_code ◌>>=◌
  insert_code-commits row db e d h = ground arith

  pub insert_code-Ensures :
      {R : Db → Type 0} (row : CodeRow) (db : Db)
      → Ensures (λ after. insert_code database row db ≡ done after) R (insert_code database row db)
  insert_code-Ensures row db =
      Ensures-of_done (insert_code database row db) (insert_code-commits row db)

  insert_family-commits :
      (row : FamilyRow) (db : Db) (e : E) (d : Db)
      → insert_family database row db ≡ commit_and_fail e d
      → ⊥
  unfolding insert_family ◌>>=◌
  insert_family-commits row db e d h = ground arith

  pub insert_family-Ensures :
      {R : Db → Type 0} (row : FamilyRow) (db : Db)
      → Ensures
          (λ after. insert_family database row db ≡ done after)
          R
          (insert_family database row db)
  insert_family-Ensures row db =
      Ensures-of_done (insert_family database row db) (insert_family-commits row db)

  insert_member-commits :
      (row : MemberRow) (db : Db) (e : E) (d : Db)
      → insert_member database row db ≡ commit_and_fail e d
      → ⊥
  unfolding insert_member ◌>>=◌
  insert_member-commits row db e d h = ground arith

  pub insert_member-Ensures :
      {R : Db → Type 0} (row : MemberRow) (db : Db)
      → Ensures
          (λ after. insert_member database row db ≡ done after)
          R
          (insert_member database row db)
  insert_member-Ensures row db =
      Ensures-of_done (insert_member database row db) (insert_member-commits row db)
