-- ===== src/Browser/Ended.antt =====
-- browser.rs: a browser transaction that has ended stays so under every insertion and update.
use eri.Common.{
  ℕ, Bool, true, false, not, ◌||◌, none, some, List, [], ◌∷◌, any, all, find, find-In, In,
  update_where, is_some, nat_beq, nat_beq_iff, ◌≡◌, refl, arith, inl, inr, text_eq,
}
use eri.Store.{Db, Stage, BrowserRow}
use eri.Store.Evolution.{Evolves, Evolves-refl, IsOver, is_final}
use eri.Transaction.{done, commit_and_fail, ◌>>=◌}
use eri.Transaction.Ensures.{Ensures}
use eri.Store.Evolution.Rules.{Ensures-of_done}
use eri.Browser.Rows.{
  stage_beq, browser_by_id, browser_where, browser_has_id, update_browser, insert_browser,
  stage_beq,
}

-- An ended transaction among the rows has a final stage.
ended_row :
    (id : ℕ) (rows : List BrowserRow) (r : BrowserRow)
    → all (λ (r : BrowserRow). not (nat_beq r.id id) || is_final r.stage) rows ≡ true
    → In r rows
    → r.id ≡ id
    → is_final r.stage ≡ true
unfolding all
ended_row id [] r h i e = elim i [ ]
ended_row id (x ∷ rows) r h (inl same) e = ground (arith, same, nat_beq_iff x.id id)
ended_row id (x ∷ rows) r h (inr i) e = ended_row id rows r (ground arith) i e

-- A row that is found at a stage that is not final is of another transaction.
pub found-other :
    (id : ℕ) (which : BrowserRow → Bool) (db : Db) (r : BrowserRow)
    → IsOver id db.browser
    → browser_where which db ≡ some r
    → is_final r.stage ≡ false
    → nat_beq r.id id ≡ false
unfolding browser_where
found-other id which db r o found open_stage =
    let (i, _) = find-In which db.browser found in
    ground (arith, nat_beq_iff r.id id, ended_row id db.browser r o.ended i)

module _ (id : ℕ) (which : BrowserRow → Bool) (f : BrowserRow → BrowserRow) where
  update-present :
      ((r : BrowserRow) → (f r).id ≡ r.id)
      → (rows : List BrowserRow)
      → any (λ (r : BrowserRow). nat_beq r.id id) (update_where which f rows)
        ≡ any (λ (r : BrowserRow). nat_beq r.id id) rows
  unfolding any update_where
  update-present keeps [] = refl
  update-present keeps (r ∷ rows) = ground (arith, keeps r, update-present keeps rows)

  update-ended :
      ((r : BrowserRow) → (f r).id ≡ r.id)
      → ((r : BrowserRow)
          → which r ≡ true
          → nat_beq r.id id ≡ true
          → is_final r.stage ≡ true
          → is_final (f r).stage ≡ true)
      → (rows : List BrowserRow)
      → all (λ (r : BrowserRow). not (nat_beq r.id id) || is_final r.stage) rows ≡ true
      → all
          (λ (r : BrowserRow). not (nat_beq r.id id) || is_final r.stage)
          (update_where which f rows)
        ≡ true
  unfolding all update_where
  update-ended keeps stays [] h = refl
  update-ended keeps stays (r ∷ rows) h =
      ground (arith, keeps r, stays r, update-ended keeps stays rows)

update_browser-Evolves :
    (which : BrowserRow → Bool) (f : BrowserRow → BrowserRow) (db : Db)
    → ((r : BrowserRow) → (f r).id ≡ r.id)
    → ((id : ℕ)
        → IsOver id db.browser
        → (r : BrowserRow) → which r ≡ true
        → nat_beq r.id id ≡ true
        → is_final r.stage ≡ true
        → is_final (f r).stage ≡ true)
    → Evolves db (update_browser which f db)
unfolding update_browser
update_browser-Evolves which f db keeps stays = record {
  over = λ id o. record {
    present = rw (update-present id which f keeps db.browser) o.present;
    ended = update-ended id which f keeps (stays id o) db.browser o.ended;
  };
  session_ids = (Evolves-refl db).session_ids;
  session_hashes = (Evolves-refl db).session_hashes;
  code_ids = (Evolves-refl db).code_ids;
  code_hashes = (Evolves-refl db).code_hashes;
  family_ids = (Evolves-refl db).family_ids;
  member_ids = (Evolves-refl db).member_ids;
  member_hashes = (Evolves-refl db).member_hashes;
}

-- An update of the row that has been found at a stage that is not final.
pub update_found-Evolves :
    (which : BrowserRow → Bool) (f : BrowserRow → BrowserRow) (db : Db) (row : BrowserRow)
    → ((r : BrowserRow) → (f r).id ≡ r.id)
    → browser_where which db ≡ some row
    → is_final row.stage ≡ false
    → Evolves db (update_browser (browser_has_id row.id) f db)
update_found-Evolves which f db row keeps found open_stage =
    update_browser-Evolves (browser_has_id row.id) f db keeps λ id o r hit is_id _.
      let other = found-other id which db row o found open_stage in
      ground (arith, nat_beq_iff r.id row.id, nat_beq_iff r.id id, nat_beq_iff row.id id)

-- An update that a stage that is not final conditions.
pub update_open-Evolves :
    (which : BrowserRow → Bool) (f : BrowserRow → BrowserRow) (db : Db)
    → ((r : BrowserRow) → (f r).id ≡ r.id)
    → ((r : BrowserRow) → which r ≡ true → is_final r.stage ≡ false)
    → Evolves db (update_browser which f db)
update_open-Evolves which f db keeps opens =
    update_browser-Evolves which f db keeps λ id o r hit is_id final. ground (arith, opens r hit)

-- An update to a final stage.
pub update_final-Evolves :
    (which : BrowserRow → Bool) (f : BrowserRow → BrowserRow) (db : Db)
    → ((r : BrowserRow) → (f r).id ≡ r.id)
    → ((r : BrowserRow) → is_final (f r).stage ≡ true)
    → Evolves db (update_browser which f db)
update_final-Evolves which f db keeps ends =
    update_browser-Evolves which f db keeps λ id o r hit is_id final. ends r

insert-present :
    (id : ℕ) (row : BrowserRow) (rows : List BrowserRow)
    → find (browser_has_id row.id) rows ≡ none
    → any (λ (r : BrowserRow). nat_beq r.id id) rows ≡ true
    → nat_beq row.id id ≡ false
unfolding find any
insert-present id row [] free h = cc
insert-present id row (r ∷ rows) free h = ground (
  arith,
  insert-present id row rows,
  nat_beq_iff r.id id,
  nat_beq_iff row.id id,
  nat_beq_iff r.id row.id,
)

IsOver-inserted :
    (row : BrowserRow) (db : Db)
    → is_some (browser_by_id row.id db) ≡ false
    → (id : ℕ) → IsOver id db.browser
    → IsOver id (row ∷ db.browser)
unfolding browser_by_id any all
IsOver-inserted row db free id o =
    let other = insert-present id row db.browser (ground arith) o.present in
    record { present = ground (arith, o.present); ended = ground (arith, o.ended) }

pub insert_browser-Evolves :
    {E : Type 0} (database : E) (row : BrowserRow) (db after : Db)
    → insert_browser database row db ≡ done after
    → Evolves db after
unfolding insert_browser ◌>>=◌
insert_browser-Evolves database row db after h =
    let same : record db { browser = row ∷ db.browser } ≡ after = ground arith in
    rw (← same) (grown (ground arith))
  where
    grown :
        is_some (browser_by_id row.id db) ≡ false
        → Evolves db (record db { browser = row ∷ db.browser })
    grown free = record {
      over = λ id o. IsOver-inserted row db free id o;
      session_ids = (Evolves-refl db).session_ids;
      session_hashes = (Evolves-refl db).session_hashes;
      code_ids = (Evolves-refl db).code_ids;
      code_hashes = (Evolves-refl db).code_hashes;
      family_ids = (Evolves-refl db).family_ids;
      member_ids = (Evolves-refl db).member_ids;
      member_hashes = (Evolves-refl db).member_hashes;
    }

insert_browser-commits :
    {E : Type 0} (database : E) (row : BrowserRow) (db : Db) (e : E) (d : Db)
    → insert_browser database row db ≡ commit_and_fail e d
    → ⊥
unfolding insert_browser ◌>>=◌
insert_browser-commits database row db e d h = ground arith

pub insert_browser-Ensures :
    {E : Type 0} {R : Db → Type 0} (database : E) (row : BrowserRow) (db : Db)
    → Ensures
        (λ after. insert_browser database row db ≡ done after)
        R
        (insert_browser database row db)
insert_browser-Ensures database row db =
    Ensures-of_done (insert_browser database row db) (insert_browser-commits database row db)

-- A stage that equals one that is not final is not final.
pub stage_beq-open : (s t : Stage) → is_final t ≡ false → stage_beq s t ≡ true → is_final s ≡ false
stage_beq-open s t open_stage same = ground arith

pub browser_where-open :
    (which : BrowserRow → Bool) (db : Db) (row : BrowserRow)
    → browser_where which db ≡ some row
    → ((r : BrowserRow) → which r ≡ true → is_final r.stage ≡ false)
    → is_final row.stage ≡ false
unfolding browser_where
browser_where-open which db row found opens = opens row (find-In which db.browser found).1

-- An update of all the rows of a transaction to a final stage ends it.
module _ (id : ℕ) (f : BrowserRow → BrowserRow) where
  all-ended :
      ((r : BrowserRow) → is_final (f r).stage ≡ true)
      → (rows : List BrowserRow)
      → all
          (λ (r : BrowserRow). not (nat_beq r.id id) || is_final r.stage)
          (update_where (browser_has_id id) f rows)
        ≡ true
  unfolding all update_where
  all-ended ends [] = refl
  all-ended ends (r ∷ rows) = ground (arith, ends r, all-ended ends rows)

  pub IsOver-of_update :
      ((r : BrowserRow) → (f r).id ≡ r.id)
      → ((r : BrowserRow) → is_final (f r).stage ≡ true)
      → (db : Db) → any (λ (r : BrowserRow). nat_beq r.id id) db.browser ≡ true
      → IsOver id (update_browser (browser_has_id id) f db).browser
  unfolding update_browser
  IsOver-of_update keeps ends db there = record {
    present = rw (update-present id (browser_has_id id) f keeps db.browser) there;
    ended = all-ended ends db.browser;
  }
