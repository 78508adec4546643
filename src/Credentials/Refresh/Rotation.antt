-- ===== src/Credentials/Refresh/Rotation.antt =====
-- credentials.rs: what a rotation asks of the tables, and what keeps a token from being rotated for
-- good: its own consumption, or the revocation of its family or of its session.
use eri.Common.{
  ℕ, Text, Option, none, some, is_some, true, ok, ◌≡◌, ◌≢◌, refl, arith, Option-cases, inl, inr,
}
use eri.External.{Libs}
use eri.Oauth.Registry.{ClientRegistry}
use eri.Store.{
  Db, SessionRow, FamilyRow, MemberRow, session_by_id, family_by_id, member_by_id, member_by_hash,
}
use eri.Store.Evolution.{Evolves}
use eri.Store.Evolution.Keys.{session_later, family_later, member_later, member_hash_later}
use eri.Transaction.{settle, Ambient}
use eri.Transaction.Ensures.{settle-eq-ok, done-Ensures}
use eri.Credentials.Types.{ExchangeResult}
use eri.Credentials.Refresh.{
  RotateRequest, TokenLookup, lookup_token, rotate_locked, rotate_refresh_bound,
}
use eri.Credentials.Refresh.Success.{IsRotated, rotate_locked-Ensures}

-- The token stands for this member of this family.
pub record IsToken (lib : Libs) (raw : Text) (id family_id : ℕ) (db : Db) : Type 0 where
  pub row : MemberRow
  pub filed : member_by_hash (lib.sha256 raw) db ≡ some row
  pub same_id : row.id ≡ id
  pub same_family : row.family_id ≡ family_id

pub record IsSpentMember (id : ℕ) (db : Db) : Type 0 where
  pub row : MemberRow
  pub found : member_by_id id db ≡ some row
  pub used : is_some row.consumed_at ≡ true

pub record IsDeadFamily (id : ℕ) (db : Db) : Type 0 where
  pub row : FamilyRow
  pub found : family_by_id id db ≡ some row
  pub dead : is_some row.revoked_at ≡ true

pub record IsDeadSession (id : ℕ) (db : Db) : Type 0 where
  pub row : SessionRow
  pub found : session_by_id id db ≡ some row
  pub dead : is_some row.revoked_at ≡ true

still_some :
    (o p : Option ℕ) → ((t : ℕ) → o ≡ some t → p ≡ some t) → is_some o ≡ true → is_some p ≡ true
still_some none p h e = cc
still_some (some t) p h e = rw (h t refl)

module _ {a b : Db} (e : Evolves a b) where
  pub IsToken-Evolves :
      (lib : Libs) (raw : Text) (id family_id : ℕ)
      → IsToken lib raw id family_id a
      → IsToken lib raw id family_id b
  IsToken-Evolves lib raw id family_id t =
      let (row, filed, l) = member_hash_later e (lib.sha256 raw) t.filed in
      record {
        row = row;
        filed = filed;
        same_id = cc (l.same, t.same_id);
        same_family = cc (l.same, t.same_family);
      }

  pub IsSpentMember-Evolves : (id : ℕ) → IsSpentMember id a → IsSpentMember id b
  IsSpentMember-Evolves id m =
      let (row, found, l) = member_later e id m.found in
      record { row = row; found = found; used = l.spent m.used }

  pub IsDeadFamily-Evolves : (id : ℕ) → IsDeadFamily id a → IsDeadFamily id b
  IsDeadFamily-Evolves id f =
      let (row, found, l) = family_later e id f.found in
      record {
        row = row;
        found = found;
        dead = still_some f.row.revoked_at row.revoked_at l.kept f.dead;
      }

  pub IsDeadSession-Evolves : (id : ℕ) → IsDeadSession id a → IsDeadSession id b
  IsDeadSession-Evolves id f =
      let (row, found, l) = session_later e id f.found in
      record {
        row = row;
        found = found;
        dead = still_some f.row.revoked_at row.revoked_at l.kept f.dead;
      }

-- What the lookup of a token reads of the joined rows.
abbrev pub lookup_of : MemberRow → FamilyRow → TokenLookup
lookup_of m f = record {
  id = m.id;
  family_id = f.id;
  session_id = f.session_id;
  client_id = f.client_id;
  scopes = f.scopes;
  resource = f.resource;
}

pub record IsJoined (lib : Libs) (raw : Text) (db : Db) (m : MemberRow) (f : FamilyRow)
    : Type 0 where
  pub filed : member_by_hash (lib.sha256 raw) db ≡ some m
  pub family_found : family_by_id m.family_id db ≡ some f

pub lookup_token-IsJoined :
    (lib : Libs) (raw : Text) (db : Db) {l : TokenLookup}
    → lookup_token lib raw db ≡ some l
    → (m : MemberRow) × (f : FamilyRow) × IsJoined lib raw db m f × (l ≡ lookup_of m f)
unfolding lookup_token
lookup_token-IsJoined lib raw db h = elim (Option-cases (member_by_hash (lib.sha256 raw) db)) [
  | inl missing ↦ absurd (ground arith)
  | inr (m, filed) ↦ elim (Option-cases (family_by_id m.family_id db)) [
    | inl missing ↦ absurd (ground arith)
    | inr (f, found) ↦ (m, f, record { filed = filed; family_found = found }, ground arith)
  ]
]

module _ (lib : Libs) (env : Ambient Db) (registry : Option ClientRegistry) (req : RotateRequest)
    (db : Db) where
  rotation :
      {r : ExchangeResult} {after : Db} (l : TokenLookup)
      → lookup_token lib req.raw db ≡ some l
      → rotate_refresh_bound lib env registry req db ≡ (ok r, after)
      → settle (env.others 0 db) (rotate_locked lib env registry req l (env.others 0 db))
        ≡ (ok r, after)
  unfolding rotate_refresh_bound
  rotation l looked h = ground arith

  no_rotation :
      {r : ExchangeResult} {after : Db}
      → lookup_token lib req.raw db ≡ none
      → rotate_refresh_bound lib env registry req db ≢ (ok r, after)
  unfolding rotate_refresh_bound
  no_rotation missing h = ground arith

  -- When a token is rotated, the member of its hash was unused under the lock of the session, its
  -- family and its session were unexpired and unrevoked, and the family was of the client and of the
  -- resource of the request and passed the registry. The database gains the successor in the
  -- family, and the member is consumed with it.
  pub rotate_checks :
      {r : ExchangeResult} {after : Db}
      → rotate_refresh_bound lib env registry req db ≡ (ok r, after)
      → (m : MemberRow) × (f : FamilyRow) × IsJoined lib req.raw db m f
        × IsRotated lib env registry req (lookup_of m f) (env.others 0 db) r after
  rotate_checks {r} {after} h = elim (Option-cases (lookup_token lib req.raw db)) [
    | inl missing ↦ absurd (no_rotation {r = r} {after = after} missing h)
    | inr (l, looked) ↦
        let (m, f, joined, same) = lookup_token-IsJoined lib req.raw db looked in
        let d = env.others 0 db in
        let settled : settle d (rotate_locked lib env registry req (lookup_of m f) d)
            ≡ (ok r, after) =
          rw (← same) (rotation l looked h) in
        (
          m,
          f,
          joined,
          done-Ensures (rotate_locked-Ensures lib env registry req (lookup_of m f) d)
              (settle-eq-ok d (rotate_locked lib env registry req (lookup_of m f) d) settled),
        )
  ]
