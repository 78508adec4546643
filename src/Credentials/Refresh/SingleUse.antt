-- ===== src/Credentials/Refresh/SingleUse.antt =====
-- credentials.rs: a refresh token is rotated once at most, and its second use ends the family.
use eri.Common.{ℕ, Text, Option, some, true, ok, ◌≡◌, ◌≢◌, refl, ◌∙◌, sym, arith}
use eri.External.{Libs}
use eri.Oauth.Registry.{ClientRegistry}
use eri.Store.{Db, FamilyRow, SessionRow, family_by_id, session_by_id, consume_member_row}
use eri.Store.Evolution.{Evolves, FamilyLater}
use eri.Store.Evolution.Keys.{
  family_later, session_later, member_later, family_by_id-key, consume_member-found,
}
use eri.Store.Evolution.Steps.{consume_member-Evolves}
use eri.Store.Evolution.Insertions.{insert_member-Evolves}
use eri.Store.Evolution.Inserted.{insert_member-found}
use eri.Transaction.{Ambient}
use eri.Credentials.Types.{database, ExchangeResult, check_binding}
use eri.Credentials.Exchange.{member_row}
use eri.Credentials.Refresh.{RotateRequest, binds_family, rotate_refresh_bound}
use eri.Credentials.Refresh.Success.{IsRotated-Evolves}
use eri.Credentials.Refresh.Rotation.{
  IsToken, IsSpentMember, IsDeadFamily, IsToken-Evolves, IsSpentMember-Evolves,
  IsDeadFamily-Evolves, lookup_of, rotate_checks,
}
use eri.Steps.{IsFair}
use eri.Steps.Interleaving.{Reach-Evolves}

module _ (lib : Libs) (env : Ambient Db) (registry : Option ClientRegistry) (req : RotateRequest)
    (db : Db) (fair : IsFair lib env) {r : ExchangeResult} {after : Db} where
  pub IsSpentMember-refuses :
      (id family_id : ℕ)
      → IsToken lib req.raw id family_id db
      → IsSpentMember id db
      → rotate_refresh_bound lib env registry req db ≢ (ok r, after)
  IsSpentMember-refuses id family_id t spent h =
      let (m, f, joined, e) = rotate_checks lib env registry req db h in
      let s = IsSpentMember-Evolves (Reach-Evolves (fair 0 db)) id spent in
      let same : m.id ≡ id = cc (joined.filed, t.filed, t.same_id) in
      ground (arith, same, e.member_found, s.found, s.used, e.unused)

  pub IsDeadFamily-refuses :
      (id family_id : ℕ)
      → IsToken lib req.raw id family_id db
      → IsDeadFamily family_id db
      → rotate_refresh_bound lib env registry req db ≢ (ok r, after)
  IsDeadFamily-refuses id family_id t dead h =
      let (m, f, joined, e) = rotate_checks lib env registry req db h in
      let s = IsDeadFamily-Evolves (Reach-Evolves (fair 0 db)) family_id dead in
      let key : f.id ≡ m.family_id = family_by_id-key m.family_id db joined.family_found in
      let same : f.id ≡ family_id = cc (key, joined.filed, t.filed, t.same_family) in
      ground (arith, same, e.family_found, s.found, s.dead, e.family_unrevoked)

-- What a rotation leaves: the token is spent, and its successor is a token of the same family.
pub record IsSucceeded (lib : Libs) (req : RotateRequest) (successor : Text) (binding : Option Text)
    (id successor_id family_id : ℕ) (db : Db) : Type 0 where
  pub old_token : IsToken lib req.raw id family_id db
  pub new_token : IsToken lib successor successor_id family_id db
  pub spent : IsSpentMember id db
  pub family : FamilyRow
  pub family_found : family_by_id family_id db ≡ some family
  pub bound : binds_family lib req family ≡ true
  pub same_binding : family.cimd_binding ≡ binding
  pub session : SessionRow
  pub session_found : session_by_id family.session_id db ≡ some session

pub binds_family-Later :
    (lib : Libs) (req : RotateRequest) (r s : FamilyRow)
    → FamilyLater r s
    → binds_family lib req s ≡ binds_family lib req r
unfolding binds_family
binds_family-Later lib req r s l = cc l.same

pub IsSucceeded-Evolves :
    (lib : Libs) (req : RotateRequest) (successor : Text) (binding : Option Text)
    (id successor_id family_id : ℕ) {a b : Db}
    → Evolves a b
    → IsSucceeded lib req successor binding id successor_id family_id a
    → IsSucceeded lib req successor binding id successor_id family_id b
IsSucceeded-Evolves lib req successor binding id successor_id family_id {b} e s =
    let (family, family_found, l) = family_later e family_id s.family_found in
    let (session, session_found, _) = session_later e s.family.session_id s.session_found in
    let same : family.session_id ≡ s.family.session_id = cc l.same in
    record {
      old_token = IsToken-Evolves e lib req.raw id family_id s.old_token;
      new_token = IsToken-Evolves e lib successor successor_id family_id s.new_token;
      spent = IsSpentMember-Evolves e id s.spent;
      family = family;
      family_found = family_found;
      bound = binds_family-Later lib req s.family family l ∙ s.bound;
      same_binding = cc (l.same, s.same_binding);
      session = session;
      session_found = rw same session_found;
    }

module _ (lib : Libs) (env : Ambient Db) (registry : Option ClientRegistry) (req : RotateRequest)
    (db : Db) (fair : IsFair lib env) {r : ExchangeResult} {after : Db} where
  pub rotate-IsSucceeded :
      rotate_refresh_bound lib env registry req db ≡ (ok r, after)
      → (id family_id : ℕ) × (binding : Option Text) × IsSucceeded lib req
          (env.secret 0)
          binding
          id
          (env.uuid 0)
          family_id
          after
        × (check_binding lib registry (env.instant 0) req.client_id binding ≡ ok tt)
        × (r.refresh_token ≡ some (env.secret 0))
  rotate-IsSucceeded h =
      let (m, f, joined, e) = rotate_checks lib env registry req db h in
      let d = env.others 0 db in
      let key : f.id ≡ m.family_id = family_by_id-key m.family_id db joined.family_found in
      let token : IsToken lib req.raw m.id f.id db = record {
        row = m;
        filed = joined.filed;
        same_id = refl;
        same_family = sym key;
      } in
      let grown = insert_member-Evolves database _ d e.with_successor e.inserted in
      let spend = consume_member-Evolves m.id (env.wall 0) (env.uuid 0) e.with_successor in
      let all_grown = IsRotated-Evolves lib env registry req (lookup_of m f) d r after e in
      let (row, found, _) = member_later grown m.id e.member_found in
      let (family, family_found, l) = family_later all_grown f.id e.family_found in
      let (session, session_found, _) = session_later all_grown f.session_id e.session_found in
      let new_row = member_row lib (env.uuid 0) (env.secret 0) f.id (env.wall 0) in
      let new_token : IsToken lib (env.secret 0) (env.uuid 0) f.id e.with_successor = record {
        row = new_row;
        filed = (insert_member-found database new_row d e.with_successor e.inserted).0;
        same_id = refl;
        same_family = refl;
      } in
      let spent : IsSpentMember m.id after = record {
        row = consume_member_row (env.wall 0) (env.uuid 0) row;
        found =
            rw e.consumed (
              consume_member-found m.id (env.wall 0) (env.uuid 0) e.with_successor {r = row} found);
        used = refl;
      } in
      let met = Reach-Evolves (fair 0 db) in
      let (family0, family0_found, l0) =
        family_later met f.id {r = f} (rw key joined.family_found) in
      let same_family : family0 ≡ e.family = ground (arith, family0_found, e.family_found) in
      let same_session : family.session_id ≡ f.session_id = cc (l.same, l0.same, same_family) in
      (
        m.id,
        f.id,
        e.family.cimd_binding,
        record {
          old_token =
              IsToken-Evolves all_grown lib req.raw m.id f.id
                (IsToken-Evolves met lib req.raw m.id f.id token);
          new_token =
              rw e.consumed (IsToken-Evolves spend lib (env.secret 0) (env.uuid 0) f.id new_token);
          spent = spent;
          family = family;
          family_found = family_found;
          bound = binds_family-Later lib req e.family family l ∙ e.bound;
          same_binding = cc l.same;
          session = session;
          session_found = rw same_session session_found;
        },
        e.binding,
        e.result_token,
      )
