-- ===== src/Credentials/Refresh/Replay.antt =====
-- credentials.rs: the second use of a refresh token is refused, and ends its family for good.
use eri.Common.{
  ℕ, Text, Option, none, some, is_some, true, Result, ok, err, ◌≡◌, ◌≢◌, refl, ◌∙◌, arith, ap,
  subst, nat_beq_iff,
}
use eri.External.{Libs}
use eri.Oauth.Registry.{ClientRegistry}
use eri.Store.{
  Db, FamilyRow, MemberRow, SessionRow, family_by_id, member_by_id, member_by_hash, session_by_id,
  revoke_families, revoke_family_row, is_family, coalesce,
}
use eri.Store.Evolution.Keys.{
  family_later, session_later, member_later, family_by_id-key, revoke_families-found,
}
use eri.Store.Evolution.Steps.{revoke_families-Evolves}
use eri.Transaction.{Ambient, ◌>>=◌, settle}
use eri.Credentials.Types.{CredentialError, invalid_grant, ExchangeResult, check_binding}
use eri.Credentials.Refresh.{
  RotateRequest, TokenLookup, lookup_token, binds_family, replay_token, rotate_locked,
  rotate_refresh_bound,
}
use eri.Credentials.Refresh.Rotation.{
  IsToken, IsDeadFamily, IsToken-Evolves, IsDeadFamily-Evolves, lookup_of,
}
use eri.Credentials.Refresh.SingleUse.{
  IsSucceeded, IsSucceeded-Evolves, binds_family-Later, rotate-IsSucceeded, IsSpentMember-refuses,
  IsDeadFamily-refuses,
}
use eri.Steps.{Reach, IsFair}
use eri.Steps.Interleaving.{Reach-Evolves}

module _ (lib : Libs) (env : Ambient Db) (req : RotateRequest) (db : Db) where
  -- The transaction at a token that is spent.
  replay_locked :
      (l : TokenLookup) (session : SessionRow) (family : FamilyRow) (member : MemberRow)
      → session_by_id l.session_id db ≡ some session
      → family_by_id l.family_id db ≡ some family
      → member_by_id l.id db ≡ some member
      → is_some member.consumed_at ≡ true
      → binds_family lib req family ≡ true
      → family.cimd_binding ≡ none
      → settle db (rotate_locked lib env none req l db)
        ≡ (err invalid_grant, revoke_families (is_family l.family_id) (env.wall 0) db)
  unfolding rotate_locked replay_token check_binding ◌>>=◌
  replay_locked l session family member s f m used bound unbound = ground arith

  looked_up :
      (m : MemberRow) (f : FamilyRow)
      → member_by_hash (lib.sha256 req.raw) db ≡ some m
      → family_by_id m.family_id db ≡ some f
      → rotate_refresh_bound lib env none req db
        ≡ settle
            (env.others 0 db)
            (rotate_locked lib env none req (lookup_of m f) (env.others 0 db))
  unfolding rotate_refresh_bound lookup_token
  looked_up m f e k = ground arith

module _ (lib : Libs) (env : Ambient Db) (req : RotateRequest) (db : Db) where
  replay :
      {successor : Text} {id successor_id family_id : ℕ}
      → IsFair lib env
      → IsSucceeded lib req successor none id successor_id family_id db
      → rotate_refresh_bound lib env none req db
        ≡ (err invalid_grant, revoke_families (is_family family_id) (env.wall 0) (env.others 0 db))
  replay {successor} {id} {successor_id} {family_id} fair s =
      let d = env.others 0 db in
      let met = Reach-Evolves (fair 0 db) in
      let m = s.old_token.row in
      let (family, family_found, l) = family_later met family_id s.family_found in
      let (session, session_found, _) = session_later met s.family.session_id s.session_found in
      let (member, member_found, k) = member_later met id s.spent.found in
      let key : s.family.id ≡ family_id = family_by_id-key family_id db s.family_found in
      let looked =
        looked_up lib env req db m s.family s.old_token.filed
          (rw s.old_token.same_family s.family_found) in
      let locked =
        replay_locked lib env req d (lookup_of m s.family) session family member session_found
          (rw key family_found) (rw s.old_token.same_id member_found) (k.spent s.spent.used)
          (binds_family-Later lib req s.family family l ∙ s.bound) (cc (l.same, s.same_binding)) in
      looked ∙ locked ∙ ap (answer d) key
    where
      answer : Db → ℕ → Result CredentialError ExchangeResult × Db
      answer d k = (err invalid_grant, revoke_families (is_family k) (env.wall 0) d)

pub coalesce_some : (o : Option ℕ) (now : ℕ) → is_some (coalesce o now) ≡ true
coalesce_some none now = refl
coalesce_some (some t) now = refl

pub unbound_of :
    (lib : Libs) (instant : ℕ) (client : Text) (binding : Option Text)
    → check_binding lib none instant client binding ≡ ok tt
    → binding ≡ none
unfolding check_binding
unbound_of lib instant client binding h = ground arith

record IsEnded (lib : Libs) (env env' : Ambient Db) (req : RotateRequest) (later_db : Db)
    (family_id : ℕ) : Type 0 where
  pub old : MemberRow
  pub filed : member_by_hash (lib.sha256 req.raw) later_db ≡ some old
  pub same_family : old.family_id ≡ family_id
  pub token :
      IsToken lib
        (env.secret 0)
        (env.uuid 0)
        family_id
        (rotate_refresh_bound lib env' none req later_db).1
  pub dead : IsDeadFamily family_id (rotate_refresh_bound lib env' none req later_db).1
  pub answer : rotate_refresh_bound lib env' none req later_db ≡ (
    err invalid_grant,
    revoke_families (is_family family_id) (env'.wall 0) (env'.others 0 later_db),
  )

module _ (lib : Libs) (env env' : Ambient Db) (req : RotateRequest) (db later_db : Db)
    {r : ExchangeResult} {after : Db} (fair : IsFair lib env) (fair' : IsFair lib env')
    (steps : Reach lib after later_db) where
  -- When a refresh token has been rotated, and any steps have been made since, no further rotation
  -- of the same secret succeeds, whatever the request and the registry, where what gets in between
  -- the reads and the locks of the two calls are steps too.
  pub rotate_once :
      (registry registry' : Option ClientRegistry) (req' : RotateRequest)
      → req'.raw ≡ req.raw
      → rotate_refresh_bound lib env registry req db ≡ (ok r, after)
      → (r' : ExchangeResult) (after' : Db)
      → rotate_refresh_bound lib env' registry' req' later_db ≢ (ok r', after')
  rotate_once registry registry' req' same won r' after' =
      let (id, family_id, binding, s, _, _) = rotate-IsSucceeded lib env registry req db fair won in
      let s' =
        IsSucceeded-Evolves lib req (env.secret 0) binding id (env.uuid 0) family_id
          (Reach-Evolves steps) s in
      IsSpentMember-refuses lib env' registry' req' later_db fair' id family_id
        (rw same s'.old_token) s'.spent

  rotate-IsEnded :
      rotate_refresh_bound lib env none req db ≡ (ok r, after)
      → (family_id : ℕ) × IsEnded lib env env' req later_db family_id
        × (r.refresh_token ≡ some (env.secret 0))
  rotate-IsEnded won =
      let (id, family_id, binding, s0, checked, given) =
        rotate-IsSucceeded lib env none req db fair won in
      let s =
        IsSucceeded-Evolves lib req (env.secret 0) binding id (env.uuid 0) family_id
          (Reach-Evolves steps) s0 in
      let unbound : binding ≡ none = unbound_of lib (env.instant 0) req.client_id binding checked in
      let d = env'.others 0 later_db in
      let answer = replay lib env' req later_db fair' (unbound_s unbound s) in
      let token =
        IsToken-Evolves (Reach-Evolves (fair' 0 later_db)) lib (env.secret 0) (env.uuid 0) family_id
          s.new_token in
      let token' =
        IsToken-Evolves (revoke_families-Evolves (is_family family_id) (env'.wall 0) d) lib
          (env.secret 0) (env.uuid 0) family_id token in
      let (family, found, l) =
        family_later (Reach-Evolves (fair' 0 later_db)) family_id s.family_found in
      let key = family_by_id-key family_id d found in
      let dead : IsDeadFamily family_id (revoke_families (is_family family_id) (env'.wall 0) d) =
        record {
          row = revoke_family_row (env'.wall 0) family;
          found =
              revoke_families-found (is_family family_id) family_id (env'.wall 0) d found
                ((nat_beq_iff family.id family_id).1 key);
          dead = coalesce_some family.revoked_at (env'.wall 0);
        } in
      (
        family_id,
        record {
          old = s.old_token.row;
          filed = s.old_token.filed;
          same_family = s.old_token.same_family;
          token = rw answer token';
          dead = rw answer dead;
          answer = answer;
        },
        given,
      )
    where
      unbound_s :
          {binding : Option Text} {id family_id : ℕ}
          → binding ≡ none
          → IsSucceeded lib req (env.secret 0) binding id (env.uuid 0) family_id later_db
          → IsSucceeded lib req (env.secret 0) none id (env.uuid 0) family_id later_db
      unbound_s {id} {family_id} e s =
          subst (λ b. IsSucceeded lib req (env.secret 0) b id (env.uuid 0) family_id later_db) e s

  -- When a token has been rotated through `rotate_refresh`, and any steps have been made since, the
  -- same request is refused with `invalid_grant`. All that it commits is that the family of the
  -- token is revoked: the family of the one row that the hash of the secret finds, which is revoked
  -- afterwards.
  pub rotate_replay :
      rotate_refresh_bound lib env none req db ≡ (ok r, after)
      → (token : MemberRow) × (member_by_hash (lib.sha256 req.raw) later_db ≡ some token)
        × (rotate_refresh_bound lib env' none req later_db ≡ (
          err invalid_grant,
          revoke_families (is_family token.family_id) (env'.wall 0) (env'.others 0 later_db),
        ))
        × IsDeadFamily token.family_id (rotate_refresh_bound lib env' none req later_db).1
  rotate_replay won =
      let (family_id, e, _) = rotate-IsEnded won in
      (e.old, e.filed, rw e.same_family e.answer, rw e.same_family e.dead)

  -- When a token has been used twice through `rotate_refresh`, the first time with success, and any
  -- steps have been made between and since, the successor that the first use was given is not
  -- rotated.
  pub rotate_replay_ends :
      (env'' : Ambient Db) (registry : Option ClientRegistry) (req'' : RotateRequest) (end : Db)
      → IsFair lib env''
      → rotate_refresh_bound lib env none req db ≡ (ok r, after)
      → r.refresh_token ≡ some req''.raw
      → Reach lib (rotate_refresh_bound lib env' none req later_db).1 end
      → (r'' : ExchangeResult) (after'' : Db)
      → rotate_refresh_bound lib env'' registry req'' end ≢ (ok r'', after'')
  rotate_replay_ends env'' registry req'' end fair'' won given more r'' after'' =
      let (family_id, e, issued) = rotate-IsEnded won in
      let same : req''.raw ≡ env.secret 0 = cc (given, issued) in
      let token =
        IsToken-Evolves (Reach-Evolves more) lib (env.secret 0) (env.uuid 0) family_id e.token in
      IsDeadFamily-refuses lib env'' registry req'' end fair'' (env.uuid 0) family_id
        (rw same token) (IsDeadFamily-Evolves (Reach-Evolves more) family_id e.dead)
