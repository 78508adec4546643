-- ===== src/Credentials/Exchange/Replay.antt =====
-- credentials.rs: the second use of an authorization code is refused, and ends the refresh tokens
-- that the first use was given.
use eri.Common.{
  ℕ, Text, Option, none, some, is_some, true, Result, ok, err, ◌≡◌, ◌≢◌, refl, ◌∙◌, ap, arith,
  nat_beq_iff,
}
use eri.External.{Libs}
use eri.Oauth.Registry.{ClientRegistry}
use eri.Store.{
  Db, FamilyRow, CodeRow, SessionRow, code_by_id, code_by_hash, session_by_id, family_by_id,
  consume_code, revoke_families, revoke_family_row, of_code,
}
use eri.Store.Evolution.{Evolves, Evolves-trans}
use eri.Store.Evolution.Keys.{
  session_later, code_later, family_later, code_by_id-key, revoke_families-found,
}
use eri.Store.Evolution.Steps.{revoke_families-Evolves}
use eri.Store.Evolution.Insertions.{insert_member-Evolves}
use eri.Store.Evolution.Inserted.{insert_family-found, insert_member-found}
use eri.Transaction.{Ambient, ◌>>=◌, settle}
use eri.Credentials.Types.{CredentialError, database, invalid_grant, ExchangeResult, check_binding}
use eri.Credentials.Exchange.{
  ExchangeRequest, binds_code, family_row, member_row, replay_code, exchange_locked,
  exchange_code_bound,
}
use eri.Credentials.Exchange.Success.{IsStarted, no_family, one_family}
use eri.Credentials.Exchange.SingleUse.{
  IsSpent, IsSpent-Evolves, binds_code-Later, exchange-IsSpent,
}
use eri.Credentials.Refresh.{RotateRequest, rotate_refresh_bound}
use eri.Credentials.Refresh.Rotation.{IsToken, IsDeadFamily, IsToken-Evolves, IsDeadFamily-Evolves}
use eri.Credentials.Refresh.SingleUse.{IsDeadFamily-refuses}
use eri.Credentials.Refresh.Replay.{unbound_of, coalesce_some}
use eri.Steps.{Reach, IsFair}
use eri.Steps.Interleaving.{Reach-Evolves}

module _ (lib : Libs) (env : Ambient Db) (req : ExchangeRequest) (db : Db) where
  -- The transaction at a code that is spent.
  replay_locked :
      (first code : CodeRow) (session : SessionRow)
      → session_by_id first.session_id db ≡ some session
      → code_by_id first.id db ≡ some code
      → code.session_id ≡ first.session_id
      → is_some code.consumed_at ≡ true
      → binds_code lib req code ≡ true
      → code.cimd_binding ≡ none
      → settle db (exchange_locked lib env none req first db)
        ≡ (err invalid_grant, revoke_families (of_code code.id) (env.wall 0) db)
  unfolding exchange_locked replay_code check_binding ◌>>=◌
  replay_locked first code session s c same used bound unbound =
      ground (arith, nat_beq_iff code.session_id first.session_id)

  looked_up :
      (first : CodeRow)
      → code_by_hash (lib.sha256 req.raw) db ≡ some first
      → binds_code lib req first ≡ true
      → exchange_code_bound lib env none req db
        ≡ settle (env.others 0 db) (exchange_locked lib env none req first (env.others 0 db))
  unfolding exchange_code_bound
  looked_up first filed bound = ground arith

module _ (lib : Libs) (env : Ambient Db) (req : ExchangeRequest) (db : Db) where
  replay :
      {code : CodeRow}
      → IsFair lib env
      → IsSpent lib req code db
      → binds_code lib req code ≡ true
      → code.cimd_binding ≡ none
      → exchange_code_bound lib env none req db
        ≡ (err invalid_grant, revoke_families (of_code code.id) (env.wall 0) (env.others 0 db))
  replay {code} fair s bound unbound =
      let d = env.others 0 db in
      let met = Reach-Evolves (fair 0 db) in
      let (row, found, l) = code_later met code.id s.found in
      let (session, session_found, _) = session_later met code.session_id s.session_found in
      let key : row.id ≡ code.id = code_by_id-key code.id d found in
      let again : binds_code lib req row ≡ true =
        binds_code-Later lib req s.row row l
        ∙ binds_code-Later lib req code s.row (record { same = s.same; spent = λ _. s.used })
        ∙ bound in
      looked_up lib env req db s.first s.filed s.first_bound
      ∙ replay_locked lib env req d s.first row session (rw s.same_session session_found)
          (rw s.same_id found) (cc (l.same, s.same, s.same_session)) (l.spent s.used) again
          (cc (l.same, s.same, unbound))
      ∙ ap answer key
    where
      answer : ℕ → Result CredentialError ExchangeResult × Db
      answer k = (err invalid_grant, revoke_families (of_code k) (env.wall 0) (env.others 0 db))

-- The tokens that an exchange has given: of a family that came of the code.
record IsGiven (lib : Libs) (raw : Text) (id family_id code_id : ℕ) (db : Db) : Type 0 where
  pub token : IsToken lib raw id family_id db
  pub family : FamilyRow
  pub family_found : family_by_id family_id db ≡ some family
  pub source : family.source_code_id ≡ code_id

IsGiven-Evolves :
    (lib : Libs) (raw : Text) (id family_id code_id : ℕ) {a b : Db}
    → Evolves a b
    → IsGiven lib raw id family_id code_id a
    → IsGiven lib raw id family_id code_id b
IsGiven-Evolves lib raw id family_id code_id e g =
    let (family, found, l) = family_later e family_id g.family_found in
    record {
      token = IsToken-Evolves e lib raw id family_id g.token;
      family = family;
      family_found = found;
      source = cc (l.same, g.source);
    }

IsGiven-of_IsStarted :
    (lib : Libs) (env : Ambient Db) (code : CodeRow) (session : SessionRow) (db : Db) (raw : Text)
    (after : Db)
    → IsStarted lib env code session db (some raw) after
    → IsGiven lib raw (env.uuid 1) (env.uuid 0) code.id after
IsGiven-of_IsStarted lib env code session db raw after (no_family _ absent _) = cc
IsGiven-of_IsStarted lib env code session db raw after (one_family mid _ family member same) =
    let f = family_row lib (env.uuid 0) code session (env.wall 0) in
    let m = member_row lib (env.uuid 1) (env.secret 0) (env.uuid 0) (env.wall 0) in
    let (kept, found, l) =
      family_later (insert_member-Evolves database m mid after member) (env.uuid 0)
        (insert_family-found database f db mid family) in
    let is : raw ≡ env.secret 0 = cc same in
    record {
      token = record {
        row = m;
        filed = rw is (insert_member-found database m mid after member).0;
        same_id = refl;
        same_family = refl;
      };
      family = kept;
      family_found = found;
      source = cc l.same;
    }

-- A family that came of the code is revoked with the code's families.
IsDeadFamily-of_code :
    (family_id code_id now : ℕ) (db : Db) (family : FamilyRow)
    → family_by_id family_id db ≡ some family
    → family.source_code_id ≡ code_id
    → IsDeadFamily family_id (revoke_families (of_code code_id) now db)
IsDeadFamily-of_code family_id code_id now db family found source = record {
  row = revoke_family_row now family;
  found =
      revoke_families-found (of_code code_id) family_id now db found
        ((nat_beq_iff family.source_code_id code_id).1 source);
  dead = coalesce_some family.revoked_at now;
}

module _ (lib : Libs) (env env' : Ambient Db) (req : ExchangeRequest) (db later_db : Db)
    {r : ExchangeResult} {after : Db} (fair : IsFair lib env) (fair' : IsFair lib env')
    (steps : Reach lib after later_db)
    (won : exchange_code_bound lib env none req db ≡ (ok r, after)) where
  -- When a code has been exchanged through `exchange_code`, and any steps have been made since, the
  -- same request is refused with `invalid_grant`. All that it commits is that the families that came
  -- of the code are revoked: of the row that the hash of the secret finds, and each of them is
  -- revoked afterwards.
  pub exchange_replay :
      (code : CodeRow) × (code_by_hash (lib.sha256 req.raw) later_db ≡ some code)
      × (exchange_code_bound lib env' none req later_db ≡ (
        err invalid_grant,
        revoke_families (of_code code.id) (env'.wall 0) (env'.others 0 later_db),
      ))
      × ((family_id : ℕ) (family : FamilyRow)
          → family_by_id family_id (env'.others 0 later_db) ≡ some family
          → family.source_code_id ≡ code.id
          → IsDeadFamily family_id (exchange_code_bound lib env' none req later_db).1)
  exchange_replay =
      let (code, spent, bound, checked, met, _) = exchange-IsSpent lib env none req db fair won in
      let later = IsSpent-Evolves lib req code (Reach-Evolves steps) spent in
      let answer =
        replay lib env' req later_db {code = code} fair' later bound
          (unbound_of lib (env.instant 0) req.client_id code.cimd_binding checked) in
      (
        later.first,
        later.filed,
        rw later.same_id answer,
        λ family_id family found source. rw answer (
            IsDeadFamily-of_code family_id code.id (env'.wall 0) (env'.others 0 later_db) family
              found (source ∙ later.same_id)),
      )

  -- When a code has been used twice through `exchange_code`, the first time with success, and any
  -- steps have been made between and since, the refresh token that the first use was given is not
  -- rotated.
  pub exchange_replay_ends :
      (env'' : Ambient Db) (registry : Option ClientRegistry) (req'' : RotateRequest) (end : Db)
      → IsFair lib env''
      → r.refresh_token ≡ some req''.raw
      → Reach lib (exchange_code_bound lib env' none req later_db).1 end
      → (r'' : ExchangeResult) (after'' : Db)
      → rotate_refresh_bound lib env'' registry req'' end ≢ (ok r'', after'')
  exchange_replay_ends env'' registry req'' end fair'' given more r'' after'' =
      let (code, spent, bound, checked, met, (session, started)) =
        exchange-IsSpent lib env none req db fair won in
      let d = env'.others 0 later_db in
      let answer =
        replay lib env' req later_db {code = code} fair'
          (IsSpent-Evolves lib req code (Reach-Evolves steps) spent) bound
          (unbound_of lib (env.instant 0) req.client_id code.cimd_binding checked) in
      let g =
        IsGiven-Evolves lib req''.raw (env.uuid 1) (env.uuid 0) code.id
          (Evolves-trans (Reach-Evolves steps) (Reach-Evolves (fair' 0 later_db)))
          (IsGiven-of_IsStarted lib env code session
            (consume_code code.id (env.wall 0) (env.others 0 db)) req''.raw after
            (rw (← given) started)) in
      let last : Evolves (revoke_families (of_code code.id) (env'.wall 0) d) end =
        rw (← ap (λ (t : Result CredentialError ExchangeResult × Db). t.1) answer)
          (Reach-Evolves more) in
      let all = Evolves-trans (revoke_families-Evolves (of_code code.id) (env'.wall 0) d) last in
      IsDeadFamily-refuses lib env'' registry req'' end fair'' (env.uuid 1) (env.uuid 0)
        (IsToken-Evolves all lib req''.raw (env.uuid 1) (env.uuid 0) g.token)
        (IsDeadFamily-Evolves last (env.uuid 0) (
          IsDeadFamily-of_code (env.uuid 0) code.id (env'.wall 0) d g.family g.family_found
            g.source))
