-- ===== src/Credentials/Refresh.antt =====
-- credentials.rs: the rotation and the revocation of refresh tokens, and logout.
pub mod Success
pub mod Rotation
pub mod SingleUse
pub mod Replay
pub mod Logout
use eri.Common.{
  ℕ, ◌+◌, Text, Bool, true, false, not, ◌&&◌, ◌||◌, Option, none, some, List, [], ◌∷◌, is_some,
  is_some_and, find, ◌==◌, text_eq, nat_eq, nat_beq, Result, ok, err, if◌then◌else◌,
}
use eri.External.{Libs}
use eri.Oauth.Registry.{ClientRegistry, permits_refresh}
use eri.Store.{
  Db, SessionRow, FamilyRow, MemberRow, elapsed, session_by_id, family_by_id, member_by_id,
  member_by_hash, insert_member, consume_member, revoke_families, revoke_session, is_family,
  of_session,
}
use eri.Transaction.{
  Outcome, done, abort, commit_and_fail, ◌>>=◌, ◌>>◌, abort_if, found_or, lock, attempt, settle,
  Ambient, later,
}
use eri.Credentials.Types.{
  CredentialError, invalid_grant, database, ProviderSession, ExchangeResult, Tx, check_binding,
}
use eri.Credentials.Exchange.{member_row, differs_from, scopes_differ}

-- The arguments of `rotate_refresh`.
pub record RotateRequest : Type 0 where
  pub raw : Text
  pub client_id : Text
  pub resource : Text

-- `TokenLookup`, from the join of the members with their families
pub record TokenLookup : Type 0 where
  pub id : ℕ
  pub family_id : ℕ
  pub session_id : ℕ
  pub client_id : Text
  pub scopes : List Text
  pub resource : Text

module _ (lib : Libs) where
  unfoldable pub lookup_token : Text → Db → Option TokenLookup
  lookup_token raw db = elim (member_by_hash (lib.sha256 raw) db) [
    | none ↦ none
    | some m ↦ elim (family_by_id m.family_id db) [
      | none ↦ none
      | some f ↦ some (record {
        id = m.id;
        family_id = f.id;
        session_id = f.session_id;
        client_id = f.client_id;
        scopes = f.scopes;
        resource = f.resource;
      })
    ]
  ]

  -- The bindings of a family to its request.
  unfoldable pub binds_family : RotateRequest → FamilyRow → Bool
  binds_family req family = family.client_id == req.client_id && family.resource == req.resource

  -- The answer to a token that has been used: its family is revoked, and that is committed.
  unfoldable pub replay_token :
      Ambient Db
      → Option ClientRegistry
      → RotateRequest
      → TokenLookup
      → FamilyRow
      → Db
      → Tx (ExchangeResult × Db)
  replay_token env registry req lookup family db = do
    attempt (check_binding lib registry (env.instant 2) req.client_id family.cimd_binding)
    commit_and_fail invalid_grant (revoke_families (is_family lookup.family_id) (env.wall 0) db)

  unfoldable pub issue_successor :
      Ambient Db
      → Option ClientRegistry
      → RotateRequest
      → TokenLookup
      → SessionRow
      → FamilyRow
      → Db
      → Tx (ExchangeResult × Db)
  issue_successor env registry req lookup session family db = do
    abort_if
        (is_some family.revoked_at
          || is_some session.revoked_at
          || elapsed family.expires_at (env.wall 0)
          || elapsed session.expires_at (env.wall 0))
        invalid_grant
    with_successor ←
        insert_member database
          (member_row lib (env.uuid 0) (env.secret 0) lookup.family_id (env.wall 0)) db
    let after = consume_member lookup.id (env.wall 0) (env.uuid 0) with_successor
    attempt (check_binding lib registry (env.instant 2) req.client_id family.cimd_binding)
    done (
      record {
        session_id = lookup.session_id;
        user_id = session.user_id;
        client_id = family.client_id;
        scopes = family.scopes;
        resource = family.resource;
        refresh_token = some (env.secret 0);
        oidc_nonce = none;
        upstream_auth_time = family.upstream_auth_time;
      },
      after,
    )

  -- `registry.is_some_and(|registry| !registry.permits_refresh(…))`
  abbrev pub refuses_refresh : Option ClientRegistry → Text → FamilyRow → Bool
  refuses_refresh registry client_id family =
      is_some_and (λ reg. not (permits_refresh reg client_id family.scopes family.resource))
        registry

  -- The part under the lock of the session.
  unfoldable pub rotate_locked :
      Ambient Db
      → Option ClientRegistry
      → RotateRequest
      → TokenLookup
      → Db
      → Tx (ExchangeResult × Db)
  rotate_locked env registry req lookup db = do
    session ← found_or (session_by_id lookup.session_id db) database
    family ← found_or (family_by_id lookup.family_id db) database
    member ← found_or (member_by_id lookup.id db) database
    abort_if (not (binds_family req family)) invalid_grant
    attempt (check_binding lib registry (env.instant 0) req.client_id family.cimd_binding)
    abort_if (refuses_refresh registry req.client_id family) invalid_grant
    attempt (check_binding lib registry (env.instant 1) req.client_id family.cimd_binding)
    if is_some member.consumed_at
        then replay_token env registry req lookup family db
        else issue_successor env registry req lookup session family db

  unfoldable pub rotate_refresh_bound :
      Ambient Db
      → Option ClientRegistry
      → RotateRequest
      → Db
      → Result CredentialError ExchangeResult × Db
  rotate_refresh_bound env registry req db = elim (lookup_token req.raw db) [
    | none ↦ (err invalid_grant, db)
    | some lookup ↦
        settle (env.others 0 db) (rotate_locked env registry req lookup (env.others 0 db))
  ]

  abbrev pub rotate_refresh :
      Ambient Db → RotateRequest → Db → Result CredentialError ExchangeResult × Db
  rotate_refresh env req db = rotate_refresh_bound env none req db

  -- The resource of `req` is not used: the stored one takes its place.
  unfoldable pub rotate_refresh_request :
      Ambient Db
      → RotateRequest
      → Option Text
      → Option (List Text)
      → ClientRegistry
      → Db
      → Result CredentialError ExchangeResult × Db
  rotate_refresh_request env req resource scopes registry db = elim (lookup_token req.raw db) [
    | none ↦ (err invalid_grant, db)
    | some stored ↦
        if not (stored.client_id == req.client_id)
          || differs_from lib resource stored.resource
          || scopes_differ lib scopes stored.scopes
          || not (permits_refresh registry req.client_id stored.scopes stored.resource)
        then (err invalid_grant, db)
        else rotate_refresh_bound (record env { others = λ k. env.others (k + 1) }) (some registry)
            (record req { resource = stored.resource }) (env.others 0 db)
  ]

  unfoldable pub revoke_locked : Ambient Db → TokenLookup → Db → Tx (Unit × Db)
  revoke_locked env lookup db = do
    lock (session_by_id lookup.session_id db) database
    lock (family_by_id lookup.family_id db) database
    done (tt, revoke_families (is_family lookup.family_id) (env.wall 0) db)

  -- An unknown token, or another client's, changes nothing and is no error.
  unfoldable pub revoke_refresh :
      Ambient Db → Text → Text → Db → Result CredentialError (Unit {0}) × Db
  revoke_refresh env raw client_id db = elim (lookup_token raw db) [
    | none ↦ (ok tt, db)
    | some lookup ↦
        if not (lookup.client_id == client_id)
        then (ok tt, db)
        else settle (env.others 0 db) (revoke_locked env lookup (env.others 0 db))
  ]

-- One reading of `clock_timestamp()` stands for those of the families' rows.
unfoldable pub logout_locked : Ambient Db → ℕ → Db → Tx (Unit × Db)
logout_locked env session_id db = do
  lock (session_by_id session_id db) database
  let revoked = revoke_session session_id (env.wall 0) db
  done (tt, revoke_families (of_session session_id) (env.wall 1) revoked)

unfoldable pub logout : Ambient Db → ProviderSession → Db → Result CredentialError (Unit {0}) × Db
logout env session db = settle (env.others 0 db) (logout_locked env session.id (env.others 0 db))
