-- ===== src/Store.antt =====
-- The tables of the migrations, as the code reads and writes them. Identifiers are numbers, and
-- times are microseconds. A primary key or a UNIQUE column refuses a repeated value.
pub mod Evolution
use Prim.Native.Nat.{compare, Ordering}
use eri.Common.{
  ℕ, ◌+◌, ◌*◌, Text, Bool, true, false, ◌||◌, ◌&&◌, Option, none, some, List, [], ◌∷◌, any, find,
  update_where, nat_beq, ◌==◌, text_eq, is_some, if◌then◌else◌,
}
use eri.Transaction.{Outcome, done, abort, abort_if, ◌>>◌, ◌>>=◌}

-- `provider_sessions`
pub record SessionRow : Type 0 where
  pub id : ℕ
  pub token_hash : Text
  pub user_id : ℕ
  pub auth_time : ℕ
  pub expires_at : ℕ
  pub revoked_at : Option ℕ
  pub upstream_auth_time : Option ℕ

-- `authorization_codes`
pub record CodeRow : Type 0 where
  pub id : ℕ
  pub code_hash : Text
  pub session_id : ℕ
  pub client_id : Text
  pub redirect_uri : Text
  pub scopes : List Text
  pub resource : Text
  pub code_challenge : Text
  pub issue_refresh_token : Bool
  pub issued_at : ℕ
  pub expires_at : ℕ
  pub consumed_at : Option ℕ
  pub oidc_nonce : Option Text
  pub upstream_auth_time : Option ℕ
  pub cimd_binding : Option Text

-- `refresh_families`
pub record FamilyRow : Type 0 where
  pub id : ℕ
  pub source_code_id : ℕ
  pub session_id : ℕ
  pub user_id : ℕ
  pub client_id : Text
  pub scopes : List Text
  pub resource : Text
  pub issued_at : ℕ
  pub expires_at : ℕ
  pub revoked_at : Option ℕ
  pub upstream_auth_time : Option ℕ
  pub cimd_binding : Option Text

-- `refresh_token_members`
pub record MemberRow : Type 0 where
  pub id : ℕ
  pub family_id : ℕ
  pub token_hash : Text
  pub issued_at : ℕ
  pub consumed_at : Option ℕ
  pub successor_id : Option ℕ

-- The stages of `browser_authorizations`.
pub data Stage : Type 0 where
  awaiting_start awaiting_google callback_claimed awaiting_consent : Stage
  approved denied failed expired : Stage

-- `browser_authorizations`
pub record BrowserRow : Type 0 where
  pub id : ℕ
  pub stage : Stage
  pub upstream_state_hash : Option Text
  pub browser_binding_hash : Option Text
  pub upstream_nonce : Option Text
  pub upstream_verifier : Option Text
  pub claim_hash : Option Text
  pub csrf_hash : Option Text
  pub session_id : Option ℕ
  pub client_id : Text
  pub redirect_uri : Text
  pub scopes : List Text
  pub resource : Text
  pub code_challenge : Text
  pub downstream_state : Option Text
  pub oidc_nonce : Option Text
  pub cimd_binding : Option Text
  pub allow_pre_authorization : Bool
  pub created_at : ℕ
  pub expires_at : ℕ

-- `logout_challenges`
pub record ChallengeRow : Type 0 where
  pub id : ℕ
  pub csrf_hash : Text
  pub session_id : ℕ
  pub client_id : Text
  pub post_logout_redirect_uri : Text
  pub downstream_state : Option Text
  pub created_at : ℕ
  pub expires_at : ℕ
  pub consumed_at : Option ℕ

-- `external_identities`, whose issuer is always Google's
pub record IdentityRow : Type 0 where
  pub subject : Text
  pub user_id : ℕ

-- `user_profiles`
pub record ProfileRow : Type 0 where
  pub user_id : ℕ
  pub name : Option Text
  pub given_name : Option Text
  pub family_name : Option Text
  pub picture : Option Text
  pub verified_email : Option Text
  pub updated_at : ℕ

pub record Db : Type 0 where
  pub sessions : List SessionRow
  pub codes : List CodeRow
  pub families : List FamilyRow
  pub members : List MemberRow
  pub browser : List BrowserRow
  pub challenges : List ChallengeRow
  pub identities : List IdentityRow
  pub profiles : List ProfileRow

abbrev pub seconds : ℕ → ℕ
seconds n = n * 1_000_000

abbrev pub days : ℕ → ℕ
days n = seconds (n * 86_400)

-- `COALESCE(revoked_at, now)`
abbrev pub coalesce : Option ℕ → ℕ → Option ℕ
coalesce none now = some now
coalesce (some t) now = some t

-- `expires_at <= now`
abbrev pub elapsed : ℕ → ℕ → Bool
elapsed expires_at now = elim (compare expires_at now) [ Ordering.gt ↦ false | _ ↦ true ]

-- The queries by a key.
unfoldable pub session_by_id : ℕ → Db → Option SessionRow
session_by_id id db = find (λ (r : SessionRow). nat_beq r.id id) db.sessions

unfoldable pub session_by_hash : Text → Db → Option SessionRow
session_by_hash h db = find (λ (r : SessionRow). r.token_hash == h) db.sessions

unfoldable pub code_by_id : ℕ → Db → Option CodeRow
code_by_id id db = find (λ (r : CodeRow). nat_beq r.id id) db.codes

unfoldable pub code_by_hash : Text → Db → Option CodeRow
code_by_hash h db = find (λ (r : CodeRow). r.code_hash == h) db.codes

unfoldable pub family_by_id : ℕ → Db → Option FamilyRow
family_by_id id db = find (λ (r : FamilyRow). nat_beq r.id id) db.families

unfoldable pub member_by_id : ℕ → Db → Option MemberRow
member_by_id id db = find (λ (r : MemberRow). nat_beq r.id id) db.members

unfoldable pub member_by_hash : Text → Db → Option MemberRow
member_by_hash h db = find (λ (r : MemberRow). r.token_hash == h) db.members

-- The insertions, which fail with the error of the driver at a repeated key.
module _ {E : Type 0} (database : E) where
  unfoldable pub insert_session : SessionRow → Db → Outcome E Db Db
  insert_session row db =
      abort_if (is_some (session_by_id row.id db) || is_some (session_by_hash row.token_hash db))
        database
      >> done (record db { sessions = row ∷ db.sessions })

  unfoldable pub insert_code : CodeRow → Db → Outcome E Db Db
  insert_code row db =
      abort_if (is_some (code_by_id row.id db) || is_some (code_by_hash row.code_hash db)) database
      >> done (record db { codes = row ∷ db.codes })

  unfoldable pub insert_family : FamilyRow → Db → Outcome E Db Db
  insert_family row db =
      abort_if
        (is_some (family_by_id row.id db)
          || any (λ (r : FamilyRow). nat_beq r.source_code_id row.source_code_id) db.families)
        database
      >> done (record db { families = row ∷ db.families })

  unfoldable pub insert_member : MemberRow → Db → Outcome E Db Db
  insert_member row db =
      abort_if (is_some (member_by_id row.id db) || is_some (member_by_hash row.token_hash db))
        database
      >> done (record db { members = row ∷ db.members })

-- The updates.
abbrev pub consume_code_row : ℕ → CodeRow → CodeRow
consume_code_row now r = record r { consumed_at = some now }

unfoldable pub consume_code : ℕ → ℕ → Db → Db
consume_code id now db = record db {
  codes = update_where (λ (r : CodeRow). nat_beq r.id id) (consume_code_row now) db.codes;
}

abbrev pub revoke_family_row : ℕ → FamilyRow → FamilyRow
revoke_family_row now r = record r { revoked_at = coalesce r.revoked_at now }

unfoldable pub revoke_families : (FamilyRow → Bool) → ℕ → Db → Db
revoke_families which now db = record db {
  families = update_where which (revoke_family_row now) db.families;
}

abbrev pub consume_member_row : ℕ → ℕ → MemberRow → MemberRow
consume_member_row now successor r = record r {
  consumed_at = some now;
  successor_id = some successor;
}

unfoldable pub consume_member : ℕ → ℕ → ℕ → Db → Db
consume_member id now successor db = record db {
  members =
      update_where (λ (r : MemberRow). nat_beq r.id id) (consume_member_row now successor)
        db.members;
}

abbrev pub revoke_session_row : ℕ → SessionRow → SessionRow
revoke_session_row now r = record r { revoked_at = coalesce r.revoked_at now }

unfoldable pub revoke_session : ℕ → ℕ → Db → Db
revoke_session id now db = record db {
  sessions =
      update_where (λ (r : SessionRow). nat_beq r.id id) (revoke_session_row now) db.sessions;
}

abbrev pub of_code : ℕ → FamilyRow → Bool
of_code id r = nat_beq r.source_code_id id

abbrev pub of_session : ℕ → FamilyRow → Bool
of_session id r = nat_beq r.session_id id

abbrev pub is_family : ℕ → FamilyRow → Bool
is_family id r = nat_beq r.id id
