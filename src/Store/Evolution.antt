-- ===== src/Store/Evolution.antt =====
-- How the tables may change: in the credential tables, rows stay, their bindings stay, and what is
-- consumed or revoked stays so; and a browser transaction that has ended stays so.
pub mod Steps
pub mod Insertions
pub mod Rules
pub mod Keys
pub mod Inserted
use eri.Common.{
  ℕ, Text, Bool, true, false, ◌&&◌, ◌||◌, Option, none, some, List, [], ◌∷◌, find, is_some, nat_beq,
  ◌==◌, text_eq, text_beq_iff, nat_beq_iff, ◌≡◌, refl, ◌∙◌, arith, if◌then◌else◌, any, all, not,
}
use eri.Common.Rows.{Persists, Persists-update, Persists-insert, Persists-refl, Persists-trans}
use eri.Transaction.{Outcome, done, abort, commit_and_fail, ◌>>=◌, abort_if}
use eri.Store.{
  Stage, awaiting_start, awaiting_google, callback_claimed, awaiting_consent, approved, denied,
  failed, expired, BrowserRow, SessionRow, CodeRow, FamilyRow, MemberRow, Db, coalesce,
  session_by_id, session_by_hash, code_by_id, code_by_hash, family_by_id, member_by_id,
  member_by_hash, insert_session, insert_code, insert_family, insert_member, consume_code_row,
  consume_code, revoke_family_row, revoke_families, consume_member_row, consume_member,
  revoke_session_row, revoke_session,
}

pub record SessionLater (r s : SessionRow) : Type 0 where
  pub same : s ≡ record r { revoked_at = s.revoked_at }
  pub kept : (t : ℕ) → r.revoked_at ≡ some t → s.revoked_at ≡ some t

pub record CodeLater (r s : CodeRow) : Type 0 where
  pub same : s ≡ record r { consumed_at = s.consumed_at }
  pub spent : is_some r.consumed_at ≡ true → is_some s.consumed_at ≡ true

pub record FamilyLater (r s : FamilyRow) : Type 0 where
  pub same : s ≡ record r { revoked_at = s.revoked_at }
  pub kept : (t : ℕ) → r.revoked_at ≡ some t → s.revoked_at ≡ some t

pub record MemberLater (r s : MemberRow) : Type 0 where
  pub same : s ≡ record r { consumed_at = s.consumed_at; successor_id = s.successor_id }
  pub spent : is_some r.consumed_at ≡ true → is_some s.consumed_at ≡ true

-- The queries by a key, as conditions on a row.
abbrev pub session_has_id : ℕ → SessionRow → Bool
session_has_id id r = nat_beq r.id id

abbrev pub session_has_hash : Text → SessionRow → Bool
session_has_hash h r = r.token_hash == h

abbrev pub code_has_id : ℕ → CodeRow → Bool
code_has_id id r = nat_beq r.id id

abbrev pub code_has_hash : Text → CodeRow → Bool
code_has_hash h r = r.code_hash == h

abbrev pub family_has_id : ℕ → FamilyRow → Bool
family_has_id id r = nat_beq r.id id

abbrev pub member_has_id : ℕ → MemberRow → Bool
member_has_id id r = nat_beq r.id id

abbrev pub member_has_hash : Text → MemberRow → Bool
member_has_hash h r = r.token_hash == h

-- The stages in which a browser transaction has ended.
abbrev pub is_final : Stage → Bool
is_final approved = true
is_final denied = true
is_final failed = true
is_final expired = true
is_final _ = false

-- There is a browser transaction of this identifier, and it has ended.
pub record IsOver (id : ℕ) (rows : List BrowserRow) : Type 0 where
  pub present : any (λ (r : BrowserRow). nat_beq r.id id) rows ≡ true
  pub ended : all (λ (r : BrowserRow). not (nat_beq r.id id) || is_final r.stage) rows ≡ true

pub record Evolves (a b : Db) : Type 0 where
  pub over : (id : ℕ) → IsOver id a.browser → IsOver id b.browser
  pub session_ids : (id : ℕ) → Persists SessionLater (session_has_id id) a.sessions b.sessions
  pub session_hashes : (h : Text) → Persists SessionLater (session_has_hash h) a.sessions b.sessions
  pub code_ids : (id : ℕ) → Persists CodeLater (code_has_id id) a.codes b.codes
  pub code_hashes : (h : Text) → Persists CodeLater (code_has_hash h) a.codes b.codes
  pub family_ids : (id : ℕ) → Persists FamilyLater (family_has_id id) a.families b.families
  pub member_ids : (id : ℕ) → Persists MemberLater (member_has_id id) a.members b.members
  pub member_hashes : (h : Text) → Persists MemberLater (member_has_hash h) a.members b.members

pub SessionLater-refl : (r : SessionRow) → SessionLater r r
SessionLater-refl r = record { same = refl; kept = λ t e. e }

pub CodeLater-refl : (r : CodeRow) → CodeLater r r
CodeLater-refl r = record { same = refl; spent = λ e. e }

pub FamilyLater-refl : (r : FamilyRow) → FamilyLater r r
FamilyLater-refl r = record { same = refl; kept = λ t e. e }

pub MemberLater-refl : (r : MemberRow) → MemberLater r r
MemberLater-refl r = record { same = refl; spent = λ e. e }

SessionLater-trans : (r s t : SessionRow) → SessionLater r s → SessionLater s t → SessionLater r t
SessionLater-trans r s t h k = record {
  same = cc (h.same, k.same);
  kept = λ x e. k.kept x (h.kept x e);
}

CodeLater-trans : (r s t : CodeRow) → CodeLater r s → CodeLater s t → CodeLater r t
CodeLater-trans r s t h k = record { same = cc (h.same, k.same); spent = λ e. k.spent (h.spent e) }

FamilyLater-trans : (r s t : FamilyRow) → FamilyLater r s → FamilyLater s t → FamilyLater r t
FamilyLater-trans r s t h k = record {
  same = cc (h.same, k.same);
  kept = λ x e. k.kept x (h.kept x e);
}

MemberLater-trans : (r s t : MemberRow) → MemberLater r s → MemberLater s t → MemberLater r t
MemberLater-trans r s t h k = record {
  same = cc (h.same, k.same);
  spent = λ e. k.spent (h.spent e);
}

pub Evolves-refl : (a : Db) → Evolves a a
Evolves-refl a = record {
  over = λ id h. h;
  session_ids = λ id. Persists-refl SessionLater (session_has_id id) a.sessions SessionLater-refl;
  session_hashes =
      λ h. Persists-refl SessionLater (session_has_hash h) a.sessions SessionLater-refl;
  code_ids = λ id. Persists-refl CodeLater (code_has_id id) a.codes CodeLater-refl;
  code_hashes = λ h. Persists-refl CodeLater (code_has_hash h) a.codes CodeLater-refl;
  family_ids = λ id. Persists-refl FamilyLater (family_has_id id) a.families FamilyLater-refl;
  member_ids = λ id. Persists-refl MemberLater (member_has_id id) a.members MemberLater-refl;
  member_hashes = λ h. Persists-refl MemberLater (member_has_hash h) a.members MemberLater-refl;
}

pub Evolves-trans : {a b c : Db} → Evolves a b → Evolves b c → Evolves a c
Evolves-trans {a} {b} {c} h k = record {
  over = λ id o. k.over id (h.over id o);
  session_ids = λ id.
      Persists-trans SessionLater (session_has_id id) a.sessions b.sessions c.sessions
        SessionLater-trans (h.session_ids id) (k.session_ids id);
  session_hashes = λ x.
      Persists-trans SessionLater (session_has_hash x) a.sessions b.sessions c.sessions
        SessionLater-trans (h.session_hashes x) (k.session_hashes x);
  code_ids = λ id.
      Persists-trans CodeLater (code_has_id id) a.codes b.codes c.codes CodeLater-trans
        (h.code_ids id) (k.code_ids id);
  code_hashes = λ x.
      Persists-trans CodeLater (code_has_hash x) a.codes b.codes c.codes CodeLater-trans
        (h.code_hashes x) (k.code_hashes x);
  family_ids = λ id.
      Persists-trans FamilyLater (family_has_id id) a.families b.families c.families
        FamilyLater-trans (h.family_ids id) (k.family_ids id);
  member_ids = λ id.
      Persists-trans MemberLater (member_has_id id) a.members b.members c.members MemberLater-trans
        (h.member_ids id) (k.member_ids id);
  member_hashes = λ x.
      Persists-trans MemberLater (member_has_hash x) a.members b.members c.members MemberLater-trans
        (h.member_hashes x) (k.member_hashes x);
}
