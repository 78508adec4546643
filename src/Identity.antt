-- ===== src/Identity.antt =====
-- google.rs and database.rs: the identity that a Google login has shown, and its row.
use eri.Common.{
  ℕ, Text, Option, none, some, List, ◌∷◌, any, find, update_where, nat_beq, ◌==◌, text_eq,
  if◌then◌else◌,
}
use eri.Store.{Db, IdentityRow, ProfileRow}

-- `VerifiedGoogleIdentity`; `auth_time` in microseconds, as it is stored
pub record VerifiedGoogleIdentity : Type 0 where
  pub subject : Text
  pub name : Option Text
  pub given_name : Option Text
  pub family_name : Option Text
  pub picture : Option Text
  pub verified_email : Option Text
  pub auth_time : Option ℕ

abbrev pub profile_of : VerifiedGoogleIdentity → ℕ → ℕ → ProfileRow
profile_of identity user now = record {
  user_id = user;
  name = identity.name;
  given_name = identity.given_name;
  family_name = identity.family_name;
  picture = identity.picture;
  verified_email = identity.verified_email;
  updated_at = now;
}

-- `INSERT … ON CONFLICT(user_id) DO UPDATE`
unfoldable pub upsert_profile : ProfileRow → List ProfileRow → List ProfileRow
upsert_profile row rows =
    if any (λ (r : ProfileRow). nat_beq r.user_id row.user_id) rows
    then update_where (λ (r : ProfileRow). nat_beq r.user_id row.user_id) (λ _. row) rows
    else row ∷ rows

-- The identity's user, known or new, and the profile.
unfoldable pub store_identity : Option IdentityRow → VerifiedGoogleIdentity → ℕ → ℕ → Db → ℕ × Db
store_identity (some row) identity fresh now db = (
  row.user_id,
  record db { profiles = upsert_profile (profile_of identity row.user_id now) db.profiles },
)
store_identity none identity fresh now db = (
  fresh,
  record db {
    identities = record { subject = identity.subject; user_id = fresh } ∷ db.identities;
    profiles = upsert_profile (profile_of identity fresh now) db.profiles;
  },
)

-- `upsert_verified_google_identity_tx`: `fresh` is the identifier that the table of users draws.
unfoldable pub upsert_identity : VerifiedGoogleIdentity → ℕ → ℕ → Db → ℕ × Db
upsert_identity identity fresh now db =
    store_identity (find (λ (r : IdentityRow). r.subject == identity.subject) db.identities)
      identity fresh now db
