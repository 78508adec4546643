-- ===== src/Web/UserInfo/Disclosed.antt =====
-- web.rs: what the user information endpoint discloses, and to whom.
use eri.Common.{
  ℕ, ◌+◌, ◌≤◌, ◌<◌, ◌≡◌, Text, bytes, true, false, Option, some, List, In, any-In, find-In, nat_beq,
  nat_beq_iff, ◌==◌, text_eq, text_beq_iff, ok, split, arith, subst, sym, ap, ◌∙◌, Option-cases,
  Result-cases, inl, inr, Bool-cases,
}
use eri.External.{Libs}
use eri.Store.{Db, ProfileRow}
use eri.Tokens.{AccessClaims}
use eri.Web.Form.{Form, HeaderMap, bearer, origin}
use eri.Web.Provider.{Provider}
use eri.Web.Token.{foreign_origin}
use eri.Web.UserInfo.{
  UserInfo, skew, bad_access, has_scope, bad_scopes, under, user_profile, disclose, read_form,
  userinfo,
}

In-of_has_scope :
    (scope : Text) (scopes : List Text) → has_scope scope scopes ≡ true → In scope scopes
In-of_has_scope scope scopes h =
    let (s, at, same) = any-In (λ s. s == scope) scopes h in
    subst (λ t. In t scopes) ((text_beq_iff s scope).0 same) at

In-of_under :
    (scope : Text) (scopes : List Text) (stored : Option Text) (shown : Text)
    → under (has_scope scope scopes) stored ≡ some shown
    → In scope scopes × (stored ≡ some shown)
In-of_under scope scopes stored shown h = elim (Bool-cases (has_scope scope scopes)) [
  | inl granted ↦ (In-of_has_scope scope scopes granted, ground arith)
  | inr missing ↦ absurd (ground arith)
]

module _ (lib : Libs) (verify : Text → Text → Text → Option AccessClaims) (p : Provider)
    (headers : HeaderMap) (body : Text) (now : ℕ) (db : Db) where
  -- The token behind a disclosure, and what is disclosed by its scopes.
  pub record IsDisclosed (info : UserInfo) : Type 0 where
    pub form : Form
    pub token : Text
    pub claims : AccessClaims
    pub profile : ProfileRow
    pub read : read_form lib verify body ≡ ok form
    pub sent : bearer headers form ≡ some token
    pub verified : verify token p.issuer p.userinfo ≡ some claims
    pub unexpired : now < claims.exp + skew
    pub past : claims.iat ≤ now + skew
    pub openid : In (bytes "openid") (split b' ' claims.scope)
    pub known_origin : foreign_origin p headers claims.client_id ≡ false
    pub same_user : info.sub ≡ claims.sub
    pub of_user : profile.user_id ≡ claims.sub
    pub stored : In profile db.profiles
    pub name :
        (shown : Text)
        → info.name ≡ some shown
        → In (bytes "profile") (split b' ' claims.scope) × (profile.name ≡ some shown)
    pub email :
        (shown : Text)
        → info.email ≡ some shown
        → In (bytes "email") (split b' ' claims.scope) × (profile.verified_email ≡ some shown)

  userinfo-parts :
      (info : UserInfo) (allowed : Option Text)
      → userinfo lib verify p headers body now db ≡ ok (info, allowed)
      → (form : Form) × (token : Text) × (claims : AccessClaims) × (profile : ProfileRow)
        × (read_form lib verify body ≡ ok form)
        × (bearer headers form ≡ some token)
        × (verify token p.issuer p.userinfo ≡ some claims)
        × (bad_access claims now ≡ false)
        × (bad_scopes (split b' ' claims.scope) ≡ false)
        × (foreign_origin p headers claims.client_id ≡ false)
        × (user_profile claims.sub db ≡ some profile)
        × (disclose claims (split b' ' claims.scope) profile ≡ info)
        × (origin headers ≡ allowed)
  unfolding userinfo
  userinfo-parts info allowed run = elim (Result-cases (read_form lib verify body)) [
    | inr (e, refused) ↦ absurd (ground arith)
    | inl (form, read) ↦ elim (Option-cases (bearer headers form)) [
      | inl missing ↦ absurd (ground arith)
      | inr (token, sent) ↦ elim (Option-cases (verify token p.issuer p.userinfo)) [
        | inl refused ↦ absurd (ground arith)
        | inr (claims, verified) ↦ elim (Option-cases (user_profile claims.sub db)) [
          | inl unknown ↦ absurd (ground arith)
          | inr (profile, found) ↦ (
            form,
            token,
            claims,
            profile,
            read,
            sent,
            verified,
            ground arith,
            ground arith,
            ground arith,
            found,
            ground arith,
            ground arith,
          )
        ]
      ]
    ]
  ]

  profile-of :
      (user_id : ℕ) (profile : ProfileRow)
      → user_profile user_id db ≡ some profile
      → In profile db.profiles × (profile.user_id ≡ user_id)
  unfolding user_profile
  profile-of user_id profile found =
      let (at, same) = find-In (λ (r : ProfileRow). nat_beq r.user_id user_id) db.profiles found in
      (at, (nat_beq_iff profile.user_id user_id).0 same)

  -- User information is given only for a verified token of this issuer and endpoint, unexpired and issued in the past within 30 seconds, with the scope openid, and to no foreign origin. It is that of the token's subject, with a name only under the scope profile and a verified e-mail address only under the scope email.
  pub userinfo-IsDisclosed :
      (info : UserInfo) (allowed : Option Text)
      → userinfo lib verify p headers body now db ≡ ok (info, allowed)
      → IsDisclosed info × (origin headers ≡ allowed)
  userinfo-IsDisclosed info allowed run =
      let (
        form, token, claims, profile, read, sent, verified, good, scopes, known, found, shown, cors,
      ) =
        userinfo-parts info allowed run in
      let (at, user) = profile-of claims.sub profile found in
      let granted = split b' ' claims.scope in
      (
        record {
          form = form;
          token = token;
          claims = claims;
          profile = profile;
          read = read;
          sent = sent;
          verified = verified;
          unexpired = ground arith;
          past = ground arith;
          openid = In-of_has_scope (bytes "openid") granted (ground arith);
          known_origin = known;
          same_user = ap (λ (i : UserInfo). i.sub) (sym shown);
          of_user = user;
          stored = at;
          name = λ n h.
              In-of_under (bytes "profile") granted profile.name n
                (ap (λ (i : UserInfo). i.name) shown ∙ h);
          email = λ n h.
              In-of_under (bytes "email") granted profile.verified_email n
                (ap (λ (i : UserInfo). i.email) shown ∙ h);
        },
        cors,
      )
