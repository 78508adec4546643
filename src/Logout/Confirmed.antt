-- ===== src/Logout/Confirmed.antt =====
-- logout.rs: what a logout that is confirmed shows of the session, the challenge and the hint.
use eri.Common.{
  ℕ, ◌+◌, ◌≤◌, ◌<◌, ◌≡◌, ◌⊎◌, inl, inr, refl, ap, sym, ◌∙◌, subst, arith, Text, true, false, not,
  ◌&&◌, is_empty, Option, none, some, List, [], ◌∷◌, In, any-In, find-In, update_where, nat_beq,
  nat_beq_iff, text_beq_iff, text_eq, ◌==◌, ok, Option-cases, Bool-cases, is_some_and,
}
use eri.Common.HashMap
use eri.External.{Libs}
use eri.Oauth.Types.{LogoutFlow}
use eri.Oauth.Client.{FirstPartyClient}
use eri.Oauth.Registry.{ClientRegistry, valid_post_logout_redirect, allows_id_token_logout}
use eri.Store.{
  Db, SessionRow, ChallengeRow, FamilyRow, session_by_id, family_by_id, of_session, revoke_families,
  revoke_session, revoke_family_row,
}
use eri.Store.Evolution.Keys.{revoke_families-found}
use eri.Transaction.{Ambient, settle}
use eri.Credentials.Types.{ProviderSession}
use eri.Credentials.Refresh.Rotation.{IsDeadSession, IsDeadFamily}
use eri.Credentials.Refresh.Replay.{coalesce_some}
use eri.Logout.{
  LogoutChallenge, LogoutOutcome, IdClaims, timestamp, clock_skew_seconds, is_challenge,
  refuses_hint, doubts_hint, consume_challenge, consume_challenge_row, close_session, finish_inner,
}
use eri.Logout.Closed.{finish_inner-IsConfirmed, close_session-IsDeadSession}

-- The client has registered the redirect for logouts, or the logout is the server's own.
abbrev pub IsRegistered : ClientRegistry → ChallengeRow → Type 0
IsRegistered registry row =
    (row.client_id ≡ [])
    ⊎ ((client : FirstPartyClient) × (HashMap.get row.client_id registry.clients ≡ some client)
        × In row.post_logout_redirect_uri client.post_logout_redirects)

IsRegistered-of :
    (registry : ClientRegistry) (row : ChallengeRow)
    → (not (is_empty row.client_id)
        && not (valid_post_logout_redirect registry row.client_id row.post_logout_redirect_uri))
      ≡ false
    → IsRegistered registry row
unfolding valid_post_logout_redirect
IsRegistered-of registry row h = elim (Bool-cases (is_empty row.client_id)) [
  | inl own ↦ inl (empty row.client_id own)
  | inr of_client ↦ elim (Option-cases (HashMap.get row.client_id registry.clients)) [
    | inl missing ↦ absurd (ground arith)
    | inr (client, found) ↦
        let (uri, listed, same) =
          any-In (λ r. r == row.post_logout_redirect_uri) client.post_logout_redirects
            (ground arith) in
        inr (
          client,
          found,
          subst (λ t. In t client.post_logout_redirects)
              ((text_beq_iff uri row.post_logout_redirect_uri).0 same) listed,
        )
  ]
]
  where
    empty : (t : Text) → is_empty t ≡ true → t ≡ []
    empty [] e = refl
    empty (x ∷ xs) e = cc

-- Every row that the update is for has been consumed.
consume-all :
    (id now : ℕ) (rows : List ChallengeRow) (r : ChallengeRow)
    → In r (update_where (λ (c : ChallengeRow). nat_beq c.id id) (consume_challenge_row now) rows)
    → r.id ≡ id
    → r.consumed_at ≡ some now
unfolding update_where
consume-all id now [] r i same = absurd i
consume-all id now (c ∷ rows) r (inr i) same = consume-all id now rows r i same
consume-all id now (c ∷ rows) r (inl e) same = elim (Bool-cases (nat_beq c.id id)) [
  | inl hit ↦
      let is : consume_challenge_row now c ≡ r = ground arith in
      ap (λ (x : ChallengeRow). x.consumed_at) (sym is)
  | inr miss ↦
      let is : c ≡ r = ground arith in
      let here : c.id ≡ id = ap (λ (x : ChallengeRow). x.id) is ∙ same in
      absurd (ground (arith, (nat_beq_iff c.id id).1 here))
]

-- What a hint shows that is trusted.
pub record IsTrusted (now : ℕ) (registry : ClientRegistry) (session : ProviderSession)
    (session_row : SessionRow) (row : ChallengeRow) (hint : IdClaims) : Type 0 where
  pub audience : hint.aud ≡ row.client_id
  pub lasting : hint.iat < hint.exp
  pub past : hint.iat ≤ timestamp now + clock_skew_seconds
  pub client : FirstPartyClient
  pub registered : HashMap.get row.client_id registry.clients ≡ some client
  pub flow : client.logout_flow ≡ LogoutFlow.id_token_hint
  pub same_user : hint.sub ≡ session_row.user_id
  pub same_session : hint.sid ≡ some session.id
  pub recent : timestamp session_row.auth_time ≤ hint.iat + clock_skew_seconds

allows-cases :
    (registry : ClientRegistry) (client_id : Text)
    → allows_id_token_logout registry client_id ≡ true
    → (client : FirstPartyClient) × (HashMap.get client_id registry.clients ≡ some client)
      × (client.logout_flow ≡ LogoutFlow.id_token_hint)
unfolding allows_id_token_logout
allows-cases registry client_id h = elim (Option-cases (HashMap.get client_id registry.clients)) [
  | inl missing ↦ absurd (ground arith)
  | inr (client, found) ↦ (client, found, ground arith)
]

IsTrusted-of :
    (now : ℕ) (registry : ClientRegistry) (session : ProviderSession) (session_row : SessionRow)
    (row : ChallengeRow) (hint : IdClaims)
    → refuses_hint now row hint ≡ false
    → doubts_hint registry session session_row row hint ≡ false
    → IsTrusted now registry session session_row row hint
unfolding doubts_hint
IsTrusted-of now registry session session_row row hint passed trusted =
    let (client, registered, flow) = allows-cases registry row.client_id (ground arith) in
    record {
      audience = (text_beq_iff hint.aud row.client_id).0 (ground arith);
      lasting = ground arith;
      past = ground arith;
      client = client;
      registered = registered;
      flow = flow;
      same_user = (nat_beq_iff hint.sub session_row.user_id).0 (ground arith);
      same_session = sid-of hint.sid (ground arith);
      recent = ground arith;
    }
  where
    sid-of :
        (sid : Option ℕ)
        → is_some_and (λ s. nat_beq s session.id) sid ≡ true
        → sid ≡ some session.id
    sid-of none h = cc
    sid-of (some s) h = ap some ((nat_beq_iff s session.id).0 h)

challenges-closed :
    (challenge_id session_id now : ℕ) (db : Db)
    → (close_session challenge_id session_id now db).challenges
      ≡ update_where
          (λ (c : ChallengeRow). nat_beq c.id challenge_id)
          (consume_challenge_row now)
          db.challenges
unfolding close_session consume_challenge revoke_session revoke_families
challenges-closed challenge_id session_id now db = refl

families-close :
    (challenge_id session_id now family_id : ℕ) (db : Db) (family : FamilyRow)
    → family_by_id family_id db ≡ some family
    → family.session_id ≡ session_id
    → IsDeadFamily family_id (close_session challenge_id session_id now db)
unfolding close_session
families-close challenge_id session_id now family_id db family found same =
    let before = revoke_session session_id now (consume_challenge challenge_id now db) in
    record {
      row = revoke_family_row now family;
      found =
          revoke_families-found (of_session session_id) family_id now before (kept found)
            ((nat_beq_iff family.session_id session_id).1 same);
      dead = coalesce_some family.revoked_at now;
    }
  where
    kept :
        family_by_id family_id db ≡ some family
        → family_by_id family_id
            (revoke_session session_id now (consume_challenge challenge_id now db))
          ≡ some family
    kept h = unfold family_by_id revoke_session consume_challenge in h

module _ (lib : Libs) (env : Ambient Db) (session : ProviderSession) (challenge : LogoutChallenge)
    (registry : ClientRegistry) (hint : Option IdClaims) (db after : Db)
    (outcome : LogoutOutcome) where
  pub record IsLoggedOut : Type 0 where
    pub session_row : SessionRow
    pub row : ChallengeRow
    -- the session and the challenge, under the locks
    pub session_found : session_by_id session.id db ≡ some session_row
    pub not_revoked : session_row.revoked_at ≡ none
    pub session_unexpired : env.wall 0 < session_row.expires_at
    pub listed : In row db.challenges
    pub same_challenge : row.id ≡ challenge.id
    pub same_session : row.session_id ≡ session.id
    pub same_token : row.csrf_hash ≡ lib.sha256 challenge.csrf
    pub unused : row.consumed_at ≡ none
    pub unexpired : env.wall 0 < row.expires_at
    pub registered : IsRegistered registry row
    pub trusted :
        (given : IdClaims)
        → hint ≡ some given
        → IsTrusted (env.wall 0) registry session session_row row given
    -- the answer, and what is written
    pub redirect : outcome.redirect_uri ≡ row.post_logout_redirect_uri
    pub state : outcome.state ≡ row.downstream_state
    pub ended : IsDeadSession session.id after
    pub families_ended :
        (family_id : ℕ) (family : FamilyRow)
        → family_by_id family_id db ≡ some family
        → family.session_id ≡ session.id
        → IsDeadFamily family_id after
    pub used :
        (r : ChallengeRow)
        → In r after.challenges
        → r.id ≡ challenge.id
        → r.consumed_at ≡ some (env.wall 0)

  -- When a logout is confirmed, the session is stored, not revoked and unexpired; the challenge is of that session and that token, unused and unexpired, and its redirect is one that its client has registered for logouts, unless the challenge has no client. A token hint has the client as its audience, is not of the future by more than 30 seconds and expires after it was issued, and the client may log out by such hints; it is of the session's user and of the session, and was issued no more than 30 seconds before the login. The redirect and the state of the answer are those of the challenge, which is then consumed; the session and all its refresh families are revoked.
  pub finish_checks :
      settle db (finish_inner lib env session challenge registry hint db)
        ≡ (ok (some outcome), after)
      → IsLoggedOut
  finish_checks run =
      let c =
        finish_inner-IsConfirmed lib env session challenge registry hint db after outcome run in
      let (listed, same) =
        find-In (is_challenge challenge.id session.id (lib.sha256 challenge.csrf)) db.challenges
          c.row_found in
      let now = env.wall 0 in
      record {
        session_row = c.session_row;
        row = c.row;
        session_found = c.session_found;
        not_revoked = ground (arith, c.passed);
        session_unexpired = ground (arith, c.passed);
        listed = listed;
        same_challenge = (nat_beq_iff c.row.id challenge.id).0 (ground arith);
        same_session = (nat_beq_iff c.row.session_id session.id).0 (ground arith);
        same_token = (text_beq_iff c.row.csrf_hash (lib.sha256 challenge.csrf)).0 (ground arith);
        unused = ground (arith, c.passed);
        unexpired = ground (arith, c.passed);
        registered = IsRegistered-of registry c.row (ground (arith, c.passed));
        trusted = λ given is.
            IsTrusted-of now registry session c.session_row c.row given
              (ground (arith, c.hint_passed)) (ground (arith, c.hint_trusted));
        redirect = c.redirect;
        state = c.state;
        ended = subst (IsDeadSession session.id) (sym c.closed) (
            close_session-IsDeadSession challenge.id session.id now db c.session_row
              c.session_found);
        families_ended = λ family_id family found of_it.
            subst (IsDeadFamily family_id) (sym c.closed)
              (families-close challenge.id session.id now family_id db family found of_it);
        used = λ r at is.
            consume-all challenge.id now db.challenges r
              (subst (λ rs. In r rs)
                (ap (λ (d : Db). d.challenges) c.closed
                  ∙ challenges-closed challenge.id session.id now db)
                at)
              is;
      }
