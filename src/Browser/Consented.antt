-- ===== src/Browser/Consented.antt =====
-- browser.rs: what an approval shows of the session, the transaction, the policy and the code.
use eri.Common.{
  ℕ, ◌+◌, ◌≤◌, ◌<◌, ◌≡◌, inl, inr, refl, ap, sym, ◌∙◌, arith, Text, bytes, true, false, Option,
  none, some, ◌∷◌, In, find-In, nat_beq_iff, text_beq_iff, ok, Option-cases,
}
use eri.Common.SortedSet.{collect, contains}
use eri.External.{Libs}
use eri.Oauth.Registry.{ClientRegistry}
use eri.Oauth.Policy.{PendingAuthorizationGrant}
use eri.Oauth.Policy.Consent.{approve_grants, SkipsConsent, pre_authorizes_only}
use eri.Store.{
  Db, BrowserRow, SessionRow, CodeRow, Stage, awaiting_consent, seconds, session_by_id,
  code_by_hash, insert_code,
}
use eri.Store.Evolution.{IsOver}
use eri.Transaction.{done, ◌>>=◌, settle, Ambient}
use eri.Credentials.Types.{ProviderSession}
use eri.Credentials.Issue.{code_row}
use eri.Browser.Types.{database, ConsentHandle, ConsentOutcome, is_stale}
use eri.Browser.Rows.{
  browser_where, awaits_consent, update_browser, has_number, has_text, stage_beq,
}
use eri.Browser.Consent.{approve_consent, approve_pre_authorized}
use eri.Browser.Approval.{IsApproved}
use eri.Browser.Once.{
  approve_consent-IsOver, approve_consent-IsApproved, approve_pre_authorized-IsPreApproved,
}
use eri.Browser.Revalidation.{IsBound, Admits, map_err-ok, revalidate-IsBound, revalidate-Admits}

awaits_consent-facts :
    (id session_id : ℕ) (csrf_hash : Text) (r : BrowserRow)
    → awaits_consent id session_id csrf_hash r ≡ true
    → (r.id ≡ id)
      × (r.session_id ≡ some session_id)
      × (r.csrf_hash ≡ some csrf_hash)
      × (r.stage ≡ awaiting_consent)
awaits_consent-facts id session_id csrf_hash r h = (
  ground arith,
  has_number-of r.session_id (ground arith),
  has_text-of r.csrf_hash (ground arith),
  stage-of r.stage (ground arith),
)
  where
    has_number-of :
        (column : Option ℕ) → has_number session_id column ≡ true → column ≡ some session_id
    has_number-of none h = cc
    has_number-of (some k) h = ap some ((nat_beq_iff k session_id).0 h)

    has_text-of :
        (column : Option Text) → has_text csrf_hash column ≡ true → column ≡ some csrf_hash
    has_text-of none h = cc
    has_text-of (some t) h = ap some ((text_beq_iff t csrf_hash).0 h)

    stage-of : (s : Stage) → stage_beq s awaiting_consent ≡ true → s ≡ awaiting_consent
    stage-of awaiting_consent h = refl
    stage-of _ h = ground arith

insert_code-adds :
    {E : Type 0} (failure : E) (row : CodeRow) (db after : Db)
    → insert_code failure row db ≡ done after
    → (after.codes ≡ row ∷ db.codes) × (code_by_hash row.code_hash db ≡ none)
unfolding insert_code ◌>>=◌
insert_code-adds failure row db after h = elim (Option-cases (code_by_hash row.code_hash db)) [
  | inl new ↦ (ground arith, new)
  | inr (r, there) ↦ absurd (ground arith)
]

module _ (lib : Libs) (env : Ambient Db) (registry : ClientRegistry) (session : ProviderSession)
    (handle : ConsentHandle) (db : Db) where
  -- The session and the transaction, at a time.
  pub record IsLive (now : ℕ) (session_row : SessionRow) (row : BrowserRow) : Type 0 where
    pub not_revoked : session_row.revoked_at ≡ none
    pub session_unexpired : now < session_row.expires_at
    pub unexpired : now < row.expires_at

  -- A code that has been issued for a session and a transaction. `db` is the state under the locks.
  pub record IsConsented (outcome : ConsentOutcome) (after : Db) (session_row : SessionRow)
      (row : BrowserRow) (pending current : PendingAuthorizationGrant) : Type 0 where
    pub code : CodeRow
    pub session_found : session_by_id session.id db ≡ some session_row
    pub live : IsLive (env.wall 0) session_row row
    -- the transaction
    pub listed : In row db.browser
    pub same_transaction : row.id ≡ handle.transaction_id
    pub same_session : row.session_id ≡ some session.id
    pub same_token : row.csrf_hash ≡ some (lib.sha256 handle.csrf)
    pub waiting : row.stage ≡ awaiting_consent
    -- the policy, before the code is written and after
    pub bound : IsBound lib registry row
    pub admitted : Admits lib (env.instant 1) registry row pending
    pub still_admitted : Admits lib (env.instant 4) registry row current
    -- the code
    pub stored : after.codes ≡ code ∷ db.codes
    pub new : code_by_hash code.code_hash db ≡ none
    pub hash : code.code_hash ≡ lib.sha256 outcome.code
    pub of_session : code.session_id ≡ session_row.id
    pub client : code.client_id ≡ pending.client_id
    pub redirect : code.redirect_uri ≡ row.redirect_uri
    pub scopes : code.scopes ≡ collect row.scopes
    pub resource : code.resource ≡ row.resource
    pub challenge : code.code_challenge ≡ row.code_challenge
    pub nonce : code.oidc_nonce ≡ row.oidc_nonce
    pub refresh : code.issue_refresh_token ≡ contains (collect row.scopes) (bytes "offline_access")
    pub unused : code.consumed_at ≡ none
    pub short_lived : code.expires_at ≤ env.wall 1 + seconds 60
    pub within_session : code.expires_at ≤ session_row.expires_at
    -- the end of the transaction, and the answer
    pub ended : IsOver handle.transaction_id after.browser
    pub answered : outcome.redirect_uri ≡ row.redirect_uri
    pub state : outcome.downstream_state ≡ row.downstream_state

  IsLive-of_fresh :
      (now : ℕ) (session_row : SessionRow) (row : BrowserRow)
      → is_stale now session_row (some row.expires_at) ≡ false
      → IsLive now session_row row
  IsLive-of_fresh now session_row row fresh = record {
    not_revoked = ground arith;
    session_unexpired = ground arith;
    unexpired = ground arith;
  }

  IsConsented-of_IsApproved :
      (outcome : ConsentOutcome) (after : Db)
      (a : IsApproved lib env registry session handle db outcome after)
      → IsConsented outcome after a.session_row a.row a.pending a.current
  unfolding update_browser browser_where
  IsConsented-of_IsApproved outcome after a =
      let which = awaits_consent handle.transaction_id session.id (lib.sha256 handle.csrf) in
      let (listed, waiting) = find-In which db.browser a.row_found in
      let (same_transaction, same_session, same_token, stage) =
        awaits_consent-facts handle.transaction_id session.id (lib.sha256 handle.csrf) a.row
          waiting in
      let (_, admitted, client, redirect, scopes, resource, challenge) =
        revalidate-Admits lib (env.instant 0) (env.instant 1) registry a.row a.pending a.valid in
      let (_, g_client, g_redirect, g_scopes, g_resource, g_challenge, _, refresh, _) =
        approve_grants (env.instant 2) a.pending true a.grant (map_err-ok _ a.grant a.consented) in
      let code =
        code_row lib (env.uuid 0) (env.secret 0) (env.wall 1) a.session_row a.grant a.row.oidc_nonce
          a.session_row.upstream_auth_time 60 in
      let (added, new) = insert_code-adds database code db a.with_code a.inserted in
      record {
        code = code;
        session_found = a.session_found;
        live = IsLive-of_fresh (env.wall 0) a.session_row a.row a.live;
        listed = listed;
        same_transaction = same_transaction;
        same_session = same_session;
        same_token = same_token;
        waiting = stage;
        bound =
            revalidate-IsBound lib (env.instant 0) (env.instant 1) registry a.row a.pending a.valid;
        admitted =
            revalidate-Admits lib (env.instant 0) (env.instant 1) registry a.row a.pending a.valid;
        still_admitted =
            revalidate-Admits lib (env.instant 3) (env.instant 4) registry a.row a.current
              a.still_valid;
        stored = ap (λ (d : Db). d.codes) a.closed ∙ added;
        new = new;
        hash = ap lib.sha256 (sym a.code);
        of_session = refl;
        client = g_client;
        redirect = g_redirect ∙ redirect;
        scopes = g_scopes ∙ scopes;
        resource = g_resource ∙ resource;
        challenge = g_challenge ∙ challenge;
        nonce = refl;
        refresh = refresh ∙ ap (λ xs. contains xs (bytes "offline_access")) scopes;
        unused = refl;
        short_lived = grind arith;
        within_session = grind arith;
        ended = approve_consent-IsOver lib env registry session handle db after outcome a;
        answered = a.redirect;
        state = a.state;
      }

  -- A code that has been issued without asking.
  pub record IsUnasked (outcome : ConsentOutcome) (after : Db) : Type 0 where
    pub session_row : SessionRow
    pub row : BrowserRow
    pub pending : PendingAuthorizationGrant
    pub current : PendingAuthorizationGrant
    pub consented : IsConsented outcome after session_row row pending current
    pub recorded : row.allow_pre_authorization ≡ true
    pub skips : SkipsConsent registry pending
    pub still_skips : SkipsConsent registry current
    pub still_live : IsLive (env.wall 2) session_row row

  -- When an approval commits, its session is stored, not revoked and unexpired; its transaction is unexpired and waits for the consent of that session under that token. The policy in force for its client is the one that the transaction was bound to, and the registry admits its request before the code is written and after. One new code is stored, under the hash of the code that is answered: it is of the session, of the row's client, redirect, resource, challenge and nonce and its set of scopes, unused, with refresh tokens just if it has the scope offline_access, and expires within 60 seconds and no later than the session. The transaction has ended, and the answer is its redirect and state.
  pub approve_checks :
      (after : Db) (outcome : ConsentOutcome)
      → settle db (approve_consent lib env registry session handle db) ≡ (ok outcome, after)
      → (session_row : SessionRow) × (row : BrowserRow) × (pending : PendingAuthorizationGrant)
        × (current : PendingAuthorizationGrant) × IsConsented outcome after session_row row pending
            current
  approve_checks after outcome h =
      let e = approve_consent-IsApproved lib env registry session handle db after outcome h in
      (e.session_row, e.row, e.pending, e.current, IsConsented-of_IsApproved outcome after e)

  -- When a code is issued without asking the user, all that a consent shows holds, and more: the transaction records that it may be. The client is in the static policy, with a pre-authorized flow and the redirect as one that a verified application claims, and has the resource and the scopes, before the code is written and after; and after it the session is still not revoked and both it and the transaction are unexpired.
  pub pre_approve_checks :
      (after : Db) (outcome : ConsentOutcome)
      → settle db (approve_pre_authorized lib env registry session handle db)
        ≡ (ok (some outcome), after)
      → IsUnasked outcome after
  pre_approve_checks after outcome h =
      let e =
        approve_pre_authorized-IsPreApproved lib env registry session handle db after outcome h in
      record {
        session_row = e.approved.session_row;
        row = e.approved.row;
        pending = e.approved.pending;
        current = e.approved.current;
        consented = IsConsented-of_IsApproved outcome after e.approved;
        recorded = e.recorded;
        skips = pre_authorizes_only registry e.approved.pending e.allowed;
        still_skips = pre_authorizes_only registry e.approved.current e.still_allowed;
        still_live =
            IsLive-of_fresh (env.wall 2) e.approved.session_row e.approved.row e.still_live;
      }
