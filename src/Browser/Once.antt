-- ===== src/Browser/Once.antt =====
-- browser.rs: a consent is approved once at most.
use eri.Common.{
  Option, subst, ℕ, Text, true, some, any, any-of_In, find-In, nat_beq, ok, ◌≡◌, ◌≢◌, refl, arith,
}
use eri.External.{Libs}
use eri.Oauth.Registry.{ClientRegistry}
use eri.Store.{Db, BrowserRow, CodeRow, awaiting_consent, insert_code}
use eri.Store.Evolution.{IsOver}
use eri.Transaction.{done, ◌>>=◌, settle, Ambient}
use eri.Transaction.Ensures.{done-Ensures, settle-eq-ok}
use eri.Credentials.Types.{ProviderSession}
use eri.Browser.Types.{database, ConsentHandle, ConsentOutcome}
use eri.Browser.Rows.{browser_where, awaits_consent}
use eri.Browser.Consent.{approve_consent, approve_pre_authorized, approved_row}
use eri.Browser.Ended.{found-other, stage_beq-open, IsOver-of_update}
use eri.Browser.Approval.{
  IsApproved, IsPreApproved, IsAnswered, asks, issues, approve_consent-Ensures,
  approve_pre_authorized-Ensures,
}
use eri.Steps.{Reach}
use eri.Steps.Interleaving.{Reach-Evolves}

insert_code-browser :
    {E : Type 0} (failure : E) (row : CodeRow) (db after : Db)
    → insert_code failure row db ≡ done after
    → after.browser ≡ db.browser
unfolding insert_code ◌>>=◌
insert_code-browser failure row db after h = ground arith

-- A consent that waits is of a transaction that is there, and has not ended.
module _ (id session_id : ℕ) (csrf_hash : Text) (db : Db) (row : BrowserRow)
    (found : browser_where (awaits_consent id session_id csrf_hash) db ≡ some row) where
  pub waits : awaits_consent id session_id csrf_hash row ≡ true
  unfolding browser_where
  waits = (find-In (awaits_consent id session_id csrf_hash) db.browser found).1

  waits-present : any (λ (r : BrowserRow). nat_beq r.id id) db.browser ≡ true
  unfolding browser_where
  waits-present =
      any-of_In (λ (r : BrowserRow). nat_beq r.id id) db.browser row
        (find-In (awaits_consent id session_id csrf_hash) db.browser found).0
        (ground (arith, waits))

  waits-not_over : IsOver id db.browser → ⊥
  waits-not_over o =
      let open_stage = stage_beq-open row.stage awaiting_consent refl (ground (arith, waits)) in
      let other =
        found-other id (awaits_consent id session_id csrf_hash) db row o found open_stage in
      ground (arith, waits, other)

-- An approval ends its transaction.
pub approve_consent-IsOver :
    (lib : Libs) (env : Ambient Db) (registry : ClientRegistry) (session : ProviderSession)
    (handle : ConsentHandle) (db after : Db) (o : ConsentOutcome)
    → IsApproved lib env registry session handle db o after
    → IsOver handle.transaction_id after.browser
approve_consent-IsOver lib env registry session handle db after o e =
    let there =
      waits-present handle.transaction_id session.id (lib.sha256 handle.csrf) db e.row
        e.row_found in
    let same = insert_code-browser database _ db e.with_code e.inserted in
    rw e.closed (
      IsOver-of_update handle.transaction_id approved_row (λ r. refl) (λ r. refl) e.with_code
        (rw same there))

-- What an approval that commits has checked and written.
pub approve_consent-IsApproved :
    (lib : Libs) (env : Ambient Db) (registry : ClientRegistry) (session : ProviderSession)
    (handle : ConsentHandle) (db after : Db) (o : ConsentOutcome)
    → settle db (approve_consent lib env registry session handle db) ≡ (ok o, after)
    → IsApproved lib env registry session handle db o after
approve_consent-IsApproved lib env registry session handle db after o h =
    done-Ensures {R = λ _. Unit {0}} (approve_consent-Ensures lib env registry session handle db)
      (settle-eq-ok db (approve_consent lib env registry session handle db) h)

-- When an approval has committed, and any steps have been made since, no further approval commits
-- for the same transaction, whatever the session, the token and the registry.
pub approve_once :
    (lib : Libs) (env env' : Ambient Db) (registry registry' : ClientRegistry)
    (session session' : ProviderSession) (handle handle' : ConsentHandle) (db after later_db : Db)
    (o : ConsentOutcome)
    → settle db (approve_consent lib env registry session handle db) ≡ (ok o, after)
    → Reach lib after later_db
    → handle'.transaction_id ≡ handle.transaction_id
    → (o' : ConsentOutcome) (after' : Db)
    → settle later_db (approve_consent lib env' registry' session' handle' later_db)
      ≢ (ok o', after')
approve_once lib env env' registry registry' session session' handle handle' db after later_db o won
      steps same o' after' again =
    let e = approve_consent-IsApproved lib env registry session handle db after o won in
    let over =
      (Reach-Evolves steps).over handle.transaction_id
        (approve_consent-IsOver lib env registry session handle db after o e) in
    let e' =
      approve_consent-IsApproved lib env' registry' session' handle' later_db after' o' again in
    waits-not_over handle'.transaction_id session'.id (lib.sha256 handle'.csrf) later_db e'.row
      e'.row_found (rw same over)

issued :
    {lib : Libs} {env : Ambient Db} {registry : ClientRegistry} {session : ProviderSession}
    {handle : ConsentHandle} {db : Db} {answer : Option ConsentOutcome} {o : ConsentOutcome}
    {after : Db}
    → answer ≡ some o
    → IsAnswered lib env registry session handle db answer after
    → IsPreApproved lib env registry session handle db o after
issued same (asks absent _) = cc
issued {lib} {env} {registry} {session} {handle} {db} {after} same (issues p given e) =
    subst (λ x. IsPreApproved lib env registry session handle db x after) (cc (same, given)) e

-- The same, for a code that is issued without asking.
pub approve_pre_authorized-IsPreApproved :
    (lib : Libs) (env : Ambient Db) (registry : ClientRegistry) (session : ProviderSession)
    (handle : ConsentHandle) (db after : Db) (o : ConsentOutcome)
    → settle db (approve_pre_authorized lib env registry session handle db) ≡ (ok (some o), after)
    → IsPreApproved lib env registry session handle db o after
approve_pre_authorized-IsPreApproved lib env registry session handle db after o h = issued refl (
    done-Ensures {R = λ _. Unit {0}}
      (approve_pre_authorized-Ensures lib env registry session handle db)
      (settle-eq-ok db (approve_pre_authorized lib env registry session handle db) h))

-- When an approval has committed, and any steps have been made since, no code is issued without
-- asking for the same transaction either.
pub pre_approve_once :
    (lib : Libs) (env env' : Ambient Db) (registry registry' : ClientRegistry)
    (session session' : ProviderSession) (handle handle' : ConsentHandle) (db after later_db : Db)
    (o : ConsentOutcome)
    → settle db (approve_consent lib env registry session handle db) ≡ (ok o, after)
    → Reach lib after later_db
    → handle'.transaction_id ≡ handle.transaction_id
    → (o' : ConsentOutcome) (after' : Db)
    → settle later_db (approve_pre_authorized lib env' registry' session' handle' later_db)
      ≢ (ok (some o'), after')
pre_approve_once lib env env' registry registry' session session' handle handle' db after later_db o
      won steps same o' after' again =
    let e = approve_consent-IsApproved lib env registry session handle db after o won in
    let over =
      (Reach-Evolves steps).over handle.transaction_id
        (approve_consent-IsOver lib env registry session handle db after o e) in
    let e' =
      (approve_pre_authorized-IsPreApproved lib env' registry' session' handle' later_db after' o'
        again).approved in
    waits-not_over handle'.transaction_id session'.id (lib.sha256 handle'.csrf) later_db e'.row
      e'.row_found (rw same over)
