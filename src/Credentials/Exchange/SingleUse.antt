-- ===== src/Credentials/Exchange/SingleUse.antt =====
-- credentials.rs: an authorization code is exchanged once at most, and what a second attempt does.
use eri.Common.{true, Option, some, is_some, ok, ◌≡◌, ◌≢◌, refl, ◌∙◌, arith, Option-cases, inl, inr}
use eri.External.{Libs}
use eri.Oauth.Registry.{ClientRegistry}
use eri.Store.{
  Db, CodeRow, SessionRow, code_by_id, code_by_hash, session_by_id, consume_code, consume_code_row,
}
use eri.Store.Evolution.{Evolves, CodeLater}
use eri.Store.Evolution.Steps.{consume_code-Evolves}
use eri.Store.Evolution.Keys.{
  session_later, code_later, code_hash_later, code_by_id-key, consume_code-found,
  consume_code-session,
}
use eri.Transaction.{settle, Ambient}
use eri.Transaction.Ensures.{settle-eq-ok, done-Ensures}
use eri.Credentials.Types.{ExchangeResult, check_binding}
use eri.Credentials.Exchange.{ExchangeRequest, binds_code, exchange_locked, exchange_code_bound}
use eri.Credentials.Exchange.Success.{
  IsExchanged, IsStarted, exchange_locked-Ensures, IsStarted-Evolves,
}
use eri.Steps.{Reach, IsFair}
use eri.Steps.Interleaving.{Reach-Evolves}

module _ (lib : Libs) (env : Ambient Db) (registry : Option ClientRegistry) (req : ExchangeRequest)
    (db : Db) {r : ExchangeResult} {after : Db} where
  -- When a code is exchanged, the row of the secret's hash was bound to the client, the redirect,
  -- the resource and the verifier of the request, both when first read and under the lock, where
  -- it was unused, unexpired and of a live session, and passed the policy of the registry. The
  -- result repeats the row, the code is consumed, and a family with its first token is added where
  -- the code carries one.
  pub exchange_checks :
      exchange_code_bound lib env registry req db ≡ (ok r, after)
      → (first : CodeRow) × (code_by_hash (lib.sha256 req.raw) db ≡ some first)
        × (binds_code lib req first ≡ true)
        × IsExchanged lib env registry req first (env.others 0 db) r after
  unfolding exchange_code_bound
  exchange_checks h = elim (Option-cases (code_by_hash (lib.sha256 req.raw) db)) [
    | inl missing ↦ absurd (ground arith)
    | inr (first, found) ↦
        let locked = exchange_locked lib env registry req first (env.others 0 db) in
        let done_locked = settle-eq-ok (env.others 0 db) locked (settled first found h) in
        (
          first,
          found,
          ground arith,
          done-Ensures (exchange_locked-Ensures lib env registry req first (env.others 0 db))
              done_locked,
        )
  ]
    where
      settled :
          (first : CodeRow)
          → code_by_hash (lib.sha256 req.raw) db ≡ some first
          → exchange_code_bound lib env registry req db ≡ (ok r, after)
          → settle (env.others 0 db) (exchange_locked lib env registry req first (env.others 0 db))
            ≡ (ok r, after)
      settled first found h = ground arith

-- A code that has been used: the row of the secret's hash names a code that is consumed, of a
-- session that is there.
pub record IsSpent (lib : Libs) (req : ExchangeRequest) (code : CodeRow) (db : Db) : Type 0 where
  pub first : CodeRow
  pub session : SessionRow
  pub row : CodeRow
  pub filed : code_by_hash (lib.sha256 req.raw) db ≡ some first
  pub first_bound : binds_code lib req first ≡ true
  pub same_id : first.id ≡ code.id
  pub same_session : first.session_id ≡ code.session_id
  pub found : code_by_id code.id db ≡ some row
  pub same : row ≡ record code { consumed_at = row.consumed_at }
  pub used : is_some row.consumed_at ≡ true
  pub session_found : session_by_id code.session_id db ≡ some session

pub binds_code-Later :
    (lib : Libs) (req : ExchangeRequest) (r s : CodeRow)
    → CodeLater r s
    → binds_code lib req s ≡ binds_code lib req r
unfolding binds_code
binds_code-Later lib req r s l = cc l.same

pub IsSpent-Evolves :
    (lib : Libs) (req : ExchangeRequest) (code : CodeRow) {a b : Db}
    → Evolves a b
    → IsSpent lib req code a
    → IsSpent lib req code b
IsSpent-Evolves lib req code e s =
    let (first, filed, f) = code_hash_later e (lib.sha256 req.raw) s.filed in
    let (row, found, r) = code_later e code.id s.found in
    let (session, session_found, t) = session_later e code.session_id s.session_found in
    record {
      first = first;
      session = session;
      row = row;
      filed = filed;
      first_bound = binds_code-Later lib req s.first first f ∙ s.first_bound;
      same_id = cc (f.same, s.same_id);
      same_session = cc (f.same, s.same_session);
      found = found;
      same = cc (r.same, s.same);
      used = r.spent s.used;
      session_found = session_found;
    }

module _ (lib : Libs) (env : Ambient Db) (registry : Option ClientRegistry) (req : ExchangeRequest)
    (db : Db) where
  pub exchange-IsSpent :
      {r : ExchangeResult} {after : Db}
      → IsFair lib env
      → exchange_code_bound lib env registry req db ≡ (ok r, after)
      → (code : CodeRow) × IsSpent lib req code after
        × (binds_code lib req code ≡ true)
        × (check_binding lib registry (env.instant 0) req.client_id code.cimd_binding ≡ ok tt)
        × (code_by_id code.id (env.others 0 db) ≡ some code)
        × ((session : SessionRow) × IsStarted lib env code session
              (consume_code code.id (env.wall 0) (env.others 0 db))
              r.refresh_token
              after)
  exchange-IsSpent {r} {after} fair h =
      let (first, filed, bound, e) = exchange_checks lib env registry req db h in
      let d = env.others 0 db in
      let (first', filed', f) =
        code_hash_later (Reach-Evolves (fair 0 db)) (lib.sha256 req.raw) filed in
      let id = code_by_id-key first.id d e.code_found in
      let spent = consume_code-found e.code.id (env.wall 0) d {r = e.code} (rw id e.code_found) in
      let session_kept = consume_code-session e.code.id (env.wall 0) d e.code.session_id in
      let (first'', filed'', g) =
        code_hash_later (consume_code-Evolves e.code.id (env.wall 0) d) (lib.sha256 req.raw)
          filed' in
      let s : IsSpent lib req e.code (consume_code e.code.id (env.wall 0) d) = record {
        first = first'';
        session = e.session;
        row = consume_code_row (env.wall 0) e.code;
        filed = filed'';
        first_bound =
            binds_code-Later lib req first' first'' g
            ∙ binds_code-Later lib req first first' f
            ∙ bound;
        same_id = cc (f.same, g.same, id);
        same_session = cc (f.same, g.same, e.same_session);
        found = spent;
        same = refl;
        used = refl;
        session_found = session_kept ∙ rw e.same_session e.session_found;
      } in
      (
        e.code,
        IsSpent-Evolves lib req e.code
            (IsStarted-Evolves lib env e.code e.session _ r.refresh_token after e.started) s,
        e.bound,
        e.binding,
        rw id e.code_found,
        (e.session, e.started),
      )

  IsSpent-refuses :
      {code : CodeRow} {r : ExchangeResult} {after : Db} (req' : ExchangeRequest)
      → req'.raw ≡ req.raw
      → IsFair lib env
      → IsSpent lib req code db
      → exchange_code_bound lib env registry req' db ≢ (ok r, after)
  IsSpent-refuses {code} req' raw fair s h =
      let (first, filed, bound, e) = exchange_checks lib env registry req' db h in
      let s' = IsSpent-Evolves lib req code (Reach-Evolves (fair 0 db)) s in
      let same : first.id ≡ code.id = cc (filed, s.filed, s.same_id, raw) in
      let found : code_by_id code.id (env.others 0 db) ≡ some e.code = rw (← same) e.code_found in
      ground (arith, found, s'.found, s'.used, e.unused)

module _ (lib : Libs) (env env' : Ambient Db) (registry registry' : Option ClientRegistry)
    (req req' : ExchangeRequest) (db later_db : Db) {r : ExchangeResult} {after : Db}
    (fair : IsFair lib env) (fair' : IsFair lib env') (same : req'.raw ≡ req.raw)
    (won : exchange_code_bound lib env registry req db ≡ (ok r, after))
    (steps : Reach lib after later_db) where
  -- When a code has been exchanged, and any steps have been made since, no further exchange of the
  -- same secret succeeds, whatever the request and the registry, where what gets in between the
  -- reads and the locks of the two calls are steps too.
  pub exchange_once :
      (r' : ExchangeResult) (after' : Db)
      → exchange_code_bound lib env' registry' req' later_db ≢ (ok r', after')
  exchange_once r' after' =
      let (code, spent, _, _, _, _) = exchange-IsSpent lib env registry req db fair won in
      IsSpent-refuses lib env' registry' req later_db {code = code} req' same fair'
        (IsSpent-Evolves lib req code (Reach-Evolves steps) spent)
