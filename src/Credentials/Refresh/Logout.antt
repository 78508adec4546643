-- ===== src/Credentials/Refresh/Logout.antt =====
-- credentials.rs: after a logout, nothing is given out for the session.
use eri.Common.{ℕ, Option, some, ok, ◌≡◌, ◌≢◌, arith, Option-cases, inl, inr}
use eri.External.{Libs}
use eri.Oauth.Registry.{ClientRegistry}
use eri.Store.{
  Db, SessionRow, session_by_id, revoke_session, revoke_session_row, revoke_families, of_session,
}
use eri.Store.Evolution.Keys.{revoke_session-found}
use eri.Store.Evolution.Steps.{revoke_families-Evolves}
use eri.Transaction.{Ambient, ◌>>=◌}
use eri.Credentials.Types.{ProviderSession, ExchangeResult}
use eri.Credentials.Exchange.{ExchangeRequest, exchange_code_bound}
use eri.Credentials.Exchange.SingleUse.{exchange_checks}
use eri.Credentials.Refresh.{RotateRequest, rotate_refresh_bound, logout_locked, logout}
use eri.Credentials.Refresh.Rotation.{IsDeadSession, IsDeadSession-Evolves, rotate_checks}
use eri.Credentials.Refresh.Replay.{coalesce_some}
use eri.Steps.{Reach, IsFair}
use eri.Steps.Interleaving.{Reach-Evolves}

logout-finds :
    (env : Ambient Db) (session : ProviderSession) (db after : Db)
    → logout env session db ≡ (ok tt, after)
    → (row : SessionRow) × (session_by_id session.id (env.others 0 db) ≡ some row)
      × (after
          ≡ revoke_families
              (of_session session.id)
              (env.wall 1)
              (revoke_session session.id (env.wall 0) (env.others 0 db)))
unfolding logout logout_locked ◌>>=◌
logout-finds env session db after h =
    elim (Option-cases (session_by_id session.id (env.others 0 db))) [
      | inl missing ↦ absurd (ground arith)
      | inr (row, found) ↦ (row, found, ground arith)
    ]

logout-IsDeadSession :
    (env : Ambient Db) (session : ProviderSession) (db after : Db)
    → logout env session db ≡ (ok tt, after)
    → IsDeadSession session.id after
logout-IsDeadSession env session db after h =
    let (row, found, e) = logout-finds env session db after h in
    let d = env.others 0 db in
    rw e (
      IsDeadSession-Evolves
        (revoke_families-Evolves (of_session session.id) (env.wall 1)
          (revoke_session session.id (env.wall 0) d))
        session.id
        (record {
          row = revoke_session_row (env.wall 0) row;
          found = revoke_session-found session.id (env.wall 0) d found;
          dead = coalesce_some row.revoked_at (env.wall 0);
        }))

module _ (lib : Libs) (env : Ambient Db) (fair : IsFair lib env) (registry : Option ClientRegistry)
    (session_id : ℕ) (db : Db) (dead : IsDeadSession session_id db) (r : ExchangeResult)
    (last : Db) where
  still_dead : IsDeadSession session_id (env.others 0 db)
  still_dead = IsDeadSession-Evolves (Reach-Evolves (fair 0 db)) session_id dead

  -- A session that is revoked is not exchanged for.
  pub dead_exchanges :
      (req : ExchangeRequest)
      → exchange_code_bound lib env registry req db ≡ (ok r, last)
      → r.session_id ≢ session_id
  dead_exchanges req h same =
      let (first, _, _, e) = exchange_checks lib env registry req db h in
      let id : first.session_id ≡ session_id = cc (e.result_session, e.same_session, same) in
      ground (arith, id, e.session_found, still_dead.found, still_dead.dead, e.unrevoked)

  pub dead_rotations :
      (req : RotateRequest)
      → rotate_refresh_bound lib env registry req db ≡ (ok r, last)
      → r.session_id ≢ session_id
  dead_rotations req h same =
      let (m, f, _, e) = rotate_checks lib env registry req db h in
      let id : f.session_id ≡ session_id = cc (e.result_session, same) in
      ground (arith, id, e.session_found, still_dead.found, still_dead.dead, e.session_unrevoked)

module _ (lib : Libs) (env env' : Ambient Db) (session : ProviderSession) (db after end : Db)
    (fair : IsFair lib env') (out : logout env session db ≡ (ok tt, after))
    (steps : Reach lib after end) (registry : Option ClientRegistry) (r : ExchangeResult)
    (last : Db) where
  dead : IsDeadSession session.id end
  dead =
      IsDeadSession-Evolves (Reach-Evolves steps) session.id
        (logout-IsDeadSession env session db after out)

  -- After a successful logout and any steps, no exchange of a code succeeds for that session.
  pub logout_ends_exchanges :
      (req : ExchangeRequest)
      → exchange_code_bound lib env' registry req end ≡ (ok r, last)
      → r.session_id ≢ session.id
  logout_ends_exchanges req h =
      dead_exchanges lib env' fair registry session.id end dead r last req h

  -- After a successful logout and any steps, no rotation of a refresh token succeeds for that session.
  pub logout_ends_rotations :
      (req : RotateRequest)
      → rotate_refresh_bound lib env' registry req end ≡ (ok r, last)
      → r.session_id ≢ session.id
  logout_ends_rotations req h =
      dead_rotations lib env' fair registry session.id end dead r last req h
