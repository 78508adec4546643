-- ===== src/Tests/Calls.antt =====
-- credentials.rs: the theorems on codes, tokens and sessions at the runs.
use eri.Common.{ℕ, bytes, true, none, some, ok, err, ◌≡◌, ◌≢◌, refl}
use eri.Store.{
  CodeRow, FamilyRow, MemberRow, code_by_hash, family_by_id, member_by_hash, revoke_families,
  of_code, is_family,
}
use eri.Store.Evolution.{Evolves}
use eri.Credentials.Types.{invalid_grant}
use eri.Credentials.Exchange.{binds_code, exchange_code_bound}
use eri.Credentials.Exchange.Success.{IsExchanged}
use eri.Credentials.Exchange.SingleUse.{exchange_checks, exchange_once}
use eri.Credentials.Exchange.Replay.{exchange_replay, exchange_replay_ends}
use eri.Credentials.Refresh.{rotate_refresh_bound}
use eri.Credentials.Refresh.Success.{IsRotated}
use eri.Credentials.Refresh.Rotation.{IsDeadFamily, IsJoined, lookup_of, rotate_checks}
use eri.Credentials.Refresh.Replay.{rotate_once, rotate_replay, rotate_replay_ends}
use eri.Credentials.Refresh.Logout.{logout_ends_exchanges, logout_ends_rotations}
use eri.Steps.{here}
use eri.Steps.Interleaving.{Reach-Evolves}
use eri.Tests.Demo.{lib}
use eri.Tests.Tokens.{
  start, exchanged, rotated, out, other_exchanged, other_rotated, raw_code, other_code, first_call,
  second_call, third_call, first-IsFair, second-IsFair, third-IsFair, exchange_request,
  rotate_request, given, first_session, exchange_runs, rotate_runs, logout_runs,
  other_exchange_runs, other_rotate_runs, other_exchange_steps,
}

exchange_checks_example :
    (first : CodeRow) × (code_by_hash (lib.sha256 raw_code) start ≡ some first)
    × (binds_code lib (exchange_request raw_code) first ≡ true)
    × IsExchanged lib first_call none
        (exchange_request raw_code)
        first
        start
        (given 1 (bytes "refresh_one"))
        exchanged
exchange_checks_example =
    exchange_checks lib first_call none (exchange_request raw_code) start
      {r = given 1 (bytes "refresh_one")} {after = exchanged} exchange_runs

exchange_once_example :
    exchange_code_bound lib second_call none (exchange_request raw_code) exchanged
    ≢ (ok (given 1 (bytes "refresh_two")), exchanged)
exchange_once_example =
    exchange_once lib first_call second_call none none (exchange_request raw_code)
      (exchange_request raw_code) start exchanged first-IsFair second-IsFair refl exchange_runs here
      (given 1 (bytes "refresh_two")) exchanged

exchange_replay_example :
    (code : CodeRow) × (code_by_hash (lib.sha256 raw_code) exchanged ≡ some code)
    × (exchange_code_bound lib second_call none (exchange_request raw_code) exchanged
        ≡ (err invalid_grant, revoke_families (of_code code.id) 1_000 exchanged))
    × ((family_id : ℕ) (family : FamilyRow)
        → family_by_id family_id exchanged ≡ some family
        → family.source_code_id ≡ code.id
        → IsDeadFamily family_id
            (exchange_code_bound lib second_call none (exchange_request raw_code) exchanged).1)
exchange_replay_example =
    exchange_replay lib first_call second_call (exchange_request raw_code) start exchanged
      first-IsFair second-IsFair here exchange_runs

exchange_replay_ends_example :
    rotate_refresh_bound lib third_call none
      (rotate_request (bytes "refresh_one"))
      (exchange_code_bound lib second_call none (exchange_request raw_code) exchanged).1
    ≢ (ok (given 1 (bytes "refresh_three")), exchanged)
exchange_replay_ends_example =
    exchange_replay_ends lib first_call second_call (exchange_request raw_code) start exchanged
      first-IsFair second-IsFair here exchange_runs third_call none
      (rotate_request (bytes "refresh_one"))
      (exchange_code_bound lib second_call none (exchange_request raw_code) exchanged).1
      third-IsFair refl here (given 1 (bytes "refresh_three")) exchanged

rotate_checks_example :
    (m : MemberRow) × (f : FamilyRow) × IsJoined lib (bytes "refresh_one") exchanged m f
    × IsRotated lib second_call none
        (rotate_request (bytes "refresh_one"))
        (lookup_of m f)
        exchanged
        (given 1 (bytes "refresh_two"))
        rotated
rotate_checks_example =
    rotate_checks lib second_call none (rotate_request (bytes "refresh_one")) exchanged
      {r = given 1 (bytes "refresh_two")} {after = rotated} rotate_runs

rotate_once_example :
    rotate_refresh_bound lib third_call none (rotate_request (bytes "refresh_one")) rotated
    ≢ (ok (given 1 (bytes "refresh_three")), rotated)
rotate_once_example =
    rotate_once lib second_call third_call (rotate_request (bytes "refresh_one")) exchanged rotated
      second-IsFair third-IsFair here none none (rotate_request (bytes "refresh_one")) refl
      rotate_runs (given 1 (bytes "refresh_three")) rotated

rotate_replay_example :
    (token : MemberRow) × (member_by_hash (lib.sha256 (bytes "refresh_one")) rotated ≡ some token)
    × (rotate_refresh_bound lib third_call none (rotate_request (bytes "refresh_one")) rotated
        ≡ (err invalid_grant, revoke_families (is_family token.family_id) 1_000 rotated))
    × IsDeadFamily token.family_id
        (rotate_refresh_bound lib third_call none (rotate_request (bytes "refresh_one")) rotated).1
rotate_replay_example =
    rotate_replay lib second_call third_call (rotate_request (bytes "refresh_one")) exchanged
      rotated second-IsFair third-IsFair here rotate_runs

rotate_replay_ends_example :
    rotate_refresh_bound lib first_call none
      (rotate_request (bytes "refresh_two"))
      (rotate_refresh_bound lib third_call none (rotate_request (bytes "refresh_one")) rotated).1
    ≢ (ok (given 1 (bytes "refresh_three")), rotated)
rotate_replay_ends_example =
    rotate_replay_ends lib second_call third_call (rotate_request (bytes "refresh_one")) exchanged
      rotated second-IsFair third-IsFair here first_call none (rotate_request (bytes "refresh_two"))
      (rotate_refresh_bound lib third_call none (rotate_request (bytes "refresh_one")) rotated).1
      first-IsFair rotate_runs refl here (given 1 (bytes "refresh_three")) rotated

logout_ends_exchanges_example : (given 2 (bytes "refresh_one")).session_id ≢ first_session.id
logout_ends_exchanges_example =
    logout_ends_exchanges lib third_call first_call first_session start out out first-IsFair
      logout_runs here none (given 2 (bytes "refresh_one")) other_exchanged
      (exchange_request other_code) other_exchange_runs

logout_ends_rotations_example : (given 2 (bytes "refresh_two")).session_id ≢ first_session.id
logout_ends_rotations_example =
    logout_ends_rotations lib third_call second_call first_session start out other_exchanged
      second-IsFair logout_runs other_exchange_steps none (given 2 (bytes "refresh_two"))
      other_rotated (rotate_request (bytes "refresh_one")) other_rotate_runs

Reach-Evolves_example : Evolves out other_exchanged
Reach-Evolves_example = Reach-Evolves other_exchange_steps
