-- ===== src/Service/Authentication.antt =====
-- internal/service/service.go: the operations that need a session, and what they do without one.
use accounts_service.Prelude.{String, List, ◌≡◌, ◌↔◌, eq_iff, arith, some}
use accounts_service.Models.{Session}
use accounts_service.Models.Errors.{GoError, ErrorCode, error, code}
use accounts_service.External.{External}
use accounts_service.Effect.{M, done, fail}
use accounts_service.Redis.Sessions as Repository
use accounts_service.Service.Process.{Process}
use accounts_service.Service.Sessions
use accounts_service.Service.Accounts

-- The action ends in the error `e` and leaves the process `q`.
abbrev pub Refuses :
    ⦃x : External⦄ {A : Type 0} → M Process A → Process → GoError → Process → Type 0
Refuses m p e q = ((m p).0 ≡ fail e) × ((m p).1 ≡ q)

module _ ⦃x : External⦄ where
  -- A session passes the check exactly if the repository has it with the caller's machine id.
  check_session_iff :
      (ctx : x.Ctx) (machine_id session_id : String) (session : Session) (p : Process)
      → ((Sessions.check_session ctx machine_id session_id p).0 ≡ done session) ↔ (
          ((Repository.get_session ctx session_id p.world).0 ≡ done session)
          × (machine_id ≡ session.machine_id))
  unfolding Sessions.check_session
  check_session_iff ctx machine_id session_id session p = (
    λ h. (ground arith, grind (arith, eq_iff)),
    λ h. ground (arith, eq_iff machine_id session.machine_id),
  )

  -- If the check of the session fails, `GetAccountID`, `Logout`, `GetAllSessions`,
  -- `TerminateSessions` and `DeleteAccount` all end in that error, and have done nothing but
  -- look the session up: no goroutine is started.
  pub unauthenticated_refused :
      (ctx : x.Ctx) (machine_id session_id : String) (ids : List String) (e : GoError) (p : Process)
      → (Sessions.check_session ctx machine_id session_id p).0 ≡ fail e
      → let q : Process = record p { world = (Repository.get_session ctx session_id p.world).1 } in
        Refuses (Sessions.get_account_id ctx session_id machine_id) p e q
        × Refuses (Sessions.logout ctx session_id machine_id) p e q
        × Refuses (Sessions.get_all_sessions ctx session_id machine_id) p e q
        × Refuses (Sessions.terminate_sessions ctx session_id machine_id ids) p e q
        × Refuses (Accounts.delete_account ctx session_id machine_id) p e q
  unfolding Sessions.check_session Sessions.check_and_update_session Sessions.get_account_id
      Sessions.logout Sessions.get_all_sessions Sessions.terminate_sessions Accounts.delete_account
  unauthenticated_refused ctx machine_id session_id ids e p h = (
    (ground arith, ground arith),
    (ground arith, ground arith),
    (ground arith, ground arith),
    (ground arith, ground arith),
    (ground arith, ground arith),
  )

  -- A session that the repository does not have is refused as unauthenticated; any other error
  -- of the repository is passed on.
  pub check_session_failed :
      (ctx : x.Ctx) (machine_id session_id : String) (e : GoError) (p : Process)
      → (Repository.get_session ctx session_id p.world).0 ≡ fail e
      → (Sessions.check_session ctx machine_id session_id p).0
        ≡ fail (elim (code (some e)) [
          | ErrorCode.not_found ↦ error ErrorCode.unauthenticated "session not found"
          | _ ↦ e
        ])
  unfolding Sessions.check_session
  check_session_failed ctx machine_id session_id e p got = ground arith
