-- ===== src/Service/Sessions.antt =====
-- internal/service/service.go: signing in, the checks of a session, and the operations on
-- sessions.
use accounts_service.Prelude.{String, not, some, List, [], ◌∷◌, contains, ◌==◌, if◌then◌else◌}
use accounts_service.Models.{Session, SessionInfo, SignInDto}
use accounts_service.Models.Errors.{GoError, ErrorCode, error, code}
use accounts_service.External.{External}
use accounts_service.Effect.{M, Outcome, pure, gets, from_result, throw_if, map_error, ◌>>=◌, ◌>>◌}
use accounts_service.Config.{AccountsServiceConfig}
use accounts_service.Postgres.{get_account_by_email}
use accounts_service.Redis.Sessions as Repository
use accounts_service.Service.Process.{Process, on_world, spawn, update_session_task}

-- `checkSession` replaces "not found" by "unauthenticated".
abbrev pub session_not_found : GoError → GoError
session_not_found e = elim (code (some e)) [
  | ErrorCode.not_found ↦ error ErrorCode.unauthenticated "session not found"
  | _ ↦ e
]

abbrev pub invalid_login : GoError → GoError
invalid_login e = error ErrorCode.invalid_argument "invalid login or password"

module _ ⦃x : External⦄ where
  -- `checkSession`
  unfoldable pub check_session : x.Ctx → String → String → M Process Session
  check_session ctx machine_id session_id = do
    session ← map_error session_not_found (on_world (Repository.get_session ctx session_id))
    throw_if (not (machine_id == session.machine_id))
        (error ErrorCode.unauthenticated "invalid session or machine id")
    pure session

  -- `checkAndUpdateSession`
  unfoldable pub check_and_update_session : x.Ctx → String → String → M Process Session
  check_and_update_session ctx machine_id session_id = do
    session ← check_session ctx machine_id session_id
    time ← gets (λ p. x.now p.world)
    spawn (update_session_task session time)
    pure session

  -- `uuid.NewString`
  abbrev pub fresh_id : M Process String
  fresh_id p = let (id, w) = x.new_uuid p.world in (Outcome.done id, record p { world = w })

  -- `SignIn`
  unfoldable pub sign_in : AccountsServiceConfig → x.Ctx → SignInDto → M Process String
  sign_in cfg ctx dto = do
    account ← on_world (get_account_by_email ctx dto.email)
    map_error invalid_login
        (from_result (x.bcrypt.compare_hash_and_password account.password dto.password))
    session_id ← fresh_id
    time ← gets (λ p. x.now p.world)
    on_world (
        Repository.set_session ctx
          (record {
            session_id = session_id;
            account_id = account.id;
            machine_id = dto.machine_id;
            client_ip = dto.client_ip;
            last_activity = time;
          })
          cfg.session_ttl)
    pure session_id

  -- `GetAccountID`
  unfoldable pub get_account_id : x.Ctx → String → String → M Process String
  get_account_id ctx session_id machine_id = do
    cached ← check_and_update_session ctx machine_id session_id
    pure cached.account_id

  -- `Logout`
  unfoldable pub logout : x.Ctx → String → String → M Process (Unit {0})
  logout ctx session_id machine_id = do
    session ← check_session ctx machine_id session_id
    on_world (Repository.terminate_sessions ctx (session_id ∷ []) session.account_id)

  -- `GetAllSessions`
  unfoldable pub get_all_sessions :
      x.Ctx → String → String → M Process (List (String × SessionInfo))
  get_all_sessions ctx session_id machine_id = do
    cached ← check_and_update_session ctx machine_id session_id
    on_world (Repository.get_sessions_for_account ctx cached.account_id)

  -- The second `go s.updateSession(…)` of `TerminateSessions`, unless the caller's session is
  -- among those to terminate.
  unfoldable pub refresh_unless_logout : String → List String → Session → M Process (Unit {0})
  refresh_unless_logout session_id ids session =
      if contains ids session_id
      then pure tt
      else (do time ← gets (λ p. x.now p.world); spawn (update_session_task session time))

  -- `TerminateSessions`
  unfoldable pub terminate_sessions : x.Ctx → String → String → List String → M Process (Unit {0})
  terminate_sessions ctx session_id machine_id ids = do
    session ← check_and_update_session ctx machine_id session_id
    refresh_unless_logout session_id ids session
    on_world (Repository.terminate_sessions ctx ids session.account_id)
