-- ===== src/System/Operations.antt =====
-- internal/service/service.go: the operations on sessions and an invariant of the service, in the
-- sense of `System.Invariant`.
use accounts_service.Prelude.{ℕ, String, not, List, [], ◌∷◌, Bool-cases, inl, inr, ◌==◌, contains}
use accounts_service.Models.{Account, Session, SignInDto}
use accounts_service.Models.Errors.{ErrorCode, error}
use accounts_service.External.{External}
use accounts_service.External.Redis.{Keys}
use accounts_service.Effect.{M, pure, gets, from_result, throw_if, map_error, ◌>>=◌, ◌>>◌}
use accounts_service.Config.{AccountsServiceConfig}
use accounts_service.Postgres
use accounts_service.Redis.Sessions as Store
use accounts_service.Service.Process.{Process, on_world, spawn, update_session_task}
use accounts_service.Service.Sessions
use accounts_service.System.Keeps.{
  Keeps, Any, Keeps-pure, Keeps-gets, Keeps-throw_if, Keeps-map_error, Keeps-bind, Keeps-then,
  Keeps-from_result,
}
use accounts_service.System.Backend.{IsBackend}
use accounts_service.System.Invariant.{IsInvariant}
use accounts_service.System.Frame.{keys-get_account_by_email}

module _ ⦃x : External⦄ (keys : x.World → Keys) (b : IsBackend keys) {P : Process → Type 0}
    {Good : String → Type 0} (i : IsInvariant keys P Good) where
  -- A session that passes the check has the id of a session.
  pub check_session-Keeps :
      (ctx : x.Ctx) (machine_id id : String)
      → Keeps P (Sessions.check_session ctx machine_id id) (λ s. Good s.session_id)
  unfolding Sessions.check_session
  check_session-Keeps ctx machine_id id =
      Keeps-bind (map_error Sessions.session_not_found (on_world (Store.get_session ctx id)))
        (λ session.
          throw_if (not (machine_id == session.machine_id))
            (error ErrorCode.unauthenticated "invalid session or machine id")
          >> pure session)
        (Keeps-map_error Sessions.session_not_found (on_world (Store.get_session ctx id))
          (i.get_session ctx id))
        (λ session one. Keeps-then _ _ (Keeps-throw_if _ _) (Keeps-pure session one))

  refresh-Keeps :
      (session : Session)
      → Good session.session_id
      → Keeps P (gets (λ p. x.now p.world) >>= λ time. spawn (update_session_task session time)) Any
  refresh-Keeps session one =
      Keeps-bind (gets (λ p. x.now p.world)) (λ time. spawn (update_session_task session time))
        (Keeps-gets _) (λ time _. i.start_update session time one)

  check_and_update_session-Keeps :
      (ctx : x.Ctx) (machine_id id : String)
      → Keeps P (Sessions.check_and_update_session ctx machine_id id) (λ s. Good s.session_id)
  unfolding Sessions.check_and_update_session
  check_and_update_session-Keeps ctx machine_id id =
      Keeps-bind (Sessions.check_session ctx machine_id id)
        (λ session. gets (λ p. x.now p.world) >>= λ time.
          spawn (update_session_task session time) >> pure session)
        (check_session-Keeps ctx machine_id id)
        λ session one.
          Keeps-bind (gets (λ p. x.now p.world))
            (λ time. spawn (update_session_task session time) >> pure session) (Keeps-gets _)
            (λ time _. Keeps-then _ _ (i.start_update session time one) (Keeps-pure session one))

  pub get_account_id-Keeps :
      (ctx : x.Ctx) (id machine_id : String)
      → Keeps P (Sessions.get_account_id ctx id machine_id) Any
  unfolding Sessions.get_account_id
  get_account_id-Keeps ctx id machine_id =
      Keeps-bind (Sessions.check_and_update_session ctx machine_id id)
        (λ session. pure session.account_id) (check_and_update_session-Keeps ctx machine_id id)
        (λ session _. Keeps-pure _ tt)

  pub logout-Keeps :
      (ctx : x.Ctx) (id machine_id : String) → Keeps P (Sessions.logout ctx id machine_id) Any
  unfolding Sessions.logout
  logout-Keeps ctx id machine_id =
      Keeps-bind (Sessions.check_session ctx machine_id id)
        (λ session. on_world (Store.terminate_sessions ctx (id ∷ []) session.account_id))
        (check_session-Keeps ctx machine_id id)
        (λ session _. i.terminate_sessions ctx (id ∷ []) session.account_id)

  pub get_all_sessions-Keeps :
      (ctx : x.Ctx) (id machine_id : String)
      → Keeps P (Sessions.get_all_sessions ctx id machine_id) Any
  unfolding Sessions.get_all_sessions
  get_all_sessions-Keeps ctx id machine_id =
      Keeps-bind (Sessions.check_and_update_session ctx machine_id id)
        (λ session. on_world (Store.get_sessions_for_account ctx session.account_id))
        (check_and_update_session-Keeps ctx machine_id id)
        (λ session _. i.get_sessions_for_account ctx session.account_id)

  refresh_unless_logout-Keeps :
      (id : String) (ids : List String) (session : Session)
      → Good session.session_id
      → Keeps P (Sessions.refresh_unless_logout id ids session) Any
  unfolding Sessions.refresh_unless_logout
  refresh_unless_logout-Keeps id ids session one = elim (Bool-cases (contains ids id)) [
    | inl among ↦ rw among (Keeps-pure tt tt)
    | inr other ↦ rw other (refresh-Keeps session one)
  ]

  pub terminate_sessions-Keeps :
      (ctx : x.Ctx) (id machine_id : String) (ids : List String)
      → Keeps P (Sessions.terminate_sessions ctx id machine_id ids) Any
  unfolding Sessions.terminate_sessions
  terminate_sessions-Keeps ctx id machine_id ids =
      Keeps-bind (Sessions.check_and_update_session ctx machine_id id)
        (λ session.
          Sessions.refresh_unless_logout id ids session
          >> on_world (Store.terminate_sessions ctx ids session.account_id))
        (check_and_update_session-Keeps ctx machine_id id)
        (λ session one.
          Keeps-then _ _ (refresh_unless_logout-Keeps id ids session one)
            (i.terminate_sessions ctx ids session.account_id))

  pub sign_in-Keeps :
      (cfg : AccountsServiceConfig) (ctx : x.Ctx) (dto : SignInDto)
      → Keeps P (Sessions.sign_in cfg ctx dto) Any
  unfolding Sessions.sign_in
  sign_in-Keeps cfg ctx dto =
      let store : Account → String → ℕ → M Process String = λ account id time.
        on_world (
          Store.set_session ctx
            (record {
              session_id = id;
              account_id = account.id;
              machine_id = dto.machine_id;
              client_ip = dto.client_ip;
              last_activity = time;
            })
            cfg.session_ttl)
        >> pure id in
      let start : Account → M Process String =
        λ account. Sessions.fresh_id >>= λ id. gets (λ p. x.now p.world) >>= store account id in
      let matches : Account → M Process (Unit {0}) = λ account.
        map_error Sessions.invalid_login
          (from_result (x.bcrypt.compare_hash_and_password account.password dto.password)) in
      Keeps-bind (on_world (Postgres.get_account_by_email ctx dto.email))
        (λ account. matches account >> start account)
        (i.separate _ (keys-get_account_by_email keys b.separate ctx dto.email))
        λ account _.
          Keeps-then _ _
            (Keeps-map_error Sessions.invalid_login _ (Keeps-from_result _ {Q = Any} (λ a e. tt)))
            (Keeps-bind Sessions.fresh_id (λ id. gets (λ p. x.now p.world) >>= store account id)
              i.fresh_id
              λ id one.
                Keeps-bind (gets (λ p. x.now p.world)) (store account id) (Keeps-gets _) (λ time _.
                  Keeps-then _ _ (i.set_session ctx _ cfg.session_ttl one) (Keeps-pure id tt)))
