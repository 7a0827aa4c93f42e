-- ===== src/Handler/Authorized.antt =====
-- internal/handler/handler.go: what a successful `GetAccountID` rests on, and requests that are
-- refused before the service is called.
use accounts_service.Prelude.{len, ◌<◌, String, ◌≡◌, ◌⊎◌, inl, inr, eq_iff, arith}
use accounts_service.Models.{Session}
use accounts_service.Models.Errors.{status_error, grpc_invalid_argument}
use accounts_service.External.{External}
use accounts_service.Effect.{ok, done, Outcome-cases, Result-cases}
use accounts_service.Config.{AccountsServiceConfig}
use accounts_service.Redis.Sessions as Repository
use accounts_service.Service.Process.{Process}
use accounts_service.Service.Sessions as Service
use accounts_service.Service.Accounts as Accounts
use accounts_service.Handler.Validation.{validate_password}
use accounts_service.Handler.Context as Context
use accounts_service.Handler.Methods as Methods
use accounts_service.Handler.Laws.{HasHeader, RefusedWith, auth_headers_ok}

module _ ⦃x : External⦄ where
  -- What a caller whose `GetAccountID` succeeds has shown.
  pub record IsAuthorized (ctx : x.Ctx) (p : Process) : Type 0 where
    pub session_id : String
    pub machine_id : String
    pub session : Session
    has_session_id : HasHeader ctx "X-Session-Id" session_id
    has_machine_id : HasHeader ctx "X-Machine-Id" machine_id
    pub stored : (Repository.get_session ctx session_id p.world).0 ≡ done session
    pub machine : machine_id ≡ session.machine_id
    answered :
        (x.set_header ctx "X-Account-Id" session.account_id
          (Repository.get_session ctx session_id p.world).1).0
        ≡ ok tt

  service_get_account_id_done :
      (ctx : x.Ctx) (session_id machine_id account_id : String) (p : Process)
      → (Service.get_account_id ctx session_id machine_id p).0 ≡ done account_id
      → (session : Session) × ((Repository.get_session ctx session_id p.world).0 ≡ done session)
        × (machine_id ≡ session.machine_id)
        × (account_id ≡ session.account_id)
        × ((Service.get_account_id ctx session_id machine_id p).1.world
            ≡ (Repository.get_session ctx session_id p.world).1)
  unfolding Service.get_account_id Service.check_and_update_session Service.check_session
  service_get_account_id_done ctx session_id machine_id account_id p h =
      elim (Outcome-cases (Repository.get_session ctx session_id p.world).0) [
        | inl (session, got) ↦
            let at = eq_iff machine_id session.machine_id in
            (session, got, ground arith, ground arith, ground arith)
        | inr failed ↦ absurd (grind (arith, failed))
      ]

  get_account_id_answers :
      (ctx : x.Ctx) (session_id machine_id : String) (p : Process)
      → Context.auth_headers ctx ≡ ok (session_id, machine_id)
      → (Methods.get_account_id ctx p).0 ≡ done tt
      → IsAuthorized ctx p
  unfolding Methods.get_account_id
  get_account_id_answers ctx session_id machine_id p present h =
      let answer = Service.get_account_id ctx session_id machine_id p in
      let (has_session_id, has_machine_id) = auth_headers_ok ctx session_id machine_id present in
      elim (Outcome-cases answer.0) [
        | inr failed ↦ absurd (grind (arith, failed))
        | inl (account_id, found) ↦
            let (session, stored, machine, owner, looked_up) =
              service_get_account_id_done ctx session_id machine_id account_id p found in
            let set = x.set_header ctx "X-Account-Id" account_id answer.1.world in
            let answered : set.0 ≡ ok tt = ground arith in
            record {
              session_id = session_id;
              machine_id = machine_id;
              session = session;
              has_session_id = has_session_id;
              has_machine_id = has_machine_id;
              stored = stored;
              machine = machine;
              answered = ground arith;
            }
      ]

  -- If `GetAccountID` succeeds, the request has a session id and a machine id, the repository
  -- has that session for that machine, and the response's account id header is the session's
  -- account.
  pub get_account_id-IsAuthorized :
      (ctx : x.Ctx) (p : Process) → (Methods.get_account_id ctx p).0 ≡ done tt → IsAuthorized ctx p
  unfolding Methods.get_account_id
  get_account_id-IsAuthorized ctx p h = elim (Result-cases (Context.auth_headers ctx)) [
    | inr (e, missing) ↦ absurd (ground arith)
    | inl (ids, present) ↦ get_account_id_answers ctx ids.0 ids.1 p present h
  ]

  -- A new password that has fewer than 6 or more than 32 bytes is refused as an invalid argument,
  -- whatever the token is, and nothing else happens.
  password_refused :
      (cfg : AccountsServiceConfig) (ctx : x.Ctx) (token password : String) (p : Process)
      → (len password < 6) ⊎ (32 < len password)
      → RefusedWith (Methods.change_password cfg ctx token password) p (
          status_error grpc_invalid_argument
            "password must be less than 32 symbols and more than 6")
  unfolding Methods.change_password validate_password Accounts.error_text
  password_refused cfg ctx token password p h = ground arith
