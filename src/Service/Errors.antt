-- ===== src/Service/Errors.antt =====
-- The errors of the service's operations: all but one of them end in a `ServiceError`.
use accounts_service.Prelude.{String, List, arith}
use accounts_service.Models.{CreateAccountDto, SignInDto}
use accounts_service.External.{External}
use accounts_service.Effect.{Reports}
use accounts_service.Config.{Config, AccountsServiceConfig}
use accounts_service.Redis.Errors.{
  is_account_exist-Reports, set_account-Reports, get_account-Reports, get_session-Reports,
  set_session-Reports, terminate_sessions-Reports, get_sessions_for_account-Reports,
}
use accounts_service.Postgres.Errors as DbErrors
use accounts_service.Events.Errors.{account_deleted-Reports, request_change_password-Reports}
use accounts_service.Service.Sessions
use accounts_service.Service.Accounts

module _ ⦃x : External⦄ where
  check_session-Reports :
      (ctx : x.Ctx) (machine_id session_id : String)
      → Reports (Sessions.check_session ctx machine_id session_id)
  unfolding Sessions.check_session
  check_session-Reports ctx machine_id session_id p = grind (arith, get_session-Reports)

  check_and_update_session-Reports :
      (ctx : x.Ctx) (machine_id session_id : String)
      → Reports (Sessions.check_and_update_session ctx machine_id session_id)
  unfolding Sessions.check_and_update_session
  check_and_update_session-Reports ctx machine_id session_id p =
      grind (arith, check_session-Reports)

  sign_in-Reports :
      (cfg : AccountsServiceConfig) (ctx : x.Ctx) (dto : SignInDto)
      → Reports (Sessions.sign_in cfg ctx dto)
  unfolding Sessions.sign_in
  sign_in-Reports cfg ctx dto p =
      grind (arith, DbErrors.get_account_by_email-Reports, set_session-Reports)

  get_account_id-Reports :
      (ctx : x.Ctx) (session_id machine_id : String)
      → Reports (Sessions.get_account_id ctx session_id machine_id)
  unfolding Sessions.get_account_id
  get_account_id-Reports ctx session_id machine_id p =
      grind (arith, check_and_update_session-Reports)

  logout-Reports :
      (ctx : x.Ctx) (session_id machine_id : String)
      → Reports (Sessions.logout ctx session_id machine_id)
  unfolding Sessions.logout
  logout-Reports ctx session_id machine_id p =
      grind (arith, check_session-Reports, terminate_sessions-Reports)

  get_all_sessions-Reports :
      (ctx : x.Ctx) (session_id machine_id : String)
      → Reports (Sessions.get_all_sessions ctx session_id machine_id)
  unfolding Sessions.get_all_sessions
  get_all_sessions-Reports ctx session_id machine_id p =
      grind (arith, check_and_update_session-Reports, get_sessions_for_account-Reports)

  terminate_other_sessions-Reports :
      (ctx : x.Ctx) (session_id machine_id : String) (ids : List String)
      → Reports (Sessions.terminate_sessions ctx session_id machine_id ids)
  unfolding Sessions.terminate_sessions Sessions.refresh_unless_logout
  terminate_other_sessions-Reports ctx session_id machine_id ids p =
      grind (arith, check_and_update_session-Reports, terminate_sessions-Reports)

  create_account-Reports :
      (cfg : AccountsServiceConfig) (ctx : x.Ctx) (dto : CreateAccountDto)
      → Reports (Accounts.create_account cfg ctx dto)
  unfolding Accounts.create_account
  create_account-Reports cfg ctx dto p = grind (
    arith, DbErrors.is_account_with_email_exist-Reports, is_account_exist-Reports,
    set_account-Reports,
  )

  activate_account-Reports :
      (ctx : x.Ctx) (email : String) → Reports (Accounts.activate_account ctx email)
  unfolding Accounts.activate_account
  activate_account-Reports ctx email p =
      grind (arith, get_account-Reports, DbErrors.create_account-Reports)

  verify_account-Reports :
      (global : Config) (ctx : x.Ctx) (token : String)
      → Reports (Accounts.verify_account global ctx token)
  unfolding Accounts.verify_account
  verify_account-Reports global ctx token p = grind (arith, activate_account-Reports)

  request_change_password_token-Reports :
      (cfg : AccountsServiceConfig) (ctx : x.Ctx) (email url : String)
      → Reports (Accounts.request_change_password_token cfg ctx email url)
  unfolding Accounts.request_change_password_token
  request_change_password_token-Reports cfg ctx email url p =
      grind (arith, DbErrors.is_account_with_email_exist-Reports, request_change_password-Reports)

  change_password-Reports :
      (cfg : AccountsServiceConfig) (ctx : x.Ctx) (token password : String)
      → Reports (Accounts.change_password cfg ctx token password)
  unfolding Accounts.change_password
  change_password-Reports cfg ctx token password p =
      grind (arith, DbErrors.is_account_with_email_exist-Reports, DbErrors.change_password-Reports)

  delete_account-Reports :
      (ctx : x.Ctx) (session_id machine_id : String)
      → Reports (Accounts.delete_account ctx session_id machine_id)
  unfolding Accounts.delete_account
  delete_account-Reports ctx session_id machine_id p = grind (
    arith, check_session-Reports, DbErrors.get_account_email-Reports,
    DbErrors.delete_account-Reports, account_deleted-Reports,
  )

  -- Every error of an operation of the service is a `ServiceError`, except for
  -- `RequestAccountVerificationToken`, which is left out.
  pub service-Reports :
      (cfg : AccountsServiceConfig) (global : Config) (ctx : x.Ctx) (session_id machine_id : String)
      (ids : List String) (login : SignInDto) (signup : CreateAccountDto)
      (email url token password : String)
      → Reports (Sessions.sign_in cfg ctx login)
        × Reports (Sessions.get_account_id ctx session_id machine_id)
        × Reports (Sessions.logout ctx session_id machine_id)
        × Reports (Sessions.get_all_sessions ctx session_id machine_id)
        × Reports (Sessions.terminate_sessions ctx session_id machine_id ids)
        × Reports (Accounts.create_account cfg ctx signup)
        × Reports (Accounts.verify_account global ctx token)
        × Reports (Accounts.request_change_password_token cfg ctx email url)
        × Reports (Accounts.change_password cfg ctx token password)
        × Reports (Accounts.delete_account ctx session_id machine_id)
  service-Reports cfg global ctx session_id machine_id ids login signup email url token password = (
    sign_in-Reports cfg ctx login,
    get_account_id-Reports ctx session_id machine_id,
    logout-Reports ctx session_id machine_id,
    get_all_sessions-Reports ctx session_id machine_id,
    terminate_other_sessions-Reports ctx session_id machine_id ids,
    create_account-Reports cfg ctx signup,
    verify_account-Reports global ctx token,
    request_change_password_token-Reports cfg ctx email url,
    change_password-Reports cfg ctx token password,
    delete_account-Reports ctx session_id machine_id,
  )
