-- ===== src/Handler/Methods.antt =====
-- internal/handler/handler.go: the eleven gRPC methods.
use accounts_service.Prelude.{String, not, Option, none, some, List}
use accounts_service.Models.{SessionInfo}
use accounts_service.Models.Errors.{GoError, status_error, grpc_invalid_argument}
use accounts_service.External.{External}
use accounts_service.Effect.{M, pure, throw, call, from_result, throw_if, ◌>>=◌, ◌>>◌}
use accounts_service.Config.{Config, AccountsServiceConfig}
use accounts_service.Service.Process.{Process, on_world}
use accounts_service.Service.Sessions as Service
use accounts_service.Service.Accounts as Accounts
use accounts_service.Handler.Validation.{
  CreateAccountRequest, validate_signup_input, validate_email, validate_password,
}
use accounts_service.Handler.Context.{with_handler, machine_id_of, auth_headers, account_id_header}

-- protos `SignInRequest`
pub record SignInRequest : Type 0 where
  pub email : String
  pub password : String
  pub client_ip : String

module _ ⦃x : External⦄ where
  -- `status.Error(codes.InvalidArgument, err.Error())`, if there is an error.
  abbrev pub reject : Option GoError → M Process (Unit {0})
  reject none = pure tt
  reject (some e) = throw (status_error grpc_invalid_argument (Accounts.error_text e))

  -- `CreateAccount`, on a request that is not nil.
  unfoldable pub create_account :
      AccountsServiceConfig → x.Ctx → CreateAccountRequest → M Process (Unit {0})
  unfolding with_handler
  create_account cfg ctx input = with_handler (do
    reject (validate_signup_input (some input))
    Accounts.create_account cfg ctx
        (record { email = input.email; username = input.username; password = input.password }))

  -- `RequestAccountVerificationToken`
  unfoldable pub request_account_verification_token :
      AccountsServiceConfig → x.Ctx → String → String → M Process (Unit {0})
  unfolding with_handler
  request_account_verification_token cfg ctx email url = with_handler (do
    reject (validate_email email)
    Accounts.request_account_verification_token cfg ctx email url)

  -- `VerifyAccount`
  unfoldable pub verify_account : Config → x.Ctx → String → M Process (Unit {0})
  unfolding with_handler
  verify_account global ctx token = with_handler (Accounts.verify_account global ctx token)

  -- `SignIn`
  unfoldable pub sign_in : AccountsServiceConfig → x.Ctx → SignInRequest → M Process String
  unfolding with_handler
  sign_in cfg ctx input = with_handler (do
    throw_if (not (x.parse_ip input.client_ip))
        (status_error grpc_invalid_argument "invalid client ip address")
    machine_id ← from_result (machine_id_of ctx)
    Service.sign_in cfg ctx (record {
      email = input.email;
      password = input.password;
      client_ip = input.client_ip;
      machine_id = machine_id;
    }))

  -- `GetAccountID`
  unfoldable pub get_account_id : x.Ctx → M Process (Unit {0})
  unfolding with_handler
  get_account_id ctx = with_handler (do
    headers ← from_result (auth_headers ctx)
    account_id ← Service.get_account_id ctx headers.0 headers.1
    on_world (call (x.set_header ctx account_id_header account_id)))

  -- `Logout`
  unfoldable pub logout : x.Ctx → M Process (Unit {0})
  unfolding with_handler
  logout ctx =
      with_handler
        (do headers ← from_result (auth_headers ctx); Service.logout ctx headers.0 headers.1)

  -- `RequestChangePasswordToken`
  unfoldable pub request_change_password_token :
      AccountsServiceConfig → x.Ctx → String → String → M Process (Unit {0})
  unfolding with_handler
  request_change_password_token cfg ctx email url =
      with_handler (Accounts.request_change_password_token cfg ctx email url)

  -- `ChangePassword`
  unfoldable pub change_password :
      AccountsServiceConfig → x.Ctx → String → String → M Process (Unit {0})
  unfolding with_handler
  change_password cfg ctx token new_password = with_handler (do
    reject (validate_password new_password)
    Accounts.change_password cfg ctx token new_password)

  -- `GetAllSessions`; the response carries the same fields of each session.
  unfoldable pub get_all_sessions : x.Ctx → M Process (List (String × SessionInfo))
  unfolding with_handler
  get_all_sessions ctx = with_handler (do
    headers ← from_result (auth_headers ctx)
    Service.get_all_sessions ctx headers.0 headers.1)

  -- `TerminateSessions`
  unfoldable pub terminate_sessions : x.Ctx → List String → M Process (Unit {0})
  unfolding with_handler
  terminate_sessions ctx sessions_to_terminate = with_handler (do
    headers ← from_result (auth_headers ctx)
    Service.terminate_sessions ctx headers.0 headers.1 sessions_to_terminate)

  -- `DeleteAccount`
  unfoldable pub delete_account : x.Ctx → M Process (Unit {0})
  unfolding with_handler
  delete_account ctx =
      with_handler (do
        headers ← from_result (auth_headers ctx)
        Accounts.delete_account ctx headers.0 headers.1)
