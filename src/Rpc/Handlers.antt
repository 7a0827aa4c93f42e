-- ===== src/Rpc/Handlers.antt =====
-- pkg/accounts_service/v1/protos/accounts_service_v1_grpc.pb.go: the handlers of the methods and their
-- table.
use accounts_service.Prelude.{Option, [], ◌∷◌}
use accounts_service.External.{External}
use accounts_service.Effect.{M}
use accounts_service.Service.Process.{Process}
use accounts_service.System.Server.{Request, Response}
use accounts_service.Gateway.{Server}
use accounts_service.Rpc.{
  Decode, Interceptor, ServiceDesc, method_handler, create_account_type, empty_type,
  verification_token_type, verify_account_type, sign_in_type, change_password_token_type,
  change_password_type, terminate_sessions_type,
}

module _ ⦃x : External⦄ (server : Server) where
  abbrev Method : Type 0
  Method = x.Ctx → Decode → Option Interceptor → M Process Response

  -- `_AccountsServiceV1_CreateAccount_Handler`
  unfoldable pub create_account_method : Method
  create_account_method =
      method_handler server "/accounts_service.accountsServiceV1/CreateAccount" create_account_type
        Request.create_account

  -- `_AccountsServiceV1_DeleteAccount_Handler`
  unfoldable pub delete_account_method : Method
  delete_account_method =
      method_handler server "/accounts_service.accountsServiceV1/DeleteAccount" empty_type
        (λ _. Request.delete_account)

  -- `_AccountsServiceV1_RequestAccountVerificationToken_Handler`
  unfoldable pub request_account_verification_token_method : Method
  request_account_verification_token_method =
      method_handler server "/accounts_service.accountsServiceV1/RequestAccountVerificationToken"
        verification_token_type (λ m. Request.request_account_verification_token m.0 m.1)

  -- `_AccountsServiceV1_VerifyAccount_Handler`
  unfoldable pub verify_account_method : Method
  verify_account_method =
      method_handler server "/accounts_service.accountsServiceV1/VerifyAccount" verify_account_type
        Request.verify_account

  -- `_AccountsServiceV1_SignIn_Handler`
  unfoldable pub sign_in_method : Method
  sign_in_method =
      method_handler server "/accounts_service.accountsServiceV1/SignIn" sign_in_type
        Request.sign_in

  -- `_AccountsServiceV1_GetAccountID_Handler`
  unfoldable pub get_account_id_method : Method
  get_account_id_method =
      method_handler server "/accounts_service.accountsServiceV1/GetAccountID" empty_type
        (λ _. Request.get_account_id)

  -- `_AccountsServiceV1_Logout_Handler`
  unfoldable pub logout_method : Method
  logout_method =
      method_handler server "/accounts_service.accountsServiceV1/Logout" empty_type
        (λ _. Request.logout)

  -- `_AccountsServiceV1_RequestChangePasswordToken_Handler`
  unfoldable pub request_change_password_token_method : Method
  request_change_password_token_method =
      method_handler server "/accounts_service.accountsServiceV1/RequestChangePasswordToken"
        change_password_token_type (λ m. Request.request_change_password_token m.0 m.1)

  -- `_AccountsServiceV1_ChangePassword_Handler`
  unfoldable pub change_password_method : Method
  change_password_method =
      method_handler server "/accounts_service.accountsServiceV1/ChangePassword"
        change_password_type (λ m. Request.change_password m.0 m.1)

  -- `_AccountsServiceV1_GetAllSessions_Handler`
  unfoldable pub get_all_sessions_method : Method
  get_all_sessions_method =
      method_handler server "/accounts_service.accountsServiceV1/GetAllSessions" empty_type
        (λ _. Request.get_all_sessions)

  -- `_AccountsServiceV1_TerminateSessions_Handler`
  unfoldable pub terminate_sessions_method : Method
  terminate_sessions_method =
      method_handler server "/accounts_service.accountsServiceV1/TerminateSessions"
        terminate_sessions_type Request.terminate_sessions

  -- `AccountsServiceV1_ServiceDesc`
  abbrev pub service_desc : ServiceDesc
  service_desc = record {
    service_name = "accounts_service.accountsServiceV1";
    methods =
        record { method_name = "CreateAccount"; handler = create_account_method }
        ∷ record { method_name = "DeleteAccount"; handler = delete_account_method }
        ∷ record {
          method_name = "RequestAccountVerificationToken";
          handler = request_account_verification_token_method;
        }
        ∷ record { method_name = "VerifyAccount"; handler = verify_account_method }
        ∷ record { method_name = "SignIn"; handler = sign_in_method }
        ∷ record { method_name = "GetAccountID"; handler = get_account_id_method }
        ∷ record { method_name = "Logout"; handler = logout_method }
        ∷ record {
          method_name = "RequestChangePasswordToken";
          handler = request_change_password_token_method;
        }
        ∷ record { method_name = "ChangePassword"; handler = change_password_method }
        ∷ record { method_name = "GetAllSessions"; handler = get_all_sessions_method }
        ∷ record { method_name = "TerminateSessions"; handler = terminate_sessions_method }
        ∷ [];
  }
