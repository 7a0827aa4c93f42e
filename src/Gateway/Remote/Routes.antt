-- ===== src/Gateway/Remote/Routes.antt =====
-- pkg/accounts_service/v1/protos/accounts_service_v1.pb.gw.go: the routes that
-- `RegisterAccountsServiceV1HandlerClient` registers.
use accounts_service.Prelude.{String, List, [], ◌∷◌}
use accounts_service.External.{External}
use accounts_service.Effect.{Result}
use accounts_service.Rpc.Client.{Client}
use accounts_service.Gateway.{Rest}
use accounts_service.Gateway.Patterns
use accounts_service.Gateway.Routes.{Route}
use accounts_service.Gateway.Remote
use accounts_service.Gateway.Remote.{remote_handler}

module _ ⦃x : External⦄ (g : Rest)
    (annotate : x.Ctx → g.HttpRequest → String → String → Result x.Ctx)
    (client : Client g.Metadata) where
  unfoldable create_account_remote : Route g
  create_account_remote = record {
    method = "POST";
    pattern = Patterns.create_account_pattern;
    handler =
        remote_handler g annotate "/accounts_service.AccountsServiceV1/CreateAccount" "/v1/sign-up"
          (Remote.request_create_account g client);
  }

  unfoldable delete_account_remote : Route g
  delete_account_remote = record {
    method = "DELETE";
    pattern = Patterns.delete_account_pattern;
    handler =
        remote_handler g annotate "/accounts_service.AccountsServiceV1/DeleteAccount" "/v1/account"
          (Remote.request_delete_account g client);
  }

  unfoldable request_account_verification_token_remote : Route g
  request_account_verification_token_remote = record {
    method = "GET";
    pattern = Patterns.request_account_verification_token_pattern;
    handler =
        remote_handler g annotate
          "/accounts_service.AccountsServiceV1/RequestAccountVerificationToken" "/v1/verification"
          (Remote.request_request_account_verification_token g client);
  }

  unfoldable verify_account_remote : Route g
  verify_account_remote = record {
    method = "POST";
    pattern = Patterns.verify_account_pattern;
    handler =
        remote_handler g annotate "/accounts_service.AccountsServiceV1/VerifyAccount"
          "/v1/verification/{VerificationToken}" (Remote.request_verify_account g client);
  }

  unfoldable sign_in_remote : Route g
  sign_in_remote = record {
    method = "POST";
    pattern = Patterns.sign_in_pattern;
    handler =
        remote_handler g annotate "/accounts_service.AccountsServiceV1/SignIn" "/v1/sign-in"
          (Remote.request_sign_in g client);
  }

  unfoldable get_account_id_remote : Route g
  get_account_id_remote = record {
    method = "GET";
    pattern = Patterns.get_account_id_pattern;
    handler =
        remote_handler g annotate "/accounts_service.AccountsServiceV1/GetAccountID"
          "/v1/account-id" (Remote.request_get_account_id g client);
  }

  unfoldable logout_remote : Route g
  logout_remote = record {
    method = "POST";
    pattern = Patterns.logout_pattern;
    handler =
        remote_handler g annotate "/accounts_service.AccountsServiceV1/Logout" "/v1/logout"
          (Remote.request_logout g client);
  }

  unfoldable request_change_password_token_remote : Route g
  request_change_password_token_remote = record {
    method = "GET";
    pattern = Patterns.request_change_password_token_pattern;
    handler =
        remote_handler g annotate "/accounts_service.AccountsServiceV1/RequestChangePasswordToken"
          "/v1/change/password" (Remote.request_request_change_password_token g client);
  }

  unfoldable change_password_remote : Route g
  change_password_remote = record {
    method = "POST";
    pattern = Patterns.change_password_pattern;
    handler =
        remote_handler g annotate "/accounts_service.AccountsServiceV1/ChangePassword"
          "/v1/change-password" (Remote.request_change_password g client);
  }

  unfoldable get_all_sessions_remote : Route g
  get_all_sessions_remote = record {
    method = "GET";
    pattern = Patterns.get_all_sessions_pattern;
    handler =
        remote_handler g annotate "/accounts_service.AccountsServiceV1/GetAllSessions"
          "/v1/sessions" (Remote.request_get_all_sessions g client);
  }

  unfoldable terminate_sessions_remote : Route g
  terminate_sessions_remote = record {
    method = "POST";
    pattern = Patterns.terminate_sessions_pattern;
    handler =
        remote_handler g annotate "/accounts_service.AccountsServiceV1/TerminateSessions"
          "/v1/sessions/terminate" (Remote.request_terminate_sessions g client);
  }

  -- `RegisterAccountsServiceV1HandlerClient`
  unfoldable pub remote_routes : List (Route g)
  unfolding create_account_remote delete_account_remote request_account_verification_token_remote
      verify_account_remote sign_in_remote get_account_id_remote logout_remote
      request_change_password_token_remote change_password_remote get_all_sessions_remote
      terminate_sessions_remote
  remote_routes =
      create_account_remote ∷ delete_account_remote ∷ request_account_verification_token_remote
      ∷ verify_account_remote ∷ sign_in_remote ∷ get_account_id_remote ∷ logout_remote
      ∷ request_change_password_token_remote ∷ change_password_remote ∷ get_all_sessions_remote
      ∷ terminate_sessions_remote ∷ []
