-- ===== src/Gateway/Routes.antt =====
-- pkg/accounts_service/v1/protos/accounts_service_v1.pb.gw.go: the routes that
-- `RegisterAccountsServiceV1HandlerServer` registers.
use accounts_service.Prelude.{String, List, [], ◌∷◌}
use accounts_service.External.{External}
use accounts_service.Effect.{M}
use accounts_service.Service.Process.{Process}
use accounts_service.Gateway.{Rest, Server, Pattern, Params, Reply, http_handler}
use accounts_service.Gateway.Patterns.{
  create_account_pattern, delete_account_pattern, request_account_verification_token_pattern,
  verify_account_pattern, sign_in_pattern, get_account_id_pattern, logout_pattern,
  request_change_password_token_pattern, change_password_pattern, get_all_sessions_pattern,
  terminate_sessions_pattern,
}
use accounts_service.Gateway.Requests.{
  local_create_account, local_delete_account, local_request_account_verification_token,
  local_verify_account, local_sign_in, local_get_account_id, local_logout,
  local_request_change_password_token, local_change_password, local_get_all_sessions,
  local_terminate_sessions,
}

module _ ⦃x : External⦄ (g : Rest) where
  -- The arguments of `mux.Handle`.
  pub record Route : Type 0 where
    pub method : String
    pub pattern : Pattern
    pub handler : g.HttpRequest → Params → M Process Reply

module _ ⦃x : External⦄ (g : Rest) (server : Server) where
  unfoldable pub create_account_route : Route g
  create_account_route = record {
    method = "POST";
    pattern = create_account_pattern;
    handler =
        http_handler g "/accounts_service.AccountsServiceV1/CreateAccount" "/v1/sign-up"
          (local_create_account g server);
  }

  unfoldable pub delete_account_route : Route g
  delete_account_route = record {
    method = "DELETE";
    pattern = delete_account_pattern;
    handler =
        http_handler g "/accounts_service.AccountsServiceV1/DeleteAccount" "/v1/account"
          (local_delete_account g server);
  }

  unfoldable pub request_account_verification_token_route : Route g
  request_account_verification_token_route = record {
    method = "GET";
    pattern = request_account_verification_token_pattern;
    handler =
        http_handler g "/accounts_service.AccountsServiceV1/RequestAccountVerificationToken"
          "/v1/verification" (local_request_account_verification_token g server);
  }

  unfoldable pub verify_account_route : Route g
  verify_account_route = record {
    method = "POST";
    pattern = verify_account_pattern;
    handler =
        http_handler g "/accounts_service.AccountsServiceV1/VerifyAccount"
          "/v1/verification/{VerificationToken}" (local_verify_account g server);
  }

  unfoldable pub sign_in_route : Route g
  sign_in_route = record {
    method = "POST";
    pattern = sign_in_pattern;
    handler =
        http_handler g "/accounts_service.AccountsServiceV1/SignIn" "/v1/sign-in"
          (local_sign_in g server);
  }

  unfoldable pub get_account_id_route : Route g
  get_account_id_route = record {
    method = "GET";
    pattern = get_account_id_pattern;
    handler =
        http_handler g "/accounts_service.AccountsServiceV1/GetAccountID" "/v1/account-id"
          (local_get_account_id g server);
  }

  unfoldable pub logout_route : Route g
  logout_route = record {
    method = "POST";
    pattern = logout_pattern;
    handler =
        http_handler g "/accounts_service.AccountsServiceV1/Logout" "/v1/logout"
          (local_logout g server);
  }

  unfoldable pub request_change_password_token_route : Route g
  request_change_password_token_route = record {
    method = "GET";
    pattern = request_change_password_token_pattern;
    handler =
        http_handler g "/accounts_service.AccountsServiceV1/RequestChangePasswordToken"
          "/v1/change/password" (local_request_change_password_token g server);
  }

  unfoldable pub change_password_route : Route g
  change_password_route = record {
    method = "POST";
    pattern = change_password_pattern;
    handler =
        http_handler g "/accounts_service.AccountsServiceV1/ChangePassword" "/v1/change-password"
          (local_change_password g server);
  }

  unfoldable pub get_all_sessions_route : Route g
  get_all_sessions_route = record {
    method = "GET";
    pattern = get_all_sessions_pattern;
    handler =
        http_handler g "/accounts_service.AccountsServiceV1/GetAllSessions" "/v1/sessions"
          (local_get_all_sessions g server);
  }

  unfoldable pub terminate_sessions_route : Route g
  terminate_sessions_route = record {
    method = "POST";
    pattern = terminate_sessions_pattern;
    handler =
        http_handler g "/accounts_service.AccountsServiceV1/TerminateSessions"
          "/v1/sessions/terminate" (local_terminate_sessions g server);
  }

  -- `RegisterAccountsServiceV1HandlerServer`
  unfoldable pub routes : List (Route g)
  unfolding create_account_route delete_account_route request_account_verification_token_route
      verify_account_route sign_in_route get_account_id_route logout_route
      request_change_password_token_route change_password_route get_all_sessions_route
      terminate_sessions_route
  routes =
      create_account_route ∷ delete_account_route ∷ request_account_verification_token_route
      ∷ verify_account_route ∷ sign_in_route ∷ get_account_id_route ∷ logout_route
      ∷ request_change_password_token_route ∷ change_password_route ∷ get_all_sessions_route
      ∷ terminate_sessions_route ∷ []
