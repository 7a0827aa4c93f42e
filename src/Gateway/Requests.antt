-- ===== src/Gateway/Requests.antt =====
-- pkg/accounts_service/v1/protos/accounts_service_v1.pb.gw.go: the functions `local_request_…`,
-- which make the message of a method from an HTTP request. The metadata that they return are empty.
use accounts_service.Prelude.{String, ◌<>◌, Option, none, some, [], ◌∷◌, ◌==◌, if◌then◌else◌}
use accounts_service.Models.Errors.{GoError, status_error, grpc_invalid_argument}
use accounts_service.External.{External}
use accounts_service.Effect.{Result, ok, err, M, from_result, ◌>>=◌}
use accounts_service.Service.Process.{Process}
use accounts_service.Service.Accounts.{error_text}
use accounts_service.System.Server.{Request, Response}
use accounts_service.Gateway.{Rest, Server, Params}

-- `pathParams[name]`
unfoldable pub path_param : String → Params → Option String
path_param name [] = none
path_param name ((k, v) ∷ ps) = if k == name then some v else path_param name ps

module _ ⦃x : External⦄ where
  -- `status.Errorf(codes.InvalidArgument, "%v", err)`
  abbrev invalid : GoError → GoError
  invalid e = status_error grpc_invalid_argument (error_text e)

  -- `if err != nil { return … }`
  abbrev or_invalid : {A : Type 0} → Result A → Result A
  or_invalid (ok a) = ok a
  or_invalid (err e) = err (invalid e)

module _ ⦃x : External⦄ (g : Rest) where
  -- `if err := …Decode(&protoReq); err != nil && err != io.EOF { … }`
  unfoldable pub decoded : {A : Type 0} → A × Option GoError → Result A
  decoded (a, none) = ok a
  decoded (a, some e) = if g.is_eof e then ok a else err (invalid e)

  -- The message that the body carries.
  unfoldable pub body_message :
      {A : Type 0} → (g.HttpRequest → g.Body → A × Option GoError) → g.HttpRequest → Result A
  unfolding decoded
  body_message decode req = elim (or_invalid (g.read_body req)) [
    | err e ↦ err e
    | ok body ↦ decoded (decode req body)
  ]

  -- The message that the query carries.
  unfoldable pub query_message : {A : Type 0} → (g.Form → Result A) → g.HttpRequest → Result A
  query_message populate req = elim (or_invalid (g.parse_form req)) [
    | err e ↦ err e
    | ok form ↦ or_invalid (populate form)
  ]

  -- `protoReq.VerificationToken`, whatever the body has said.
  unfoldable pub token_param : Params → Result String
  unfolding path_param
  token_param params = elim (path_param "VerificationToken" params) [
    | none ↦ err (status_error grpc_invalid_argument "missing parameter VerificationToken")
    | some val ↦ elim (g.string_param val) [
      | ok token ↦ ok token
      | err e ↦ err (
          status_error grpc_invalid_argument
            ("type mismatch, parameter: VerificationToken, error: " <> error_text e))
    ]
  ]

  module _ (server : Server) where
    abbrev pub LocalRequest : Type 0
    LocalRequest = x.Ctx → g.HttpRequest → Params → M Process Response

    -- `local_request_AccountsServiceV1_CreateAccount_0`
    unfoldable pub local_create_account : LocalRequest
    unfolding body_message
    local_create_account ctx req params =
        from_result (body_message g.decode_create_account req) >>= λ m.
        server ctx (Request.create_account m)

    -- `local_request_AccountsServiceV1_DeleteAccount_0`
    unfoldable pub local_delete_account : LocalRequest
    local_delete_account ctx req params = server ctx Request.delete_account

    -- `local_request_AccountsServiceV1_RequestAccountVerificationToken_0`
    unfoldable pub local_request_account_verification_token : LocalRequest
    unfolding query_message
    local_request_account_verification_token ctx req params =
        from_result (query_message g.populate_verification_token req) >>= λ m.
        server ctx (Request.request_account_verification_token m.0 m.1)

    -- `local_request_AccountsServiceV1_VerifyAccount_0`
    unfoldable pub local_verify_account : LocalRequest
    unfolding body_message token_param
    local_verify_account ctx req params = do
      _ ← from_result (body_message g.decode_verify_account req)
      token ← from_result (token_param params)
      server ctx (Request.verify_account token)

    -- `local_request_AccountsServiceV1_SignIn_0`
    unfoldable pub local_sign_in : LocalRequest
    unfolding body_message
    local_sign_in ctx req params =
        from_result (body_message g.decode_sign_in req) >>= λ m. server ctx (Request.sign_in m)

    -- `local_request_AccountsServiceV1_GetAccountID_0`
    unfoldable pub local_get_account_id : LocalRequest
    local_get_account_id ctx req params = server ctx Request.get_account_id

    -- `local_request_AccountsServiceV1_Logout_0`
    unfoldable pub local_logout : LocalRequest
    local_logout ctx req params = server ctx Request.logout

    -- `local_request_AccountsServiceV1_RequestChangePasswordToken_0`
    unfoldable pub local_request_change_password_token : LocalRequest
    unfolding query_message
    local_request_change_password_token ctx req params =
        from_result (query_message g.populate_change_password_token req) >>= λ m.
        server ctx (Request.request_change_password_token m.0 m.1)

    -- `local_request_AccountsServiceV1_ChangePassword_0`
    unfoldable pub local_change_password : LocalRequest
    unfolding body_message
    local_change_password ctx req params =
        from_result (body_message g.decode_change_password req) >>= λ m.
        server ctx (Request.change_password m.0 m.1)

    -- `local_request_AccountsServiceV1_GetAllSessions_0`
    unfoldable pub local_get_all_sessions : LocalRequest
    local_get_all_sessions ctx req params = server ctx Request.get_all_sessions

    -- `local_request_AccountsServiceV1_TerminateSessions_0`
    unfoldable pub local_terminate_sessions : LocalRequest
    unfolding body_message
    local_terminate_sessions ctx req params =
        from_result (body_message g.decode_terminate_sessions req) >>= λ ids.
        server ctx (Request.terminate_sessions ids)
