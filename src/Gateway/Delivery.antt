-- ===== src/Gateway/Delivery.antt =====
-- pkg/accounts_service/v1/protos/accounts_service_v1.pb.gw.go: where the HTTP request of each call
-- of a method is dispatched to.
use mathlib.Core.List.Memᴰ.{head, tail}
use accounts_service.Prelude.{String, some, List, [], ◌∷◌, ◌≡◌, refl}
use accounts_service.External.{External}
use accounts_service.Handler.Validation.{CreateAccountRequest}
use accounts_service.Handler.Methods.{SignInRequest}
use accounts_service.System.Server.{Request}
use accounts_service.Gateway.{Rest, Server}
use accounts_service.Gateway.Requests
use accounts_service.Gateway.Requests.{
  LocalRequest, decoded, body_message, query_message, token_param, path_param,
}
use accounts_service.Gateway.Routes
use accounts_service.Gateway.Routes.{Route, routes}
use accounts_service.Gateway.Mux.{
  address, Carries, Mux, dispatch-route, IsDelivered, body_message-HasBody, query_message-HasQuery,
}

module _ ⦃x : External⦄ (g : Rest) (server : Server) (mux : Mux g) where
  abbrev Delivers : Request → Type 0
  Delivers r =
      (req : g.HttpRequest)
      → mux.method req ≡ (address r).0
      → mux.path req ≡ some (address r).1
      → Carries g req r
      → IsDelivered g server mux req r

  pub create_account-IsDelivered : (m : CreateAccountRequest) → Delivers (Request.create_account m)
  unfolding Routes.routes Routes.create_account_route Requests.local_create_account
  create_account-IsDelivered m req same at carried =
      let route = Routes.create_account_route g server in
      (
        route,
        [],
        "/accounts_service.AccountsServiceV1/CreateAccount",
        "/v1/sign-up",
        Requests.local_create_account g server,
        dispatch-route g server mux route req _ [] (head refl) same at refl,
        refl,
        λ ctx.
            rw
              (
                Requests.local_create_account,
                body_message-HasBody g g.decode_create_account req m carried,
              )
              refl,
      )

  pub delete_account-IsDelivered : Delivers (Request.delete_account)
  unfolding Routes.routes Routes.delete_account_route Requests.local_delete_account
  delete_account-IsDelivered req same at carried =
      let route = Routes.delete_account_route g server in
      (
        route,
        [],
        "/accounts_service.AccountsServiceV1/DeleteAccount",
        "/v1/account",
        Requests.local_delete_account g server,
        dispatch-route g server mux route req _ [] (tail (head refl)) same at refl,
        refl,
        λ ctx. refl,
      )

  pub request_account_verification_token-IsDelivered :
      (email : String) (url : String)
      → Delivers (Request.request_account_verification_token email url)
  unfolding Routes.routes Routes.request_account_verification_token_route
      Requests.local_request_account_verification_token
  request_account_verification_token-IsDelivered email url req same at carried =
      let route = Routes.request_account_verification_token_route g server in
      (
        route,
        [],
        "/accounts_service.AccountsServiceV1/RequestAccountVerificationToken",
        "/v1/verification",
        Requests.local_request_account_verification_token g server,
        dispatch-route g server mux route req _ [] (tail (tail (head refl))) same at refl,
        refl,
        λ ctx.
            rw
              (
                Requests.local_request_account_verification_token,
                query_message-HasQuery g g.populate_verification_token req (email, url) carried,
              )
              refl,
      )

  pub verify_account-IsDelivered : (token : String) → Delivers (Request.verify_account token)
  unfolding Routes.routes Routes.verify_account_route Requests.local_verify_account token_param
      path_param
  verify_account-IsDelivered token req same at carried =
      let route = Routes.verify_account_route g server in
      (
        route,
        (("VerificationToken", token) ∷ []),
        "/accounts_service.AccountsServiceV1/VerifyAccount",
        "/v1/verification/{VerificationToken}",
        Requests.local_verify_account g server,
        dispatch-route g server mux route req _ (("VerificationToken", token) ∷ [])
            (tail (tail (tail (head refl)))) same at refl,
        refl,
        λ ctx.
            let ((other, body), spelled) = carried in
            rw
              (
                Requests.local_verify_account,
                body_message-HasBody g g.decode_verify_account req other body,
                token_param,
                spelled,
              )
              refl,
      )

  pub sign_in-IsDelivered : (m : SignInRequest) → Delivers (Request.sign_in m)
  unfolding Routes.routes Routes.sign_in_route Requests.local_sign_in
  sign_in-IsDelivered m req same at carried =
      let route = Routes.sign_in_route g server in
      (
        route,
        [],
        "/accounts_service.AccountsServiceV1/SignIn",
        "/v1/sign-in",
        Requests.local_sign_in g server,
        dispatch-route g server mux route req _ [] (tail (tail (tail (tail (head refl))))) same at
            refl,
        refl,
        λ ctx.
            rw (Requests.local_sign_in, body_message-HasBody g g.decode_sign_in req m carried) refl,
      )

  pub get_account_id-IsDelivered : Delivers (Request.get_account_id)
  unfolding Routes.routes Routes.get_account_id_route Requests.local_get_account_id
  get_account_id-IsDelivered req same at carried =
      let route = Routes.get_account_id_route g server in
      (
        route,
        [],
        "/accounts_service.AccountsServiceV1/GetAccountID",
        "/v1/account-id",
        Requests.local_get_account_id g server,
        dispatch-route g server mux route req _ [] (tail (tail (tail (tail (tail (head refl))))))
            same at refl,
        refl,
        λ ctx. refl,
      )

  pub logout-IsDelivered : Delivers (Request.logout)
  unfolding Routes.routes Routes.logout_route Requests.local_logout
  logout-IsDelivered req same at carried =
      let route = Routes.logout_route g server in
      (
        route,
        [],
        "/accounts_service.AccountsServiceV1/Logout",
        "/v1/logout",
        Requests.local_logout g server,
        dispatch-route g server mux route req _ []
            (tail (tail (tail (tail (tail (tail (head refl))))))) same at refl,
        refl,
        λ ctx. refl,
      )

  pub request_change_password_token-IsDelivered :
      (email : String) (url : String) → Delivers (Request.request_change_password_token email url)
  unfolding Routes.routes Routes.request_change_password_token_route
      Requests.local_request_change_password_token
  request_change_password_token-IsDelivered email url req same at carried =
      let route = Routes.request_change_password_token_route g server in
      (
        route,
        [],
        "/accounts_service.AccountsServiceV1/RequestChangePasswordToken",
        "/v1/change/password",
        Requests.local_request_change_password_token g server,
        dispatch-route g server mux route req _ []
            (tail (tail (tail (tail (tail (tail (tail (head refl)))))))) same at refl,
        refl,
        λ ctx.
            rw
              (
                Requests.local_request_change_password_token,
                query_message-HasQuery g g.populate_change_password_token req (email, url) carried,
              )
              refl,
      )

  pub change_password-IsDelivered :
      (token : String) (new_password : String)
      → Delivers (Request.change_password token new_password)
  unfolding Routes.routes Routes.change_password_route Requests.local_change_password
  change_password-IsDelivered token new_password req same at carried =
      let route = Routes.change_password_route g server in
      (
        route,
        [],
        "/accounts_service.AccountsServiceV1/ChangePassword",
        "/v1/change-password",
        Requests.local_change_password g server,
        dispatch-route g server mux route req _ []
            (tail (tail (tail (tail (tail (tail (tail (tail (head refl))))))))) same at refl,
        refl,
        λ ctx.
            rw
              (
                Requests.local_change_password,
                body_message-HasBody g g.decode_change_password req (token, new_password) carried,
              )
              refl,
      )

  pub get_all_sessions-IsDelivered : Delivers (Request.get_all_sessions)
  unfolding Routes.routes Routes.get_all_sessions_route Requests.local_get_all_sessions
  get_all_sessions-IsDelivered req same at carried =
      let route = Routes.get_all_sessions_route g server in
      (
        route,
        [],
        "/accounts_service.AccountsServiceV1/GetAllSessions",
        "/v1/sessions",
        Requests.local_get_all_sessions g server,
        dispatch-route g server mux route req _ []
            (tail (tail (tail (tail (tail (tail (tail (tail (tail (head refl)))))))))) same at refl,
        refl,
        λ ctx. refl,
      )

  pub terminate_sessions-IsDelivered :
      (ids : List String) → Delivers (Request.terminate_sessions ids)
  unfolding Routes.routes Routes.terminate_sessions_route Requests.local_terminate_sessions
  terminate_sessions-IsDelivered ids req same at carried =
      let route = Routes.terminate_sessions_route g server in
      (
        route,
        [],
        "/accounts_service.AccountsServiceV1/TerminateSessions",
        "/v1/sessions/terminate",
        Requests.local_terminate_sessions g server,
        dispatch-route g server mux route req _ []
            (tail (tail (tail (tail (tail (tail (tail (tail (tail (tail (head refl))))))))))) same
            at refl,
        refl,
        λ ctx.
            rw
              (
                Requests.local_terminate_sessions,
                body_message-HasBody g g.decode_terminate_sessions req ids carried,
              )
              refl,
      )
