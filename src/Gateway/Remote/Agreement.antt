-- ===== src/Gateway/Remote/Agreement.antt =====
-- pkg/accounts_service/v1/protos/accounts_service_v1.pb.gw.go: the two gateways, over a client
-- and over a server.
use accounts_service.Prelude.{String, map, ◌≡◌, refl, ◌∙◌, ap}
use accounts_service.External.{External}
use accounts_service.Effect.{Result, ok, err, Outcome, done, fail, M, from_result, ◌>>=◌}
use accounts_service.Service.Process.{Process}
use accounts_service.System.Server.{Request, Response}
use accounts_service.Rpc.Client.{Client, Call}
use accounts_service.Gateway.{Rest, Server, Params, Pattern}
use accounts_service.Gateway.Requests
use accounts_service.Gateway.Requests.{LocalRequest, body_message, query_message, token_param}
use accounts_service.Gateway.Remote
use accounts_service.Gateway.Remote.{RemoteRequest, or_call}
use accounts_service.Gateway.Routes.{Route, routes}
use accounts_service.Gateway.Remote.Routes.{remote_routes}

module _ ⦃x : External⦄ (g : Rest) where
  abbrev pub outcome_of : Result Response → Outcome Response
  outcome_of (ok m) = done m
  outcome_of (err e) = fail e

  -- A call without its metadata.
  abbrev pub plain : Call g.Metadata → M Process Response
  plain call p = let ((r, md), p') = call p in (outcome_of r, p')

  plain-or_call :
      {A : Type 0} (r : Result A) (k : A → Call g.Metadata)
      → plain (or_call g r k) ≡ (from_result r >>= λ a. plain (k a))
  plain-or_call (ok a) k = refl
  plain-or_call (err e) k = refl

module _ ⦃x : External⦄ (g : Rest) (client : Client g.Metadata) where
  -- The client as a server.
  abbrev pub as_server : Server
  as_server ctx r = plain g (client ctx r)

  abbrev pub Agrees : RemoteRequest g → LocalRequest g as_server → Type 0
  Agrees remote_request local_request =
      (ctx : x.Ctx) (req : g.HttpRequest) (params : Params)
      → plain g (remote_request ctx req params) ≡ local_request ctx req params

  create_account-Agrees :
      Agrees (Remote.request_create_account g client) (Requests.local_create_account g as_server)
  unfolding Remote.request_create_account Requests.local_create_account
  create_account-Agrees ctx req params =
      plain-or_call g (body_message g g.decode_create_account req)
        (λ m. client ctx (Request.create_account m))

  delete_account-Agrees :
      Agrees (Remote.request_delete_account g client) (Requests.local_delete_account g as_server)
  unfolding Remote.request_delete_account Requests.local_delete_account
  delete_account-Agrees ctx req params = refl

  request_account_verification_token-Agrees :
      Agrees
        (Remote.request_request_account_verification_token g client)
        (Requests.local_request_account_verification_token g as_server)
  unfolding Remote.request_request_account_verification_token
      Requests.local_request_account_verification_token
  request_account_verification_token-Agrees ctx req params =
      plain-or_call g (query_message g g.populate_verification_token req)
        (λ m. client ctx (Request.request_account_verification_token m.0 m.1))

  verify_account-Agrees :
      Agrees (Remote.request_verify_account g client) (Requests.local_verify_account g as_server)
  unfolding Remote.request_verify_account Requests.local_verify_account
  verify_account-Agrees ctx req params =
      plain-or_call g (body_message g g.decode_verify_account req)
        (λ _. or_call g (token_param g params) (λ token. client ctx (Request.verify_account token)))
      ∙ ap (λ m. from_result (body_message g g.decode_verify_account req) >>= λ _. m)
          (plain-or_call g (token_param g params)
            (λ token. client ctx (Request.verify_account token)))

  sign_in-Agrees : Agrees (Remote.request_sign_in g client) (Requests.local_sign_in g as_server)
  unfolding Remote.request_sign_in Requests.local_sign_in
  sign_in-Agrees ctx req params =
      plain-or_call g (body_message g g.decode_sign_in req) (λ m. client ctx (Request.sign_in m))

  get_account_id-Agrees :
      Agrees (Remote.request_get_account_id g client) (Requests.local_get_account_id g as_server)
  unfolding Remote.request_get_account_id Requests.local_get_account_id
  get_account_id-Agrees ctx req params = refl

  logout-Agrees : Agrees (Remote.request_logout g client) (Requests.local_logout g as_server)
  unfolding Remote.request_logout Requests.local_logout
  logout-Agrees ctx req params = refl

  request_change_password_token-Agrees :
      Agrees
        (Remote.request_request_change_password_token g client)
        (Requests.local_request_change_password_token g as_server)
  unfolding Remote.request_request_change_password_token
      Requests.local_request_change_password_token
  request_change_password_token-Agrees ctx req params =
      plain-or_call g (query_message g g.populate_change_password_token req)
        (λ m. client ctx (Request.request_change_password_token m.0 m.1))

  change_password-Agrees :
      Agrees (Remote.request_change_password g client) (Requests.local_change_password g as_server)
  unfolding Remote.request_change_password Requests.local_change_password
  change_password-Agrees ctx req params =
      plain-or_call g (body_message g g.decode_change_password req)
        (λ m. client ctx (Request.change_password m.0 m.1))

  get_all_sessions-Agrees :
      Agrees
        (Remote.request_get_all_sessions g client)
        (Requests.local_get_all_sessions g as_server)
  unfolding Remote.request_get_all_sessions Requests.local_get_all_sessions
  get_all_sessions-Agrees ctx req params = refl

  terminate_sessions-Agrees :
      Agrees
        (Remote.request_terminate_sessions g client)
        (Requests.local_terminate_sessions g as_server)
  unfolding Remote.request_terminate_sessions Requests.local_terminate_sessions
  terminate_sessions-Agrees ctx req params =
      plain-or_call g (body_message g g.decode_terminate_sessions req)
        (λ m. client ctx (Request.terminate_sessions m))

  -- Each function over the client with the one over a server.
  abbrev AgreesEach : Type 0
  AgreesEach =
      Agrees (Remote.request_create_account g client) (Requests.local_create_account g as_server)
      × Agrees (Remote.request_delete_account g client) (Requests.local_delete_account g as_server)
      × Agrees (Remote.request_request_account_verification_token g client)
          (Requests.local_request_account_verification_token g as_server)
      × Agrees (Remote.request_verify_account g client) (Requests.local_verify_account g as_server)
      × Agrees (Remote.request_sign_in g client) (Requests.local_sign_in g as_server)
      × Agrees (Remote.request_get_account_id g client) (Requests.local_get_account_id g as_server)
      × Agrees (Remote.request_logout g client) (Requests.local_logout g as_server)
      × Agrees (Remote.request_request_change_password_token g client)
          (Requests.local_request_change_password_token g as_server)
      × Agrees (Remote.request_change_password g client)
          (Requests.local_change_password g as_server)
      × Agrees (Remote.request_get_all_sessions g client)
          (Requests.local_get_all_sessions g as_server)
      × Agrees (Remote.request_terminate_sessions g client)
          (Requests.local_terminate_sessions g as_server)

  pub requests-AgreesEach : AgreesEach
  requests-AgreesEach = (
    create_account-Agrees, delete_account-Agrees, request_account_verification_token-Agrees,
    verify_account-Agrees, sign_in-Agrees, get_account_id-Agrees, logout-Agrees,
    request_change_password_token-Agrees, change_password-Agrees, get_all_sessions-Agrees,
    terminate_sessions-Agrees,
  )

  -- The gateway over a client serves the same methods and patterns, in the same order, as the gateway
  -- over a server; and each of its functions calls the client with what the other calls the server
  -- with, or refuses the request with the same status.
  remote-Agrees :
      (annotate : x.Ctx → g.HttpRequest → String → String → Result x.Ctx)
      → let endpoint : Route g → String × Pattern = λ r. (r.method, r.pattern) in
        (map endpoint (remote_routes g annotate client) ≡ map endpoint (routes g as_server))
        × AgreesEach
  unfolding remote_routes routes
  remote-Agrees annotate = (refl, requests-AgreesEach)
