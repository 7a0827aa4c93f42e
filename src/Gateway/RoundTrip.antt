-- ===== src/Gateway/RoundTrip.antt =====
-- pkg/accounts_service/v1/protos/accounts_service_v1.pb.gw.go: from the calls of the methods to
-- HTTP requests and back.
use accounts_service.Prelude.{some, ◌≡◌}
use accounts_service.External.{External}
use accounts_service.System.Server.{Request}
use accounts_service.Gateway.{Rest, Server}
use accounts_service.Gateway.Mux.{address, Carries, Mux, IsDelivered}
use accounts_service.Gateway.Delivery.{
  create_account-IsDelivered, delete_account-IsDelivered,
  request_account_verification_token-IsDelivered, verify_account-IsDelivered, sign_in-IsDelivered,
  get_account_id-IsDelivered, logout-IsDelivered, request_change_password_token-IsDelivered,
  change_password-IsDelivered, get_all_sessions-IsDelivered, terminate_sessions-IsDelivered,
}

module _ ⦃x : External⦄ (g : Rest) (server : Server) (mux : Mux g) where
  -- An HTTP request with the method, the path and the message of a call is dispatched to a route
  -- whose handler calls the server with just that call, whatever token the body of a verification
  -- names.
  pub request-IsDelivered :
      (r : Request) (req : g.HttpRequest)
      → mux.method req ≡ (address r).0
      → mux.path req ≡ some (address r).1
      → Carries g req r
      → IsDelivered g server mux req r
  request-IsDelivered (Request.create_account m) = create_account-IsDelivered g server mux m
  request-IsDelivered (Request.delete_account) = delete_account-IsDelivered g server mux
  request-IsDelivered (Request.request_account_verification_token email url) =
      request_account_verification_token-IsDelivered g server mux email url
  request-IsDelivered (Request.verify_account token) = verify_account-IsDelivered g server mux token
  request-IsDelivered (Request.sign_in m) = sign_in-IsDelivered g server mux m
  request-IsDelivered (Request.get_account_id) = get_account_id-IsDelivered g server mux
  request-IsDelivered (Request.logout) = logout-IsDelivered g server mux
  request-IsDelivered (Request.request_change_password_token email url) =
      request_change_password_token-IsDelivered g server mux email url
  request-IsDelivered (Request.change_password token new_password) =
      change_password-IsDelivered g server mux token new_password
  request-IsDelivered (Request.get_all_sessions) = get_all_sessions-IsDelivered g server mux
  request-IsDelivered (Request.terminate_sessions ids) =
      terminate_sessions-IsDelivered g server mux ids
