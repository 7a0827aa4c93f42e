-- ===== src/Gateway/Remote.antt =====
-- pkg/accounts_service/v1/protos/accounts_service_v1.pb.gw.go: the functions `request_…`, which
-- make a call of a client from an HTTP request, and their handlers.
pub mod Routes
pub mod Agreement
pub mod Served
use accounts_service.Prelude.{String}
use accounts_service.External.{External}
use accounts_service.Effect.{Result, ok, err, M, done}
use accounts_service.Service.Process.{Process}
use accounts_service.System.Server.{Request, Response}
use accounts_service.Rpc.Client.{Client, Call, ServerMetadata}
use accounts_service.Gateway.{Rest, Params, Reply, http_error, forwarded}
use accounts_service.Gateway.Requests.{body_message, query_message, token_param}

module _ ⦃x : External⦄ (g : Rest) where
  -- `return nil, metadata, err` while the metadata are empty, or the call.
  abbrev pub or_call : {A : Type 0} → Result A → (A → Call g.Metadata) → Call g.Metadata
  or_call (err e) call p = ((err e, (g.no_metadata, g.no_metadata)), p)
  or_call (ok a) call p = call a p

  -- What follows the call, under the context with its metadata.
  abbrev reply_of : x.Ctx → Result Response → Reply
  reply_of ctx (ok m) = forwarded ctx m
  reply_of ctx (err e) = http_error ctx e

  abbrev pub RemoteRequest : Type 0
  RemoteRequest = x.Ctx → g.HttpRequest → Params → Call g.Metadata

  -- The function that `mux.Handle` is given; `annotate` is `runtime.AnnotateContext`.
  unfoldable pub remote_handler :
      (x.Ctx → g.HttpRequest → String → String → Result x.Ctx)
      → String
      → String
      → RemoteRequest
      → g.HttpRequest
      → Params
      → M Process Reply
  remote_handler annotate full_method template request req params p =
      let (ctx, w) = g.with_cancel (g.request_context req) p.world in
      let p0 : Process = record p { world = w } in
      elim (annotate ctx req full_method template) [
        | err e ↦ (done (http_error ctx e), record p0 { world = g.cancel ctx p0.world })
        | ok annotated ↦
            let ((r, md), p') = request annotated req params p0 in
            (
              done (reply_of (g.metadata_context annotated md.0 md.1) r),
              record p' { world = g.cancel ctx p'.world },
            )
      ]

  module _ (client : Client g.Metadata) where
    -- `request_AccountsServiceV1_CreateAccount_0`
    unfoldable pub request_create_account : RemoteRequest
    unfolding body_message
    request_create_account ctx req params =
        or_call (body_message g g.decode_create_account req)
          (λ m. client ctx (Request.create_account m))

    -- `request_AccountsServiceV1_DeleteAccount_0`
    unfoldable pub request_delete_account : RemoteRequest
    request_delete_account ctx req params = client ctx Request.delete_account

    -- `request_AccountsServiceV1_RequestAccountVerificationToken_0`
    unfoldable pub request_request_account_verification_token : RemoteRequest
    unfolding query_message
    request_request_account_verification_token ctx req params =
        or_call (query_message g g.populate_verification_token req)
          (λ m. client ctx (Request.request_account_verification_token m.0 m.1))

    -- `request_AccountsServiceV1_VerifyAccount_0`
    unfoldable pub request_verify_account : RemoteRequest
    unfolding body_message token_param
    request_verify_account ctx req params =
        or_call (body_message g g.decode_verify_account req)
          (λ _. or_call (token_param g params) (λ token. client ctx (Request.verify_account token)))

    -- `request_AccountsServiceV1_SignIn_0`
    unfoldable pub request_sign_in : RemoteRequest
    unfolding body_message
    request_sign_in ctx req params =
        or_call (body_message g g.decode_sign_in req) (λ m. client ctx (Request.sign_in m))

    -- `request_AccountsServiceV1_GetAccountID_0`
    unfoldable pub request_get_account_id : RemoteRequest
    request_get_account_id ctx req params = client ctx Request.get_account_id

    -- `request_AccountsServiceV1_Logout_0`
    unfoldable pub request_logout : RemoteRequest
    request_logout ctx req params = client ctx Request.logout

    -- `request_AccountsServiceV1_RequestChangePasswordToken_0`
    unfoldable pub request_request_change_password_token : RemoteRequest
    unfolding query_message
    request_request_change_password_token ctx req params =
        or_call (query_message g g.populate_change_password_token req)
          (λ m. client ctx (Request.request_change_password_token m.0 m.1))

    -- `request_AccountsServiceV1_ChangePassword_0`
    unfoldable pub request_change_password : RemoteRequest
    unfolding body_message
    request_change_password ctx req params =
        or_call (body_message g g.decode_change_password req)
          (λ m. client ctx (Request.change_password m.0 m.1))

    -- `request_AccountsServiceV1_GetAllSessions_0`
    unfoldable pub request_get_all_sessions : RemoteRequest
    request_get_all_sessions ctx req params = client ctx Request.get_all_sessions

    -- `request_AccountsServiceV1_TerminateSessions_0`
    unfoldable pub request_terminate_sessions : RemoteRequest
    unfolding body_message
    request_terminate_sessions ctx req params =
        or_call (body_message g g.decode_terminate_sessions req)
          (λ ids. client ctx (Request.terminate_sessions ids))
