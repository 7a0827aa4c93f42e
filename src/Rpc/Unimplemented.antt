-- ===== src/Rpc/Unimplemented.antt =====
-- pkg/accounts_service/v1/protos/accounts_service_v1_grpc.pb.go: the stubs that a server embeds.
use accounts_service.Prelude.{String, ◌<>◌, ◌≡◌, ◌∙◌, refl, ap}
use accounts_service.Models.Errors.{
  GrpcCode, service_error, status_error, redis_nil, no_rows, other_error, grpc_unimplemented,
}
use accounts_service.External.{External}
use accounts_service.Effect.{Result, err, Outcome, done, fail, panic, M, throw}
use accounts_service.Service.Process.{Process}
use accounts_service.System.Server.{Request, Response}
use accounts_service.Gateway.{Server}
use accounts_service.Rpc.{OutType}
use accounts_service.Rpc.Client.{Invoke, new_client}
use accounts_service.Rpc.Dispatch.{out_of, name_of}
use accounts_service.Rpc.RoundTrip.{Receives, IsConnection, new_client-Receives}

module _ ⦃x : External⦄ where
  -- `status.Errorf(codes.Unimplemented, "method … not implemented")`
  abbrev not_implemented : String → M Process Response
  not_implemented method =
      throw (status_error grpc_unimplemented ("method " <> method <> " not implemented"))

  -- `UnimplementedAccountsServiceV1Server`
  unfoldable unimplemented : Server
  unimplemented ctx (Request.create_account m) = not_implemented "CreateAccount"
  unimplemented ctx Request.delete_account = not_implemented "DeleteAccount"
  unimplemented ctx (Request.request_account_verification_token email url) =
      not_implemented "RequestAccountVerificationToken"
  unimplemented ctx (Request.verify_account token) = not_implemented "VerifyAccount"
  unimplemented ctx (Request.sign_in m) = not_implemented "SignIn"
  unimplemented ctx Request.get_account_id = not_implemented "GetAccountID"
  unimplemented ctx Request.logout = not_implemented "Logout"
  unimplemented ctx (Request.request_change_password_token email url) =
      not_implemented "RequestChangePasswordToken"
  unimplemented ctx (Request.change_password token new_password) = not_implemented "ChangePassword"
  unimplemented ctx Request.get_all_sessions = not_implemented "GetAllSessions"
  unimplemented ctx (Request.terminate_sessions ids) = not_implemented "TerminateSessions"

  unimplemented_names :
      (ctx : x.Ctx) (r : Request) (p : Process)
      → (method : String) × (name_of r ≡ "/accounts_service.accountsServiceV1/" <> method)
        × (unimplemented ctx r p ≡ (
          fail (status_error grpc_unimplemented ("method " <> method <> " not implemented")),
          p,
        ))
  unfolding unimplemented
  unimplemented_names ctx (Request.create_account m) p = ("CreateAccount", refl, refl)
  unimplemented_names ctx Request.delete_account p = ("DeleteAccount", refl, refl)
  unimplemented_names ctx (Request.request_account_verification_token email url) p =
      ("RequestAccountVerificationToken", refl, refl)
  unimplemented_names ctx (Request.verify_account token) p = ("VerifyAccount", refl, refl)
  unimplemented_names ctx (Request.sign_in m) p = ("SignIn", refl, refl)
  unimplemented_names ctx Request.get_account_id p = ("GetAccountID", refl, refl)
  unimplemented_names ctx Request.logout p = ("Logout", refl, refl)
  unimplemented_names ctx (Request.request_change_password_token email url) p =
      ("RequestChangePasswordToken", refl, refl)
  unimplemented_names ctx (Request.change_password token new_password) p =
      ("ChangePassword", refl, refl)
  unimplemented_names ctx Request.get_all_sessions p = ("GetAllSessions", refl, refl)
  unimplemented_names ctx (Request.terminate_sessions ids) p = ("TerminateSessions", refl, refl)

  status-Receives :
      (out : OutType) (o : Outcome Response) (res : Result Response) (code : GrpcCode)
      (msg : String)
      → o ≡ fail (status_error code msg)
      → Receives out o res
      → res ≡ err (status_error code msg)
  status-Receives out (done resp) res code msg same received = cc
  status-Receives out (fail (status_error c m)) res code msg same received = cc
  status-Receives out (fail (service_error e)) res code msg same received = cc
  status-Receives out (fail redis_nil) res code msg same received = cc
  status-Receives out (fail no_rows) res code msg same received = cc
  status-Receives out (fail (other_error m)) res code msg same received = cc
  status-Receives out panic res code msg same received = cc

module _ ⦃x : External⦄ {metadata : Type 0} (invoke : Invoke metadata) (arrive : x.Ctx → x.Ctx)
    (c : IsConnection unimplemented invoke arrive) where
  -- A client of a server that implements nothing is answered, for every call, with a status that
  -- names the method it has called, and nothing changes.
  new_client-unimplemented :
      (ctx : x.Ctx) (r : Request) (p : Process)
      → let u = new_client invoke ctx r p in
        (method : String) × (name_of r ≡ "/accounts_service.accountsServiceV1/" <> method)
        × (u.1 ≡ p)
        × (u.0.0
            ≡ err (status_error grpc_unimplemented ("method " <> method <> " not implemented")))
  new_client-unimplemented ctx r p =
      let (method, named, stub) = unimplemented_names (arrive ctx) r p in
      let (moved, received) = new_client-Receives unimplemented invoke arrive c ctx r p in
      (
        method,
        named,
        moved ∙ ap (λ u. u.1) stub,
        status-Receives (out_of r) _ _ grpc_unimplemented _ (ap (λ u. u.0) stub) received,
      )
