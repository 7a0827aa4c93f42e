-- ===== src/Rpc/Client.antt =====
-- pkg/accounts_service/v1/protos/accounts_service_v1_grpc.pb.go: the client.
use accounts_service.Prelude.{String}
use accounts_service.External.{External}
use accounts_service.Effect.{Result}
use accounts_service.Service.Process.{Process}
use accounts_service.System.Server.{Request, Response}
use accounts_service.Rpc.{
  Message, OutType, empty_out, access_out, all_sessions_out, create_account_message, empty_message,
  verification_token_message, verify_account_message, sign_in_message,
  change_password_token_message, change_password_message, terminate_sessions_message,
}

-- The header and the trailer that a call has received, which the options of the call ask for.
abbrev pub ServerMetadata : Type 0 → Type 0
ServerMetadata metadata = metadata × metadata

module _ ⦃x : External⦄ where
  -- A call: `(out, nil)` or `(nil, err)`, and the metadata.
  abbrev pub Call : Type 0 → Type 0
  Call metadata = Process → (Result Response × ServerMetadata metadata) × Process

  -- `grpc.ClientConnInterface.Invoke`: the full name of the method, the message, and the type of what
  -- is received.
  abbrev pub Invoke : Type 0 → Type 0
  Invoke metadata = x.Ctx → String → Message → OutType → Call metadata

  -- `AccountsServiceV1Client`
  abbrev pub Client : Type 0 → Type 0
  Client metadata = x.Ctx → Request → Call metadata

  -- `NewAccountsServiceV1Client`, with the methods of `accountsServiceV1Client`.
  unfoldable pub new_client : {metadata : Type 0} → Invoke metadata → Client metadata
  new_client invoke ctx (Request.create_account m) =
      invoke ctx "/accounts_service.accountsServiceV1/CreateAccount" (create_account_message m)
        empty_out
  new_client invoke ctx Request.delete_account =
      invoke ctx "/accounts_service.accountsServiceV1/DeleteAccount" (empty_message tt) empty_out
  new_client invoke ctx (Request.request_account_verification_token email url) =
      invoke ctx "/accounts_service.accountsServiceV1/RequestAccountVerificationToken"
        (verification_token_message (email, url)) empty_out
  new_client invoke ctx (Request.verify_account token) =
      invoke ctx "/accounts_service.accountsServiceV1/VerifyAccount" (verify_account_message token)
        empty_out
  new_client invoke ctx (Request.sign_in m) =
      invoke ctx "/accounts_service.accountsServiceV1/SignIn" (sign_in_message m) access_out
  new_client invoke ctx Request.get_account_id =
      invoke ctx "/accounts_service.accountsServiceV1/GetAccountID" (empty_message tt) empty_out
  new_client invoke ctx Request.logout =
      invoke ctx "/accounts_service.accountsServiceV1/Logout" (empty_message tt) empty_out
  new_client invoke ctx (Request.request_change_password_token email url) =
      invoke ctx "/accounts_service.accountsServiceV1/RequestChangePasswordToken"
        (change_password_token_message (email, url)) empty_out
  new_client invoke ctx (Request.change_password token new_password) =
      invoke ctx "/accounts_service.accountsServiceV1/ChangePassword"
        (change_password_message (token, new_password)) empty_out
  new_client invoke ctx Request.get_all_sessions =
      invoke ctx "/accounts_service.accountsServiceV1/GetAllSessions" (empty_message tt)
        all_sessions_out
  new_client invoke ctx (Request.terminate_sessions ids) =
      invoke ctx "/accounts_service.accountsServiceV1/TerminateSessions"
        (terminate_sessions_message ids) empty_out
