-- ===== src/Rpc.antt =====
-- pkg/accounts_service/v1/protos/accounts_service_v1_grpc.pb.go: the messages, how a handler of a
-- method is called, and the client's side of a connection.
pub mod Handlers
pub mod Client
pub mod Dispatch
pub mod Outcomes
pub mod RoundTrip
pub mod Unimplemented
use accounts_service.Prelude.{String, Option, none, some, List}
use accounts_service.Models.Errors.{GoError}
use accounts_service.External.{External}
use accounts_service.Effect.{Result, M, crash, from_result, ◌>>=◌}
use accounts_service.Service.Process.{Process}
use accounts_service.Handler.Validation.{CreateAccountRequest}
use accounts_service.Handler.Methods.{SignInRequest}
use accounts_service.System.Server.{
  Request, Response, empty_response, access_response, all_sessions_response,
}
use accounts_service.Gateway.{Server}

-- A pointer to a message, by its type.
pub data Message : Type 0 where
  create_account_message : CreateAccountRequest → Message
  empty_message : Unit {0} → Message
  verification_token_message : String × String → Message
  verify_account_message : String → Message
  sign_in_message : SignInRequest → Message
  change_password_token_message : String × String → Message
  change_password_message : String × String → Message
  terminate_sessions_message : List String → Message

-- `dec`, which fills a new message of one of the types.
pub record Decode : Type 0 where
  pub create_account : Result (CreateAccountRequest)
  pub empty : Result (Unit {0})
  pub verification_token : Result (String × String)
  pub verify_account : Result (String)
  pub sign_in : Result (SignInRequest)
  pub change_password_token : Result (String × String)
  pub change_password : Result (String × String)
  pub terminate_sessions : Result (List String)

-- What is done with a type of messages: `dec(in)`, passing `in` on, and the assertion `req.(*T)`.
pub record MessageType (A : Type 0) : Type 0 where
  pub decode : Decode → Result A
  pub message : A → Message
  pub asserted : Message → Option A

abbrev as_create_account : Message → Option (CreateAccountRequest)
as_create_account (create_account_message a) = some a
as_create_account _ = none

abbrev pub create_account_type : MessageType (CreateAccountRequest)
create_account_type = record {
  decode = λ d. d.create_account;
  message = create_account_message;
  asserted = as_create_account;
}

abbrev as_empty : Message → Option (Unit {0})
as_empty (empty_message a) = some a
as_empty _ = none

abbrev pub empty_type : MessageType (Unit {0})
empty_type = record { decode = λ d. d.empty; message = empty_message; asserted = as_empty }

abbrev as_verification_token : Message → Option (String × String)
as_verification_token (verification_token_message a) = some a
as_verification_token _ = none

abbrev pub verification_token_type : MessageType (String × String)
verification_token_type = record {
  decode = λ d. d.verification_token;
  message = verification_token_message;
  asserted = as_verification_token;
}

abbrev as_verify_account : Message → Option (String)
as_verify_account (verify_account_message a) = some a
as_verify_account _ = none

abbrev pub verify_account_type : MessageType (String)
verify_account_type = record {
  decode = λ d. d.verify_account;
  message = verify_account_message;
  asserted = as_verify_account;
}

abbrev as_sign_in : Message → Option (SignInRequest)
as_sign_in (sign_in_message a) = some a
as_sign_in _ = none

abbrev pub sign_in_type : MessageType (SignInRequest)
sign_in_type = record { decode = λ d. d.sign_in; message = sign_in_message; asserted = as_sign_in }

abbrev as_change_password_token : Message → Option (String × String)
as_change_password_token (change_password_token_message a) = some a
as_change_password_token _ = none

abbrev pub change_password_token_type : MessageType (String × String)
change_password_token_type = record {
  decode = λ d. d.change_password_token;
  message = change_password_token_message;
  asserted = as_change_password_token;
}

abbrev as_change_password : Message → Option (String × String)
as_change_password (change_password_message a) = some a
as_change_password _ = none

abbrev pub change_password_type : MessageType (String × String)
change_password_type = record {
  decode = λ d. d.change_password;
  message = change_password_message;
  asserted = as_change_password;
}

abbrev as_terminate_sessions : Message → Option (List String)
as_terminate_sessions (terminate_sessions_message a) = some a
as_terminate_sessions _ = none

abbrev pub terminate_sessions_type : MessageType (List String)
terminate_sessions_type = record {
  decode = λ d. d.terminate_sessions;
  message = terminate_sessions_message;
  asserted = as_terminate_sessions;
}

-- The type of `out`: emptypb.Empty, AccessResponse or AllSessionsResponse.
pub data OutType : Type 0 where
  empty_out access_out all_sessions_out : OutType

abbrev pub type_of : Response → OutType
type_of empty_response = empty_out
type_of (access_response id) = access_out
type_of (all_sessions_response sessions) = all_sessions_out

module _ ⦃x : External⦄ where
  -- `grpc.UnaryHandler`, and an interceptor with the message and the full name of the method.
  abbrev pub UnaryHandler : Type 0
  UnaryHandler = x.Ctx → Message → M Process Response

  abbrev pub Interceptor : Type 0
  Interceptor = x.Ctx → Message → String → UnaryHandler → M Process Response

  -- `grpc.MethodDesc`, once it knows the server.
  pub record MethodDesc : Type 0 where
    pub method_name : String
    pub handler : x.Ctx → Decode → Option Interceptor → M Process Response

  pub record ServiceDesc : Type 0 where
    pub service_name : String
    pub methods : List MethodDesc

  -- `handler := func(ctx, req) { … }`: the assertion panics on a message of another type.
  unfoldable pub unary : {A : Type 0} → Server → MessageType A → (A → Request) → UnaryHandler
  unary server t request ctx m = elim (t.asserted m) [
    | none ↦ crash
    | some a ↦ server ctx (request a)
  ]

  -- `_AccountsServiceV1_…_Handler`
  unfoldable pub method_handler :
      {A : Type 0}
      → Server
      → String
      → MessageType A
      → (A → Request)
      → x.Ctx
      → Decode
      → Option Interceptor
      → M Process Response
  unfolding unary
  method_handler server full_method t request ctx dec interceptor =
      from_result (t.decode dec) >>= λ a. elim interceptor [
        | none ↦ server ctx (request a)
        | some intercept ↦ intercept ctx (t.message a) full_method (unary server t request)
      ]
