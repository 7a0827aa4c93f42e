-- ===== src/Rpc/Dispatch.antt =====
-- pkg/accounts_service/v1/protos/accounts_service_v1_grpc.pb.go: the entry of the table that a call
-- is made for.
use mathlib.Core.List.{Memᴰ}
use mathlib.Core.List.Memᴰ.{head, tail}
use accounts_service.Prelude.{String, ◌<>◌, Option, none, some, ◌≡◌, refl}
use accounts_service.External.{External}
use accounts_service.Effect.{ok, M}
use accounts_service.Service.Process.{Process}
use accounts_service.System.Server.{Request, Response}
use accounts_service.Gateway.{Server}
use accounts_service.Rpc.{
  Message, MessageType, Decode, OutType, empty_out, access_out, all_sessions_out, Interceptor,
  UnaryHandler, MethodDesc, unary, method_handler, create_account_message, empty_message,
  verification_token_message, verify_account_message, sign_in_message,
  change_password_token_message, change_password_message, terminate_sessions_message,
  create_account_type, empty_type, verification_token_type, verify_account_type, sign_in_type,
  change_password_token_type, change_password_type, terminate_sessions_type,
}
use accounts_service.Rpc.Handlers
use accounts_service.Rpc.Handlers.{service_desc}

-- What a call carries, what it asks for, and its full name.
abbrev pub message_of : Request → Message
message_of (Request.create_account m) = create_account_message m
message_of Request.delete_account = empty_message tt
message_of (Request.request_account_verification_token email url) =
    verification_token_message (email, url)
message_of (Request.verify_account token) = verify_account_message token
message_of (Request.sign_in m) = sign_in_message m
message_of Request.get_account_id = empty_message tt
message_of Request.logout = empty_message tt
message_of (Request.request_change_password_token email url) =
    change_password_token_message (email, url)
message_of (Request.change_password token new_password) =
    change_password_message (token, new_password)
message_of Request.get_all_sessions = empty_message tt
message_of (Request.terminate_sessions ids) = terminate_sessions_message ids

abbrev pub out_of : Request → OutType
out_of (Request.sign_in _) = access_out
out_of Request.get_all_sessions = all_sessions_out
out_of _ = empty_out

abbrev pub name_of : Request → String
name_of (Request.create_account _) = "/accounts_service.accountsServiceV1/CreateAccount"
name_of Request.delete_account = "/accounts_service.accountsServiceV1/DeleteAccount"
name_of (Request.request_account_verification_token _ _) =
    "/accounts_service.accountsServiceV1/RequestAccountVerificationToken"
name_of (Request.verify_account _) = "/accounts_service.accountsServiceV1/VerifyAccount"
name_of (Request.sign_in _) = "/accounts_service.accountsServiceV1/SignIn"
name_of Request.get_account_id = "/accounts_service.accountsServiceV1/GetAccountID"
name_of Request.logout = "/accounts_service.accountsServiceV1/Logout"
name_of (Request.request_change_password_token _ _) =
    "/accounts_service.accountsServiceV1/RequestChangePasswordToken"
name_of (Request.change_password _ _) = "/accounts_service.accountsServiceV1/ChangePassword"
name_of Request.get_all_sessions = "/accounts_service.accountsServiceV1/GetAllSessions"
name_of (Request.terminate_sessions _) = "/accounts_service.accountsServiceV1/TerminateSessions"

-- The message is what is decoded.
abbrev pub Reads : Decode → Message → Type 0
Reads dec (create_account_message a) = dec.create_account ≡ ok a
Reads dec (empty_message a) = dec.empty ≡ ok a
Reads dec (verification_token_message a) = dec.verification_token ≡ ok a
Reads dec (verify_account_message a) = dec.verify_account ≡ ok a
Reads dec (sign_in_message a) = dec.sign_in ≡ ok a
Reads dec (change_password_token_message a) = dec.change_password_token ≡ ok a
Reads dec (change_password_message a) = dec.change_password ≡ ok a
Reads dec (terminate_sessions_message a) = dec.terminate_sessions ≡ ok a

module _ ⦃x : External⦄ where
  -- A handler calls the server with `r`, by way of an interceptor if there is one, which is told
  -- `name`.
  abbrev pub Calls :
      Server
      → (x.Ctx → Decode → Option Interceptor → M Process Response)
      → String
      → Request
      → Type 0
  Calls server handler name r =
      (ctx : x.Ctx) (dec : Decode)
      → Reads dec (message_of r)
      → (handler ctx dec none ≡ server ctx r)
        × (next : UnaryHandler) × (next ctx (message_of r) ≡ server ctx r)
        × ((intercept : Interceptor)
            → handler ctx dec (some intercept) ≡ intercept ctx (message_of r) name next)

module _ ⦃x : External⦄ (server : Server) where
  -- The name by which gRPC finds a method.
  abbrev pub path : MethodDesc → String
  path d = "/" <> (service_desc server).service_name <> "/" <> d.method_name

  -- The table has an entry of that name, and its handler makes that call.
  abbrev pub IsServed : Request → Type 0
  IsServed r =
      (d : MethodDesc) × Memᴰ d (service_desc server).methods
      × (path d ≡ name_of r)
      × Calls server d.handler (path d) r

  method_handler-Calls :
      {A : Type 0} (t : MessageType A) (request : A → Request) (a : A) (name : String)
      → message_of (request a) ≡ t.message a
      → t.asserted (t.message a) ≡ some a
      → ((dec : Decode) → Reads dec (message_of (request a)) → t.decode dec ≡ ok a)
      → Calls server (method_handler server name t request) name (request a)
  unfolding method_handler unary
  method_handler-Calls t request a name same known reads ctx dec read =
      let got = reads dec read in
      (
        rw (method_handler, got) refl,
        unary server t request,
        rw (same, unary, known) refl,
        λ intercept. rw (same, method_handler, got) refl,
      )

  -- For each call of the client the table of the server has an entry under the name that the client
  -- uses. If the message is decoded, the handler makes just that call: at once, or through an
  -- interceptor, which is given the message and that name.
  pub request-IsServed : (r : Request) → IsServed r
  unfolding Handlers.create_account_method Handlers.delete_account_method
      Handlers.request_account_verification_token_method Handlers.verify_account_method
      Handlers.sign_in_method Handlers.get_account_id_method Handlers.logout_method
      Handlers.request_change_password_token_method Handlers.change_password_method
      Handlers.get_all_sessions_method Handlers.terminate_sessions_method
  request-IsServed (Request.create_account m) = (
    record { method_name = "CreateAccount"; handler = Handlers.create_account_method server },
    head refl,
    refl,
    method_handler-Calls create_account_type Request.create_account m
        "/accounts_service.accountsServiceV1/CreateAccount" refl refl (λ dec read. read),
  )
  request-IsServed Request.delete_account = (
    record { method_name = "DeleteAccount"; handler = Handlers.delete_account_method server },
    tail (head refl),
    refl,
    method_handler-Calls empty_type (λ _. Request.delete_account) tt
        "/accounts_service.accountsServiceV1/DeleteAccount" refl refl (λ dec read. read),
  )
  request-IsServed (Request.request_account_verification_token email url) = (
    record {
      method_name = "RequestAccountVerificationToken";
      handler = Handlers.request_account_verification_token_method server;
    },
    tail (tail (head refl)),
    refl,
    method_handler-Calls verification_token_type
        (λ m. Request.request_account_verification_token m.0 m.1) (email, url)
        "/accounts_service.accountsServiceV1/RequestAccountVerificationToken" refl refl
        (λ dec read. read),
  )
  request-IsServed (Request.verify_account token) = (
    record { method_name = "VerifyAccount"; handler = Handlers.verify_account_method server },
    tail (tail (tail (head refl))),
    refl,
    method_handler-Calls verify_account_type Request.verify_account token
        "/accounts_service.accountsServiceV1/VerifyAccount" refl refl (λ dec read. read),
  )
  request-IsServed (Request.sign_in m) = (
    record { method_name = "SignIn"; handler = Handlers.sign_in_method server },
    tail (tail (tail (tail (head refl)))),
    refl,
    method_handler-Calls sign_in_type Request.sign_in m "/accounts_service.accountsServiceV1/SignIn"
        refl refl (λ dec read. read),
  )
  request-IsServed Request.get_account_id = (
    record { method_name = "GetAccountID"; handler = Handlers.get_account_id_method server },
    tail (tail (tail (tail (tail (head refl))))),
    refl,
    method_handler-Calls empty_type (λ _. Request.get_account_id) tt
        "/accounts_service.accountsServiceV1/GetAccountID" refl refl (λ dec read. read),
  )
  request-IsServed Request.logout = (
    record { method_name = "Logout"; handler = Handlers.logout_method server },
    tail (tail (tail (tail (tail (tail (head refl)))))),
    refl,
    method_handler-Calls empty_type (λ _. Request.logout) tt
        "/accounts_service.accountsServiceV1/Logout" refl refl (λ dec read. read),
  )
  request-IsServed (Request.request_change_password_token email url) = (
    record {
      method_name = "RequestChangePasswordToken";
      handler = Handlers.request_change_password_token_method server;
    },
    tail (tail (tail (tail (tail (tail (tail (head refl))))))),
    refl,
    method_handler-Calls change_password_token_type
        (λ m. Request.request_change_password_token m.0 m.1) (email, url)
        "/accounts_service.accountsServiceV1/RequestChangePasswordToken" refl refl
        (λ dec read. read),
  )
  request-IsServed (Request.change_password token new_password) = (
    record { method_name = "ChangePassword"; handler = Handlers.change_password_method server },
    tail (tail (tail (tail (tail (tail (tail (tail (head refl)))))))),
    refl,
    method_handler-Calls change_password_type (λ m. Request.change_password m.0 m.1)
        (token, new_password) "/accounts_service.accountsServiceV1/ChangePassword" refl refl
        (λ dec read. read),
  )
  request-IsServed Request.get_all_sessions = (
    record { method_name = "GetAllSessions"; handler = Handlers.get_all_sessions_method server },
    tail (tail (tail (tail (tail (tail (tail (tail (tail (head refl))))))))),
    refl,
    method_handler-Calls empty_type (λ _. Request.get_all_sessions) tt
        "/accounts_service.accountsServiceV1/GetAllSessions" refl refl (λ dec read. read),
  )
  request-IsServed (Request.terminate_sessions ids) = (
    record {
      method_name = "TerminateSessions";
      handler = Handlers.terminate_sessions_method server;
    },
    tail (tail (tail (tail (tail (tail (tail (tail (tail (tail (head refl)))))))))),
    refl,
    method_handler-Calls terminate_sessions_type Request.terminate_sessions ids
        "/accounts_service.accountsServiceV1/TerminateSessions" refl refl (λ dec read. read),
  )
