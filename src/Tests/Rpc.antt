-- ===== src/Tests/Rpc.antt =====
-- A gRPC connection to the server in memory: the method is looked up by its name, the message arrives
-- as it was sent, and the outcome is sent back.
use mathlib.Core.List.{Memᴰ}
use mathlib.Core.List.Memᴰ.{head, tail}
use accounts_service.Prelude.{
  String, ◌==◌, if◌then◌else◌, Option, none, some, List, [], ◌∷◌, ◌≡◌, refl, ap,
}
use accounts_service.Models.Errors.{
  GoError, service_error, status_error, redis_nil, no_rows, other_error,
}
use accounts_service.Effect.{Result, ok, err, Outcome, done, fail, panic}
use accounts_service.System.Server.{Request, Response, serve}
use accounts_service.Rpc.{Message, Decode, OutType, MethodDesc}
use accounts_service.Rpc.Handlers.{service_desc}
use accounts_service.Rpc.Client.{Invoke, Call, new_client}
use accounts_service.Rpc.Dispatch.{path, Reads, IsServed, request-IsServed}
use accounts_service.Rpc.RoundTrip.{Receives, IsConnection, new_client-serve}
use accounts_service.Gateway.Remote.Served.{ServesEach, remote-ServesEach}
use accounts_service.Tests.Memory.{Ctx, memory}
use accounts_service.Tests.Worlds.{no_sessions, running, request, configured}
use accounts_service.Tests.System.{enter_as}
use accounts_service.Tests.Http.{rest}

abbrev server_methods : List (MethodDesc ⦃x = memory⦄)
server_methods = (service_desc ⦃x = memory⦄ (serve configured)).methods

abbrev full_name : MethodDesc ⦃x = memory⦄ → String
full_name = path ⦃x = memory⦄ (serve configured)

abbrev lookup : String → List (MethodDesc ⦃x = memory⦄) → Option (MethodDesc ⦃x = memory⦄)
lookup name [] = none
lookup name (d ∷ ds) = let later = lookup name ds in if full_name d == name then some d else later

abbrev other_type : {A : Type 0} → Result A
other_type = err (other_error "another type")

abbrev undecoded : Decode
undecoded = record {
  create_account = other_type;
  empty = other_type;
  verification_token = other_type;
  verify_account = other_type;
  sign_in = other_type;
  change_password_token = other_type;
  change_password = other_type;
  terminate_sessions = other_type;
}

abbrev decoder : Message → Decode
decoder (Message.create_account_message m) = record undecoded { create_account = ok m }
decoder (Message.empty_message m) = record undecoded { empty = ok m }
decoder (Message.verification_token_message m) = record undecoded { verification_token = ok m }
decoder (Message.verify_account_message m) = record undecoded { verify_account = ok m }
decoder (Message.sign_in_message m) = record undecoded { sign_in = ok m }
decoder (Message.change_password_token_message m) = record undecoded {
  change_password_token = ok m;
}
decoder (Message.change_password_message m) = record undecoded { change_password = ok m }
decoder (Message.terminate_sessions_message m) = record undecoded { terminate_sessions = ok m }

decoder-Reads : (m : Message) → Reads (decoder m) m
decoder-Reads (Message.create_account_message m) = refl
decoder-Reads (Message.empty_message m) = refl
decoder-Reads (Message.verification_token_message m) = refl
decoder-Reads (Message.verify_account_message m) = refl
decoder-Reads (Message.sign_in_message m) = refl
decoder-Reads (Message.change_password_token_message m) = refl
decoder-Reads (Message.change_password_message m) = refl
decoder-Reads (Message.terminate_sessions_message m) = refl

abbrev answered : Outcome Response → Result Response
answered (done resp) = ok resp
answered (fail e) = err e
answered panic = err (other_error "connection closed")

abbrev deliver :
    Option (MethodDesc ⦃x = memory⦄) → Ctx → String → Message → Call ⦃x = memory⦄ (List String)
deliver none ctx name m p = ((err (other_error "unknown method"), ([], [])), p)
deliver (some d) ctx name m p =
    let (r, p') = d.handler ctx (decoder m) none p in ((answered r, (name ∷ [], [])), p')

-- The metadata name the method.
abbrev connection : Invoke ⦃x = memory⦄ (List String)
connection ctx name m out = deliver (lookup name server_methods) ctx name m

abbrev Every : (MethodDesc ⦃x = memory⦄ → Type 0) → List (MethodDesc ⦃x = memory⦄) → Type 0
Every P [] = Unit
Every P (d ∷ ds) = P d × Every P ds

Every-Memᴰ :
    (P : MethodDesc ⦃x = memory⦄ → Type 0) (d : MethodDesc ⦃x = memory⦄)
    (ds : List (MethodDesc ⦃x = memory⦄))
    → Every P ds
    → Memᴰ d ds
    → P d
Every-Memᴰ P d [] every mem = elim mem [ ]
Every-Memᴰ P d (e ∷ ds) every (head same) = rw (same) every.0
Every-Memᴰ P d (e ∷ ds) every (tail mem) = Every-Memᴰ P d ds every.1 mem

-- An entry is found by its name: the names differ.
lookup-full_name :
    (d : MethodDesc ⦃x = memory⦄)
    → Memᴰ d server_methods
    → lookup (full_name d) server_methods ≡ some d
lookup-full_name d =
    Every-Memᴰ (λ d. lookup (full_name d) server_methods ≡ some d) d server_methods
      (refl, (refl, (refl, (refl, (refl, (refl, (refl, (refl, (refl, (refl, (refl, (tt))))))))))))

answered-Receives :
    (out : OutType) (r : Outcome Response) → Receives ⦃x = memory⦄ out r (answered r)
answered-Receives out (done resp) = λ typed. refl
answered-Receives out (fail (service_error e)) = tt
answered-Receives out (fail (status_error c msg)) = refl
answered-Receives out (fail redis_nil) = tt
answered-Receives out (fail no_rows) = tt
answered-Receives out (fail (other_error msg)) = tt
answered-Receives out panic = tt

connection-IsConnection : IsConnection ⦃x = memory⦄ (serve configured) connection (λ ctx. ctx)
connection-IsConnection = record {
  delivered = λ ctx m out p d mem.
      let found = lookup-full_name d mem in
      let called : connection ctx (full_name d) m out p ≡ deliver (some d) ctx (full_name d) m p =
        ap (λ o. deliver o ctx (full_name d) m p) found in
      (
        decoder m,
        none,
        decoder-Reads m,
        tt,
        ap (λ u. u.1) called,
        rw (called) (answered-Receives out (d.handler ctx (decoder m) none p).0),
      );
}

request-IsServed_example : IsServed ⦃x = memory⦄ (serve configured) (Request.verify_account "token")
request-IsServed_example = request-IsServed (serve configured) (Request.verify_account "token")

new_client-serve_example :
    let t = serve configured request (enter_as "alice@example.org") (running no_sessions) in
    let u = new_client connection request (enter_as "alice@example.org") (running no_sessions) in
    (u.1 ≡ t.1)
    × ((resp : Response) → t.0 ≡ done resp → u.0.0 ≡ ok resp)
    × ((e : GoError) → t.0 ≡ fail e → u.0.0 ≡ err e)
new_client-serve_example =
    new_client-serve configured connection (λ ctx. ctx) connection-IsConnection request
      (enter_as "alice@example.org") (running no_sessions)

-- The gateway over that connection.
remote-ServesEach_example : ServesEach rest configured connection (λ ctx. ctx)
remote-ServesEach_example =
    remote-ServesEach rest configured connection (λ ctx. ctx) connection-IsConnection
