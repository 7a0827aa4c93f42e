-- ===== src/System/Server.antt =====
-- pkg/accounts_service/v1/protos/accounts_service_v1_grpc.pb.go: the eleven methods of the server,
-- as internal/handler/handler.go implements them, and the runs of the service: one request, one
-- goroutine or one event outside after the other.
use accounts_service.Prelude.{String, none, List, [], ◌∷◌, ◌++◌, ◌≡◌}
use accounts_service.Models.{SessionInfo}
use accounts_service.External.{External}
use accounts_service.External.Redis.{Keys}
use accounts_service.Effect.{M, pure, ◌>>=◌, ◌>>◌}
use accounts_service.Config.{Config, account_service_config}
use accounts_service.Service.Process.{Process, Task, run_task}
use accounts_service.Handler.Validation.{CreateAccountRequest}
use accounts_service.Handler.Methods
use accounts_service.Handler.Methods.{SignInRequest}
use accounts_service.System.Interference.{Interferes}

-- A call of a method, with its message; the address is spelled `URL` in the messages.
pub data Request : Type 0 where
  create_account : CreateAccountRequest → Request
  delete_account : Request
  request_account_verification_token : (email url : String) → Request
  verify_account : (verification_token : String) → Request
  sign_in : SignInRequest → Request
  get_account_id : Request
  logout : Request
  request_change_password_token : (email url : String) → Request
  change_password : (token new_password : String) → Request
  get_all_sessions : Request
  terminate_sessions : (sessions_to_terminate : List String) → Request

pub data Response : Type 0 where
  empty_response : Response
  access_response : (session_id : String) → Response
  all_sessions_response : List (String × SessionInfo) → Response

module _ ⦃x : External⦄ where
  unfoldable pub serve : Config → x.Ctx → Request → M Process Response
  serve global ctx (create_account r) =
      Methods.create_account (account_service_config global) ctx r >> pure empty_response
  serve global ctx delete_account = Methods.delete_account ctx >> pure empty_response
  serve global ctx (request_account_verification_token email url) =
      Methods.request_account_verification_token (account_service_config global) ctx email url
      >> pure empty_response
  serve global ctx (verify_account token) =
      Methods.verify_account global ctx token >> pure empty_response
  serve global ctx (sign_in r) =
      Methods.sign_in (account_service_config global) ctx r >>= λ id. pure (access_response id)
  serve global ctx get_account_id = Methods.get_account_id ctx >> pure empty_response
  serve global ctx logout = Methods.logout ctx >> pure empty_response
  serve global ctx (request_change_password_token email url) =
      Methods.request_change_password_token (account_service_config global) ctx email url
      >> pure empty_response
  serve global ctx (change_password token new_password) =
      Methods.change_password (account_service_config global) ctx token new_password
      >> pure empty_response
  serve global ctx get_all_sessions =
      Methods.get_all_sessions ctx >>= λ sessions. pure (all_sessions_response sessions)
  serve global ctx (terminate_sessions ids) =
      Methods.terminate_sessions ctx ids >> pure empty_response

  -- A step of the service: a request is served, a goroutine runs from its start to its end, the
  -- world moves on (time passes, others interfere with the sessions, anything else changes), or the
  -- process is restarted and its goroutines are lost. Others may also interfere within a request and
  -- within the run of a goroutine, as `System.Backend` says.
  pub data Step (keys : x.World → Keys) (global : Config) : Process → Process → Type 0 where
    request :
        (ctx : x.Ctx) (r : Request) (p : Process) → Step keys global p (serve global ctx r p).1
    goroutine :
        (w : x.World) (t : Task) (before after : List Task)
        → Step keys global
            (record { world = w; tasks = before ++ (t ∷ after) })
            (record {
              world = run_task (account_service_config global) t w;
              tasks = before ++ after;
            })
    elsewhere :
        (p : Process) (w : x.World)
        → Interferes (keys p.world) (keys w)
        → Step keys global p (record p { world = w })
    restart : (p : Process) → Step keys global p (record p { tasks = [] })

  -- What the service gets to from an empty sessions database.
  pub data IsReached (keys : x.World → Keys) (global : Config) : Process → Type 0 where
    initial :
        (w : x.World)
        → ((k : String) → keys w k ≡ none)
        → IsReached keys global (record { world = w; tasks = [] })
    next :
        (p q : Process) → IsReached keys global p → Step keys global p q → IsReached keys global q
