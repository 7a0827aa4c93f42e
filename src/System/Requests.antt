-- ===== src/System/Requests.antt =====
-- The requests of `System.Server` and an invariant of the service, in the sense of
-- `System.Invariant`.
use accounts_service.Prelude.{String}
use accounts_service.External.{External}
use accounts_service.External.Redis.{Keys}
use accounts_service.Config.{Config}
use accounts_service.Service.Process.{Process}
use accounts_service.System.Keeps.{Keeps, Any, Keeps-pure, Keeps-bind, Keeps-then}
use accounts_service.System.Backend.{IsBackend}
use accounts_service.System.Invariant.{IsInvariant}
use accounts_service.Effect.{pure}
use accounts_service.Handler.Methods
use accounts_service.System.Handlers
use accounts_service.System.Server.{
  Request, empty_response, access_response, all_sessions_response, serve,
}

module _ ⦃x : External⦄ (keys : x.World → Keys) (b : IsBackend keys) {P : Process → Type 0}
    {Good : String → Type 0} (i : IsInvariant keys P Good) where
  pub serve-Keeps : (global : Config) (ctx : x.Ctx) (r : Request) → Keeps P (serve global ctx r) Any
  unfolding serve
  serve-Keeps global ctx (Request.create_account r) =
      Keeps-then _ _ (Handlers.create_account-Keeps keys b i _ ctx r) (Keeps-pure empty_response tt)
  serve-Keeps global ctx Request.delete_account =
      Keeps-then _ _ (Handlers.delete_account-Keeps keys b i ctx) (Keeps-pure empty_response tt)
  serve-Keeps global ctx (Request.request_account_verification_token email url) =
      Keeps-then _ _ (Handlers.request_account_verification_token-Keeps keys b i _ ctx email url)
        (Keeps-pure empty_response tt)
  serve-Keeps global ctx (Request.verify_account token) =
      Keeps-then _ _ (Handlers.verify_account-Keeps keys b i global ctx token)
        (Keeps-pure empty_response tt)
  serve-Keeps global ctx (Request.sign_in r) =
      Keeps-bind (Methods.sign_in _ ctx r) (λ id. pure (access_response id))
        (Handlers.sign_in-Keeps keys b i _ ctx r) (λ id _. Keeps-pure (access_response id) tt)
  serve-Keeps global ctx Request.get_account_id =
      Keeps-then _ _ (Handlers.get_account_id-Keeps keys b i ctx) (Keeps-pure empty_response tt)
  serve-Keeps global ctx Request.logout =
      Keeps-then _ _ (Handlers.logout-Keeps keys b i ctx) (Keeps-pure empty_response tt)
  serve-Keeps global ctx (Request.request_change_password_token email url) =
      Keeps-then _ _ (Handlers.request_change_password_token-Keeps keys b i _ ctx email url)
        (Keeps-pure empty_response tt)
  serve-Keeps global ctx (Request.change_password token new_password) =
      Keeps-then _ _ (Handlers.change_password-Keeps keys b i _ ctx token new_password)
        (Keeps-pure empty_response tt)
  serve-Keeps global ctx Request.get_all_sessions =
      Keeps-bind (Methods.get_all_sessions ctx) (λ sessions. pure (all_sessions_response sessions))
        (Handlers.get_all_sessions-Keeps keys b i ctx)
        (λ sessions _. Keeps-pure (all_sessions_response sessions) tt)
  serve-Keeps global ctx (Request.terminate_sessions ids) =
      Keeps-then _ _ (Handlers.terminate_sessions-Keeps keys b i ctx ids)
        (Keeps-pure empty_response tt)
