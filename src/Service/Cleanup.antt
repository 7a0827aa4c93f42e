-- ===== src/Service/Cleanup.antt =====
-- internal/service/service.go: the goroutine of `DeleteAccount` over a reachable Redis server.
use accounts_service.Prelude.{
  ℕ, zero, suc, String, ◌≡◌, ◌≢◌, refl, ap, ◌∙◌, true, false, none, [], contains, arith,
}
use accounts_service.Models.{Session}
use accounts_service.External.{External}
use accounts_service.External.Redis.{Keys, members_of, accepts_key}
use accounts_service.Effect.{done}
use accounts_service.Config.{Config, AccountsServiceConfig, get_config, account_service_config}
use accounts_service.Redis.Sessions as Repository
use accounts_service.Redis.Sessions.Store.{IsStore}
use accounts_service.Redis.Sessions.TerminateAll.{terminate_all_sessions_lem}
use accounts_service.Service.Process.{terminate_all_task, terminate_retry, run_task}

configured_retries :
    (n : ℕ) (file : Config)
    → file.num_retries_for_terminate_sessions ≡ n
    → (k : ℕ) × ((account_service_config (get_config file)).num_retries_for_terminate_sessions
        ≡ suc k)
unfolding account_service_config get_config
configured_retries zero file e = (0, ground arith)
configured_retries (suc n) file e = (n, ground arith)

module _ ⦃x : External⦄ where
  -- An attempt that goes through is the last.
  terminate_retry_once :
      (cfg : AccountsServiceConfig) (n : ℕ) (session : Session) (w : x.World)
      → let tried = Repository.terminate_all_sessions x.background session.account_id w in
        tried.0 ≡ done tt → terminate_retry (suc n) cfg session w ≡ tried.1
  unfolding terminate_retry
  terminate_retry_once cfg n session w ended = ground arith

  run_task_once :
      (cfg : AccountsServiceConfig) (n : ℕ) (session : Session) (w : x.World)
      → cfg.num_retries_for_terminate_sessions ≡ suc n
      → let tried = Repository.terminate_all_sessions x.background session.account_id w in
        tried.0 ≡ done tt → run_task cfg (terminate_all_task session) w ≡ tried.1
  unfolding run_task
  run_task_once cfg n session w some_attempt ended =
      ap (λ k. terminate_retry k cfg session w) some_attempt
      ∙ terminate_retry_once cfg n session w ended

module _ ⦃x : External⦄ (keys : x.World → Keys) (store : IsStore x.background keys) where
  -- In the service that is built from the configuration, the goroutine of `DeleteAccount` deletes
  -- every session of the account's set and the set itself, and changes no other key, whatever
  -- number of attempts the file has. The account's key holds no text.
  pub terminate_all_task_lem :
      (file : Config) (session : Session) (w : x.World)
      → let list_key = Repository.account_key session.account_id in
        accepts_key (keys w list_key) ≡ true
        → let ids = members_of (keys w list_key) in
          let cfg = account_service_config (get_config file) in
          let after = keys (run_task cfg (terminate_all_task session) w) in
          ((j : String) → contains ids j ≡ true → after j ≡ none)
          × (members_of (after list_key) ≡ [])
          × ((j : String) → contains ids j ≡ false → j ≢ list_key → after j ≡ keys w j)
  terminate_all_task_lem file session w accepted =
      let (n, some_attempt) = configured_retries _ file refl in
      let cfg = account_service_config (get_config file) in
      let (ended, gone, emptied, others) =
        terminate_all_sessions_lem x.background keys store session.account_id w accepted in
      let once = run_task_once cfg n session w some_attempt ended in rw once (gone, emptied, others)
