-- ===== src/System/Goroutines.antt =====
-- internal/service/service.go: what the goroutines do to the sessions database.
use accounts_service.Prelude.{ℕ, zero, suc, Bool-cases, inl, inr}
use accounts_service.Models.{Session}
use accounts_service.External.{External}
use accounts_service.External.Redis.{Keys}
use accounts_service.Effect.{outcome_error}
use accounts_service.Config.{AccountsServiceConfig}
use accounts_service.Redis.Sessions as Store
use accounts_service.Service.Process.{
  Task, update_session_task, terminate_all_task, update_session, terminate_retry, run_task, stops,
}
use accounts_service.System.Keys.{IsWellKeyed}
use accounts_service.System.Backend.{IsBackend}
use accounts_service.System.Repository
use accounts_service.System.Termination
use accounts_service.System.Interference.{Interferes}
use accounts_service.System.Sound.{IsPending}

module _ ⦃x : External⦄ (keys : x.World → Keys) (b : IsBackend keys) {m : Keys}
    (h0 : IsWellKeyed m) where
  terminate_retry-Since :
      (n : ℕ) (cfg : AccountsServiceConfig) (session : Session) (w : x.World)
      → Interferes m (keys w)
      → Interferes m (keys (terminate_retry n cfg session w))
  unfolding terminate_retry
  terminate_retry-Since zero cfg session w h = h
  terminate_retry-Since (suc n) cfg session w h =
      let (r, w') = Store.terminate_all_sessions x.background session.account_id w in
      let h' =
        (Termination.terminate_all_sessions-Since keys b h0 x.background session.account_id).after w
          h in
      let d = cfg.retry_sleep_time_for_terminate_sessions in
      elim (Bool-cases (stops (outcome_error r))) [
        | inl stopped ↦ rw stopped h'
        | inr again ↦
            rw again
              (terminate_retry-Since n cfg session (x.sleep d w') (b.separate.keys-sleep d w' m h'))
      ]

  pub run_task-Since :
      (cfg : AccountsServiceConfig) (t : Task) (w : x.World)
      → IsPending t
      → Interferes m (keys w)
      → Interferes m (keys (run_task cfg t w))
  unfolding run_task update_session
  run_task-Since cfg (update_session_task session time) w one h =
      (Repository.update_last_activity-Since keys b h0 x.background session time cfg.session_ttl
          one).after
        w h
  run_task-Since cfg (terminate_all_task session) w one h =
      terminate_retry-Since cfg.num_retries_for_terminate_sessions cfg session w h
