-- ===== src/Service/Process.antt =====
-- The state of the running service: the world, and the goroutines that were started and have not
-- run. A goroutine's arguments are evaluated when it is started, and it runs under
-- `context.Background()`.
use accounts_service.Prelude.{
  ℕ, zero, suc, Bool, true, false, List, [], ◌∷◌, ◌++◌, Option, none, some, if◌then◌else◌,
}
use accounts_service.Models.{Session}
use accounts_service.Models.Errors.{GoError, ErrorCode, code}
use accounts_service.External.{External}
use accounts_service.Effect.{M, outcome_error, modify}
use accounts_service.Config.{AccountsServiceConfig}
use accounts_service.Redis.Sessions.{update_last_activity, terminate_all_sessions}

-- `go s.updateSession(…)` and the goroutine of `DeleteAccount`.
pub data Task : Type 0 where
  update_session_task : Session → ℕ → Task
  terminate_all_task : Session → Task

-- Whether the goroutine of `DeleteAccount` returns after an attempt.
abbrev pub stops : Option GoError → Bool
stops none = true
stops (some e) = elim (code (some e)) [ ErrorCode.not_found ↦ true | _ ↦ false ]

module _ ⦃x : External⦄ where
  pub record Process : Type 0 where
    pub world : x.World
    pub tasks : List Task

  abbrev pub on_world : {A : Type 0} → M x.World A → M Process A
  on_world m p = let (r, w) = m p.world in (r, record p { world = w })

  -- The `go` statement.
  abbrev pub spawn : Task → M Process (Unit {0})
  spawn t = modify (λ p. record p { tasks = p.tasks ++ (t ∷ []) })

  -- `updateSession`; it only logs an error.
  unfoldable pub update_session : AccountsServiceConfig → x.Ctx → Session → ℕ → x.World → x.World
  update_session cfg ctx session time w =
      (update_last_activity ctx session time cfg.session_ttl w).1

  -- The loop of the goroutine of `DeleteAccount`, by the attempts that are left.
  unfoldable pub terminate_retry : ℕ → AccountsServiceConfig → Session → x.World → x.World
  terminate_retry zero cfg session w = w
  terminate_retry (suc n) cfg session w =
      let (r, w') = terminate_all_sessions x.background session.account_id w in
      let rest =
        terminate_retry n cfg session (x.sleep cfg.retry_sleep_time_for_terminate_sessions w') in
      if stops (outcome_error r) then w' else rest

  -- A goroutine, from its start to its end.
  unfoldable pub run_task : AccountsServiceConfig → Task → x.World → x.World
  unfolding update_session terminate_retry
  run_task cfg (update_session_task session time) w = update_session cfg x.background session time w
  run_task cfg (terminate_all_task session) w =
      terminate_retry cfg.num_retries_for_terminate_sessions cfg session w
