-- ===== src/Service/Deletion.antt =====
-- internal/service/service.go: `DeleteAccount`, its transaction and its event, and the goroutine
-- that terminates the account's sessions.
use accounts_service.Prelude.{
  ℕ, zero, suc, ◌<◌, String, ◌≡◌, ◌≢◌, ap, refl, true, false, none, some, [], ◌∷◌, ◌++◌, inl, inr,
  ◌⊎◌, arith,
}
use accounts_service.Models.{Session}
use accounts_service.Models.Errors.{
  GoError, service_error, status_error, redis_nil, no_rows, other_error, ErrorCode, code, error,
}
use accounts_service.External.{External, text}
use accounts_service.Effect.{Outcome, ok, err, done, fail, panic, outcome_error}
use accounts_service.Config.{AccountsServiceConfig}
use accounts_service.Redis.Sessions as Repository
use accounts_service.Redis.Sessions.TerminateAll.{terminate_all_sessions-smembers_error}
use accounts_service.Postgres
use accounts_service.Events
use accounts_service.Service.Process as Process
use accounts_service.Service.Process.{Process, Task, terminate_all_task, stops}
use accounts_service.Service.Sessions
use accounts_service.Service.Accounts

module _ ⦃x : External⦄ (ctx : x.Ctx) (session : Session) (session_id machine_id email : String)
    (p : Process) where
  -- The calls before the transaction: the session is checked and the email looked up.
  abbrev checked : Process
  checked = (Sessions.check_session ctx machine_id session_id p).1

  abbrev looked_up : x.World
  looked_up = (Postgres.get_account_email ctx session.account_id checked.world).1

  pub record IsReady : Type 0 where
    pub session_found : (Sessions.check_session ctx machine_id session_id p).0 ≡ done session
    pub email_found :
        (Postgres.get_account_email ctx session.account_id checked.world).0 ≡ done email

  delete_row_error :
      (tx : x.Tx) (e : GoError)
      → let begun = x.sql.begin_tx ctx looked_up in
        begun.0 ≡ ok tx
        → let executed =
            x.sql.tx_exec ctx tx Postgres.delete_query (text session.account_id ∷ []) begun.1 in
          executed.0 ≡ err e
          → let undone = x.sql.rollback tx executed.1 in
            undone.0 ≡ ok tt
            → x.ctx_err ctx undone.1 ≡ none
            → Postgres.delete_account ctx session.account_id looked_up ≡ (done none, undone.1)
  unfolding Postgres.delete_account
  delete_row_error tx e begun executed undone live = ground arith

  -- If the DELETE fails and the rollback goes through, the deletion event is written
  -- nevertheless, and then `DeleteAccount` panics, if the event could be written.
  pub delete_account-exec_error :
      (tx : x.Tx) (e : GoError)
      → IsReady
      → let begun = x.sql.begin_tx ctx looked_up in
        begun.0 ≡ ok tx
        → let executed =
            x.sql.tx_exec ctx tx Postgres.delete_query (text session.account_id ∷ []) begun.1 in
          executed.0 ≡ err e
          → let undone = x.sql.rollback tx executed.1 in
            undone.0 ≡ ok tt
            → x.ctx_err ctx undone.1 ≡ none
            → let sent = Events.account_deleted ctx email session.account_id undone.1 in
              sent.0 ≡ done tt
              → Accounts.delete_account ctx session_id machine_id p
                ≡ (panic, record { world = sent.1; tasks = checked.tasks })
  unfolding Accounts.delete_account
  delete_account-exec_error tx e ready begun executed undone live sent =
      let rolled = delete_row_error tx e begun executed undone live in
      let s = ready.session_found in let m = ready.email_found in ground arith

  -- With the row deleted in an open transaction, the event is written before the commit. If the
  -- commit fails, `DeleteAccount` ends in an internal error with the event out, and no goroutine
  -- has been started.
  pub delete_account-commit_error :
      (tx : x.Tx) (e : GoError)
      → IsReady
      → let deleted = Postgres.delete_account ctx session.account_id looked_up in
        deleted.0 ≡ done (some tx)
        → let sent = Events.account_deleted ctx email session.account_id deleted.1 in
          sent.0 ≡ done tt
          → let committed = x.sql.commit tx sent.1 in
            committed.0 ≡ err e
            → Accounts.delete_account ctx session_id machine_id p ≡ (
              fail (error ErrorCode.internal (Accounts.error_text e)),
              record { world = committed.1; tasks = checked.tasks },
            )
  unfolding Accounts.delete_account Accounts.commit
  delete_account-commit_error tx e ready deleted sent failed =
      let s = ready.session_found in let m = ready.email_found in ground arith

  -- If the deletion, the event and the commit go through, `DeleteAccount` succeeds and starts the
  -- goroutine that terminates the sessions of the account.
  delete_account_commits :
      (tx : x.Tx)
      → IsReady
      → let deleted = Postgres.delete_account ctx session.account_id looked_up in
        deleted.0 ≡ done (some tx)
        → let sent = Events.account_deleted ctx email session.account_id deleted.1 in
          sent.0 ≡ done tt
          → let committed = x.sql.commit tx sent.1 in
            committed.0 ≡ ok tt
            → Accounts.delete_account ctx session_id machine_id p ≡ (
              done tt,
              record {
                world = committed.1;
                tasks = checked.tasks ++ (terminate_all_task session ∷ []);
              },
            )
  unfolding Accounts.delete_account Accounts.commit
  delete_account_commits tx ready deleted sent committed =
      let s = ready.session_found in let m = ready.email_found in ground arith

module _ ⦃x : External⦄ (cfg : AccountsServiceConfig) (session : Session) where
  abbrev attempt : x.World → Outcome (Unit {0}) × x.World
  attempt w = Repository.terminate_all_sessions x.background session.account_id w

  -- The world after some failed attempts, each followed by the pause.
  abbrev after_attempts : ℕ → x.World → x.World
  after_attempts zero w = w
  after_attempts (suc k) w =
      after_attempts k (x.sleep cfg.retry_sleep_time_for_terminate_sessions (attempt w).1)

  -- An attempt that has succeeded, or has found nothing.
  abbrev IsOver : Outcome (Unit {0}) → Type 0
  IsOver r = (r ≡ done tt) ⊎ ((msg : String) × (r ≡ fail (error ErrorCode.not_found msg)))

  -- None of the first attempts is over.
  abbrev AllFail : ℕ → x.World → Type 0
  AllFail zero w = Unit
  AllFail (suc k) w =
      (¬ IsOver (attempt w).0)
      × AllFail k (x.sleep cfg.retry_sleep_time_for_terminate_sessions (attempt w).1)

  -- Either all the attempts fail, or the loop ends right after the first that does not.
  abbrev pub EndsAfter : ℕ → x.World → x.World → Type 0
  EndsAfter n w final =
      (AllFail n w × (final ≡ after_attempts n w))
      ⊎ ((k : ℕ) × (k < n)
          × AllFail k w
          × IsOver (attempt (after_attempts k w)).0
          × (final ≡ (attempt (after_attempts k w)).1))

  -- `stops` decides whether an attempt is over.
  abbrev Decides : Outcome (Unit {0}) → Type 0
  Decides r =
      (IsOver r × (stops (outcome_error r) ≡ true))
      ⊎ ((¬ IsOver r) × (stops (outcome_error r) ≡ false))

  -- An error of another code is not over.
  other_fails : (e : GoError) → code (some e) ≢ ErrorCode.not_found → ¬ IsOver (fail e)
  other_fails e other (inl h) = cc
  other_fails e other (inr (msg, h)) = other (ap (λ r. code (outcome_error r)) h)

  service_error-Decides : (msg : String) (c : ErrorCode) → Decides (fail (error c msg))
  service_error-Decides msg ErrorCode.not_found = inl (inr (msg, refl), refl)
  service_error-Decides msg ErrorCode.unknown =
      inr (other_fails (error ErrorCode.unknown msg) (λ h. cc), refl)
  service_error-Decides msg ErrorCode.internal =
      inr (other_fails (error ErrorCode.internal msg) (λ h. cc), refl)
  service_error-Decides msg ErrorCode.invalid_argument =
      inr (other_fails (error ErrorCode.invalid_argument msg) (λ h. cc), refl)
  service_error-Decides msg ErrorCode.unauthenticated =
      inr (other_fails (error ErrorCode.unauthenticated msg) (λ h. cc), refl)
  service_error-Decides msg ErrorCode.conflict =
      inr (other_fails (error ErrorCode.conflict msg) (λ h. cc), refl)
  service_error-Decides msg ErrorCode.canceled =
      inr (other_fails (error ErrorCode.canceled msg) (λ h. cc), refl)
  service_error-Decides msg ErrorCode.deadline_exceeded =
      inr (other_fails (error ErrorCode.deadline_exceeded msg) (λ h. cc), refl)
  service_error-Decides msg ErrorCode.permission_denied =
      inr (other_fails (error ErrorCode.permission_denied msg) (λ h. cc), refl)

  attempt-Decides : (r : Outcome (Unit {0})) → r ≢ panic → Decides r
  attempt-Decides (done tt) returns = inl (inl refl, refl)
  attempt-Decides panic returns = absurd (returns refl)
  attempt-Decides (fail (service_error e)) returns = service_error-Decides e.msg e.code
  attempt-Decides (fail (status_error c msg)) returns = inr (other_fails _ (λ h. cc), refl)
  attempt-Decides (fail redis_nil) returns = inr (other_fails _ (λ h. cc), refl)
  attempt-Decides (fail no_rows) returns = inr (other_fails _ (λ h. cc), refl)
  attempt-Decides (fail (other_error msg)) returns = inr (other_fails _ (λ h. cc), refl)

  attempt_returns : (w : x.World) → (attempt w).0 ≢ panic
  unfolding Repository.terminate_all_sessions Repository.terminate_all_body
      Repository.after_smembers Repository.delete_all
  attempt_returns w panics = ground arith

  -- The goroutine of `DeleteAccount` makes at most the given number of attempts: either all of
  -- them fail, or it ends right after the first that succeeds or finds nothing.
  pub terminate_retry_lem :
      (n : ℕ) (w : x.World) → EndsAfter n w (Process.terminate_retry n cfg session w)
  unfolding Process.terminate_retry
  terminate_retry_lem zero w = inl (tt, refl)
  terminate_retry_lem (suc n) w =
      let w' = x.sleep cfg.retry_sleep_time_for_terminate_sessions (attempt w).1 in
      elim (attempt-Decides (attempt w).0 (attempt_returns w)) [
        | inl (over, stopped) ↦ inr (0, omega arith, tt, over, rw stopped refl)
        | inr (fails, failed) ↦ elim (terminate_retry_lem n w') [
          | inl (all, final) ↦ inl ((fails, all), rw failed final)
          | inr (k, lt, all, over, final) ↦
              inr (suc k, omega arith, (fails, all), over, rw failed final)
        ]
      ]

  -- If Redis cannot list the account's sessions, the goroutine gives up after that one attempt,
  -- however many are configured, and no session has been deleted.
  pub terminate_retry-smembers_error :
      (n : ℕ) (e : GoError) (w : x.World)
      → let (res, w') =
          x.sessions.smembers x.background (Repository.account_key session.account_id) w in
        res ≡ err e
        → x.ctx_err x.background w' ≡ none
        → Process.terminate_retry (suc n) cfg session w ≡ x.inc_cache_hits "TerminateAllSessions" w'
  unfolding Process.terminate_retry
  terminate_retry-smembers_error n e w failed live =
      let one =
        terminate_all_sessions-smembers_error x.background session.account_id e w failed live in
      ground arith
