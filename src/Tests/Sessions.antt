-- ===== src/Tests/Sessions.antt =====
-- The theorems on sessions, at concrete data.
use accounts_service.Prelude.{◌≡◌, refl, sym, ◌≢◌, String, none, some, [], ◌∷◌, eq_iff, arith}
use accounts_service.Models.Errors.{ErrorCode, error}
use accounts_service.External.Redis.{text}
use accounts_service.Effect.{fail}
use accounts_service.Redis.Sessions as Repository
use accounts_service.Redis.Sessions.Terminate.{terminate_sessions_live}
use accounts_service.Redis.Sessions.Stale.{terminate_sessions_stale}
use accounts_service.Service.Process.{run_task, update_session_task}
use accounts_service.Service.Sessions as Service
use accounts_service.Service.Revoked.{logout_revokes}
use accounts_service.Service.Lifecycle.{terminated_session_returns}
use accounts_service.Tests.Memory.{memory, session_at}
use accounts_service.Tests.Laws.{session_keys, memory-IsStore}
use accounts_service.Tests.Worlds.{world, running, settings}

apart : ◌≢◌ {A = String} "account_a1" "s1"
apart = ground (arith, eq_iff "account_a1" "s1")

terminate_sessions_live_example :
    session_keys (Repository.terminate_sessions none ("s1" ∷ []) "a1" world).1 "s1" ≡ none
unfolding Repository.account_key
terminate_sessions_live_example =
    (terminate_sessions_live none session_keys (memory-IsStore none) "a1" "s1" [] world refl refl
        refl).1
      "s1" refl

-- `s2` has expired: `s1` survives.
terminate_sessions_stale_example :
    session_keys (Repository.terminate_sessions none ("s1" ∷ "s2" ∷ []) "a1" world).1 "s1"
    ≡ some (text "s1 at 5")
unfolding Repository.account_key
terminate_sessions_stale_example =
    (terminate_sessions_stale none session_keys (memory-IsStore none) "a1" "s1" ("s2" ∷ []) world
        (omega arith) refl).1
      "s1" refl (λ e. apart (sym e))

-- Alice terminates her own session, and the pending update brings it back.
terminated_session_returns_example :
    let q = (Service.terminate_sessions none "s1" "laptop" ("s1" ∷ []) (running world)).1 in
    session_keys (run_task settings (update_session_task (session_at 5) 9) q.world) "s1"
    ≡ some (text "s1 at 9")
unfolding Repository.account_key Repository.get_session
terminated_session_returns_example =
    (terminated_session_returns none session_keys (memory-IsStore none) settings (session_at 5)
      "s1 at 5" "s1 at 9" (running world) (memory-IsStore none) refl refl refl apart refl).2

-- Signed out on the laptop, the session is of no use to it.
logout_revokes_example :
    (Service.get_account_id none "s1" "laptop"
      (Service.logout none "s1" "laptop" (running world)).1).0
    ≡ fail (error ErrorCode.unauthenticated "session not found")
unfolding Repository.account_key
logout_revokes_example =
    (logout_revokes none session_keys (memory-IsStore none) (session_at 5) "s1" "s1 at 5"
      (running world) refl refl refl apart "laptop" []).0.0
