-- ===== src/Tests/System.antt =====
-- The service from an empty sessions database, over the server in memory.
use accounts_service.Prelude.{String, none, [], ◌∷◌, ◌≡◌, refl, eq_iff, arith}
use accounts_service.Effect.{done}
use accounts_service.Redis.Sessions.{account_key}
use accounts_service.Config.{account_service_config, get_config}
use accounts_service.Postgres
use accounts_service.Service.Process.{Process, run_task, terminate_all_task}
use accounts_service.Service.Sessions
use accounts_service.Handler.Methods
use accounts_service.Handler.Context
use accounts_service.Redis.Sessions as Repository
use accounts_service.System.Sound.{IsSound}
use accounts_service.System.Server.{
  Request, elsewhere, serve, sign_in, Step, IsReached, initial, next,
}
use accounts_service.System.Interference.{Interferes, quiet}
use accounts_service.System.Reached.{reached-IsSound, reached-Interferes}
use accounts_service.System.Usable.{reached-logout, reached-sign_in}
use accounts_service.System.Ownership.{terminate_sessions_foreign, session_outlives_account}
use accounts_service.Tests.Memory.{dora_session, memory, session_at, alice}
use accounts_service.Tests.Laws.{session_keys, memory-IsStore}
use accounts_service.Tests.Backend.{memory-IsBackend}
use accounts_service.Tests.Worlds.{no_sessions, running, request, file, configured, login}

abbrev pub enter_as : String → Request
enter_as email = sign_in (record { email = email; password = "secret"; client_ip = "10.0.0.1" })

-- Alice has signed in on her laptop.
abbrev pub entered : Process ⦃x = memory⦄
entered = (serve configured request (enter_as "alice@example.org") (running no_sessions)).1

pub entered-IsReached : IsReached session_keys configured entered
entered-IsReached =
    next _ _ (initial no_sessions (λ k. refl))
      (Step.request request (enter_as "alice@example.org") (running no_sessions))

-- Time has passed, and Dora has signed in, too.
abbrev afternoon : Process ⦃x = memory⦄
afternoon = record entered { world = record entered.world { clock = 20 } }

abbrev both : Process ⦃x = memory⦄
both = (serve configured request (enter_as "dora@example.org") afternoon).1

both-IsReached : IsReached session_keys configured both
both-IsReached =
    next _ _ (next _ _ entered-IsReached (elsewhere entered afternoon.world quiet))
      (Step.request request (enter_as "dora@example.org") afternoon)

reached-IsSound_example : IsSound session_keys entered
reached-IsSound_example =
    reached-IsSound session_keys memory-IsBackend configured entered entered-IsReached

reached-logout_example :
    let ended = Sessions.logout none "s1" "laptop" entered in session_keys ended.1.world "s1" ≡ none
unfolding serve account_key Methods.sign_in Context.machine_id_of Sessions.sign_in
    Postgres.get_account_by_email Repository.set_session
reached-logout_example =
    (reached-logout session_keys memory-IsBackend configured none (session_at 9) "s1" "s1 at 9"
      entered entered-IsReached (memory-IsStore none) refl refl).2

reached-sign_in_example :
    let ended = Sessions.sign_in (account_service_config configured) none login entered in
    (Sessions.get_account_id none "s1" "laptop" ended.1).0 ≡ done "a1"
unfolding Postgres.get_account_by_email serve Methods.sign_in Context.machine_id_of Sessions.sign_in
    Repository.set_session
reached-sign_in_example =
    (reached-sign_in session_keys memory-IsBackend configured none (memory-IsStore none) login alice
      "s1 at 9" entered entered-IsReached refl refl refl refl).1

terminate_sessions_foreign_example :
    session_keys (Sessions.terminate_sessions none "s1" "laptop" ("s3" ∷ []) both).1.world "s3"
    ≡ none
unfolding serve account_key Methods.sign_in Context.machine_id_of Sessions.sign_in
    Postgres.get_account_by_email Repository.set_session
terminate_sessions_foreign_example =
    (terminate_sessions_foreign session_keys memory-IsBackend configured none (session_at 9)
      dora_session "s1" "s1 at 9" "s3" "s3 at 20" both both-IsReached (memory-IsStore none) refl
      refl refl refl (ground (arith, eq_iff "a1" "d1"))).1

-- `s2` is no session.
session_outlives_account_example :
    let ended = Repository.terminate_sessions none ("s1" ∷ "s2" ∷ []) "a1" entered.world in
    let w =
      run_task
        (account_service_config (get_config file))
        (terminate_all_task (session_at 9))
        ended.1 in
    (Sessions.get_account_id none "s1" "laptop" (record entered { world = w })).0 ≡ done "a1"
unfolding serve account_key Methods.sign_in Context.machine_id_of Sessions.sign_in
    Postgres.get_account_by_email Repository.set_session
session_outlives_account_example =
    (session_outlives_account session_keys memory-IsBackend configured none file (session_at 9) "s1"
      ("s2" ∷ []) "s1" "s1 at 9" entered entered-IsReached (memory-IsStore none)
      (memory-IsStore none) (omega arith) refl refl refl refl).2

-- Dora signs in while Alice is signed in.
reached-Interferes_example : Interferes (session_keys entered.world) (session_keys both.world)
reached-Interferes_example =
    reached-Interferes session_keys memory-IsBackend configured afternoon both
      (next _ _ entered-IsReached (elsewhere entered afternoon.world quiet))
      (Step.request request (enter_as "dora@example.org") afternoon)
