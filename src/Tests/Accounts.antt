-- ===== src/Tests/Accounts.antt =====
-- The theorems on accounts, at concrete data.
use accounts_service.Prelude.{◌≡◌, refl, ap, none, []}
use accounts_service.Models.Errors.{ErrorCode, error, other_error}
use accounts_service.Effect.{fail, panic}
use accounts_service.Config.{Config, get_config}
use accounts_service.Token
use accounts_service.Redis.Sessions as Repository
use accounts_service.Redis.Registration
use accounts_service.Postgres
use accounts_service.Events
use accounts_service.Service.Process as Process
use accounts_service.Service.Process.{Process, terminate_all_task}
use accounts_service.Service.Sessions as Service
use accounts_service.Service.Accounts as Accounts
use accounts_service.Service.Activation.{verify_account-insert_error}
use accounts_service.Service.Deletion.{
  EndsAfter, delete_account-exec_error, delete_account-commit_error, terminate_retry_lem,
  terminate_retry-smembers_error,
}
use accounts_service.Tests.Memory.{World, memory, session_at}
use accounts_service.Tests.Laws.{dated}
use accounts_service.Tests.Worlds.{world, settings, file, failing, uncommitting, unlisting}

-- The configuration gives a token five seconds.
abbrev five_seconds : Config
five_seconds = record file { nonactivated_account_ttl = 5000000000 }

-- At 9.5 seconds the token is made, and one nanosecond before 14 seconds it is used.
abbrev making : World
making = record world { clock = 9500000000 }

abbrev using : Process ⦃x = dated⦄
using = record { world = record world { clock = 13999999999 }; tasks = [] }

verify_account-insert_error_example :
    Accounts.verify_account ⦃x = failing⦄
      (get_config file)
      none
      "token"
      (record { world = world; tasks = [] })
    ≡ (panic, record { world = world; tasks = [] })
unfolding Token.parse_token Registration.get_account get_config
verify_account-insert_error_example =
    verify_account-insert_error ⦃x = failing⦄ (get_config file) none "token" "bob@example.org"
      (record { username = "bob"; password = "hash:secret" }) tt (other_error "duplicate key")
      (record { world = world; tasks = [] }) refl refl refl refl refl refl

delete_account-exec_error_example :
    (Accounts.delete_account ⦃x = failing⦄ none "s1" "laptop"
      (record { world = world; tasks = [] })).0
    ≡ panic
unfolding Service.check_session Repository.get_session Postgres.get_account_email
    Events.account_deleted
delete_account-exec_error_example =
    ap (λ r. r.0)
      (delete_account-exec_error ⦃x = failing⦄ none (session_at 5) "s1" "laptop" "alice@example.org"
        (record { world = world; tasks = [] }) tt (other_error "lost")
        (record { session_found = refl; email_found = refl }) refl refl refl refl refl)

delete_account-commit_error_example :
    (Accounts.delete_account ⦃x = uncommitting⦄ none "s1" "laptop"
      (record { world = world; tasks = [] })).0
    ≡ fail (error ErrorCode.internal "lost")
unfolding Service.check_session Repository.get_session Postgres.get_account_email
    Events.account_deleted Postgres.delete_account Accounts.error_text
delete_account-commit_error_example =
    ap (λ r. r.0)
      (delete_account-commit_error ⦃x = uncommitting⦄ none (session_at 5) "s1" "laptop"
        "alice@example.org" (record { world = world; tasks = [] }) tt (other_error "lost")
        (record { session_found = refl; email_found = refl }) refl refl refl)

terminate_retry_lem_example :
    EndsAfter ⦃x = memory⦄ settings
      (session_at 5)
      3
      world
      (Process.terminate_retry 3 settings (session_at 5) world)
terminate_retry_lem_example = terminate_retry_lem settings (session_at 5) 3 world

terminate_retry-smembers_error_example :
    Process.terminate_retry ⦃x = unlisting⦄ 3 settings (session_at 5) world ≡ world
terminate_retry-smembers_error_example =
    terminate_retry-smembers_error ⦃x = unlisting⦄ settings (session_at 5) 2 (other_error "lost")
      world refl refl
