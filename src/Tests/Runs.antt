-- ===== src/Tests/Runs.antt =====
-- The theorems on listing sessions and on goroutines, at concrete data.
use accounts_service.Prelude.{
  String, none, some, List, [], ◌∷◌, ◌≡◌, ◌≢◌, refl, eq_iff, arith, contains, true, sym, ap, ◌∙◌,
  if◌then◌else◌,
}
use accounts_service.Models.{SessionInfo}
use accounts_service.Models.Errors.{ErrorCode, error}
use accounts_service.External.Redis.{text_of, members_of}
use accounts_service.Effect.{done, fail}
use accounts_service.Config.{account_service_config}
use accounts_service.Postgres
use accounts_service.Redis.Sessions as Repository
use accounts_service.Redis.Sessions.{account_key}
use accounts_service.Service.Process.{Process, terminate_all_task, run_task}
use accounts_service.Service.Sessions
use accounts_service.Service.Accounts
use accounts_service.Events
use accounts_service.Handler.Methods
use accounts_service.Handler.Context
use accounts_service.System.Server.{terminate_sessions, serve, Step, IsReached, next}
use accounts_service.System.Listing.{
  AllDecode, info_under, shown, get_all_sessions_lists, get_all_sessions-no_ids,
}
use accounts_service.Tests.Memory.{memory, session_at}
use accounts_service.Tests.Laws.{session_keys, memory-IsStore}
use accounts_service.Tests.Backend.{memory-IsBackend}
use accounts_service.Tests.Worlds.{request, configured}
use accounts_service.Tests.System.{entered, entered-IsReached}

stored_text : text_of (session_keys entered.world "s1") ≡ some "s1 at 9"
unfolding serve account_key Methods.sign_in Context.machine_id_of Sessions.sign_in
    Postgres.get_account_by_email Repository.set_session
stored_text = refl

listed_ids : members_of (session_keys entered.world (account_key "a1")) ≡ "s1" ∷ []
unfolding serve account_key Methods.sign_in Context.machine_id_of Sessions.sign_in
    Postgres.get_account_by_email Repository.set_session
listed_ids = refl

some_id : members_of (session_keys entered.world (account_key "a1")) ≢ []
some_id e = let at = listed_ids in cc

entered-AllDecode :
    AllDecode ⦃x = memory⦄
      (session_keys entered.world)
      (members_of (session_keys entered.world (account_key "a1")))
entered-AllDecode id v listed found =
    let listed' : contains ("s1" ∷ []) id ≡ true = rw listed_ids at listed in
    let one : id ≡ "s1" = ground (arith, eq_iff id "s1") in
    let same = ap (λ k. text_of (session_keys entered.world k)) one in
    let at : some "s1 at 9" ≡ some v = sym stored_text ∙ sym same ∙ found in
    let body : v ≡ "s1 at 9" = ground arith in (session_at 9, rw body refl)

get_all_sessions_lists_example :
    (r : List (String × SessionInfo)) × ((Sessions.get_all_sessions none "s1" "laptop" entered).0
      ≡ done r)
    × ((j : String)
        → info_under j r ≡ (
            if contains (members_of (session_keys entered.world (account_key "a1"))) j
            then shown (session_keys entered.world) j
            else none))
get_all_sessions_lists_example =
    get_all_sessions_lists session_keys memory-IsBackend configured none (session_at 9) "s1"
      "s1 at 9" entered entered-IsReached (memory-IsStore none) stored_text refl some_id
      entered-AllDecode

-- Alice has asked to end `s1` and `s2`, and `s1` has left her set.
abbrev unlisted : Process ⦃x = memory⦄
unlisted = (serve configured request (terminate_sessions ("s1" ∷ "s2" ∷ [])) entered).1

unlisted-IsReached : IsReached session_keys configured unlisted
unlisted-IsReached =
    next _ _ entered-IsReached
      (Step.request request (terminate_sessions ("s1" ∷ "s2" ∷ [])) entered)

get_all_sessions-no_ids_example :
    (Sessions.get_all_sessions none "s1" "laptop" unlisted).0
    ≡ fail (error ErrorCode.internal "cache internal error")
unfolding serve account_key Methods.sign_in Context.machine_id_of Sessions.sign_in
    Postgres.get_account_by_email Repository.set_session Methods.terminate_sessions
    Context.auth_headers Sessions.terminate_sessions Sessions.check_and_update_session
    Sessions.check_session Repository.get_session Sessions.refresh_unless_logout
    Repository.terminate_sessions
get_all_sessions-no_ids_example =
    get_all_sessions-no_ids session_keys memory-IsBackend configured none (session_at 9) "s1"
      "s1 at 9" "ERR wrong number of arguments for 'mget' command" unlisted unlisted-IsReached
      (memory-IsStore none) (λ w. refl) refl refl refl

-- Alice has deleted her account, and the goroutine has run.
abbrev deleted : Process ⦃x = memory⦄
deleted = (Methods.delete_account request entered).1

abbrev ended : Process ⦃x = memory⦄
ended = record {
  world =
      run_task (account_service_config configured) (terminate_all_task (session_at 9))
        deleted.world;
  tasks = [];
}
