-- ===== src/Service/Revoked.antt =====
-- internal/service/service.go: a session that has been logged out, over a reachable Redis server.
use accounts_service.Prelude.{String, List, ◌≡◌, ◌≢◌, refl, true, some}
use accounts_service.Models.{Session}
use accounts_service.Models.Errors.{ErrorCode, GoError, error}
use accounts_service.External.{External}
use accounts_service.External.Redis.{Keys, text_of, accepts_key}
use accounts_service.Effect.{ok}
use accounts_service.Redis.Sessions as Repository
use accounts_service.Redis.Sessions.Store.{IsStore, get_session_missing}
use accounts_service.Service.Process.{Process}
use accounts_service.Service.Sessions
use accounts_service.Service.Accounts
use accounts_service.Service.Authentication.{Refuses, unauthenticated_refused, check_session_failed}
use accounts_service.Service.Lifecycle.{logout_lem}

-- What a session that is gone is refused with.
abbrev pub gone : GoError
gone = error ErrorCode.unauthenticated "session not found"

module _ ⦃x : External⦄ (ctx : x.Ctx) (keys : x.World → Keys) (store : IsStore ctx keys) where
  -- Directly after a session that is stored has been logged out from its machine, no machine can
  -- use it: `GetAccountID`, `Logout`, `GetAllSessions`, `TerminateSessions` and `DeleteAccount`
  -- are refused as unauthenticated, and do nothing but look the session up. Assumed: the id is
  -- not the key of the account's set, which holds no text.
  pub logout_revokes :
      (session : Session) (id body : String) (p : Process)
      → let list_key = Repository.account_key session.account_id in
        text_of (keys p.world id) ≡ some body
        → x.json.unmarshal_session body ≡ ok session
        → accepts_key (keys p.world list_key) ≡ true
        → list_key ≢ id
        → (machine_id : String) (ids : List String)
        → let after = (Sessions.logout ctx id session.machine_id p).1 in
          let q : Process = record after {
            world = (Repository.get_session ctx id after.world).1;
          } in
          Refuses (Sessions.get_account_id ctx id machine_id) after gone q
          × Refuses (Sessions.logout ctx id machine_id) after gone q
          × Refuses (Sessions.get_all_sessions ctx id machine_id) after gone q
          × Refuses (Sessions.terminate_sessions ctx id machine_id ids) after gone q
          × Refuses (Accounts.delete_account ctx id machine_id) after gone q
  logout_revokes session id body p found decoded accepted apart machine_id ids =
      let after = (Sessions.logout ctx id session.machine_id p).1 in
      let (ended, missing, left, others) =
        logout_lem ctx keys store session id body session.machine_id p found decoded refl accepted
          apart in
      let (lookup, kept) = get_session_missing ctx keys store id after.world missing in
      let refused = check_session_failed ctx machine_id id _ after lookup in
      unauthenticated_refused ctx machine_id id ids gone after refused
