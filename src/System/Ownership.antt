-- ===== src/System/Ownership.antt =====
-- internal/service/service.go: whose sessions `TerminateSessions` and the deletion of an account
-- end.
use accounts_service.Prelude.{
  String, true, false, none, some, [], ◌∷◌, List, length, contains, ◌≡◌, ◌≢◌, ◌∙◌, refl, sym, arith,
  append_cancel_left,
}
use accounts_service.Models.{Session}
use accounts_service.External.{External}
use accounts_service.External.Redis.{Keys, text_of}
use accounts_service.Effect.{ok, done}
use accounts_service.Config.{Config, account_service_config, get_config}
use accounts_service.Redis.Sessions as Repository
use accounts_service.Redis.Sessions.{account_key}
use accounts_service.Redis.Sessions.Store.{IsStore, get_session_found}
use accounts_service.Redis.Sessions.Stale.{terminate_sessions_stale}
use accounts_service.Redis.Sessions.Terminate.{texts_under}
use accounts_service.Service.Process.{Process, run_task, terminate_all_task}
use accounts_service.Service.Sessions
use accounts_service.Service.Cleanup.{terminate_all_task_lem}
use accounts_service.Service.Lifecycle.{
  Stored, terminate_one, get_account_id_found, check_and_update_found,
}
use accounts_service.System.Keys.{IsSessionId, IsSessionId-stored, IsWellKeyed, text_of-text}
use accounts_service.System.Interference.{Interferes, Interferes-IsWellKeyed}
use accounts_service.System.Backend.{IsBackend}
use accounts_service.System.Server.{IsReached}
use accounts_service.System.Reached.{reached-IsSound}
use accounts_service.System.Termination

account_key_injective : (a c : String) → account_key a ≡ account_key c → a ≡ c
unfolding account_key
account_key_injective a c h = append_cancel_left "account_" a c h

module _ ⦃x : External⦄ (keys : x.World → Keys) (b : IsBackend keys) (global : Config) where
  -- The id under which a session is stored is no account's key.
  stored-IsSessionId :
      (p : Process) (id body : String) (session : Session)
      → IsReached keys global p
      → text_of (keys p.world id) ≡ some body
      → x.json.unmarshal_session body ≡ ok session
      → (session.session_id ≡ id) × IsSessionId id
  stored-IsSessionId p id body session reached found decoded =
      let h = (reached-IsSound keys b global p reached).keyed in
      let named =
        (h.fits id).body body (text_of-text (keys p.world id) body found) session decoded in
      (named, rw (← named) (IsSessionId-stored (keys p.world) id body session h found decoded))

  -- `TerminateSessions` does not ask whose the listed sessions are: in every state that the
  -- service reaches, over a reachable server, it ends a session of another account that the
  -- caller lists, and leaves that account's set as it was.
  pub terminate_sessions_foreign :
      (ctx : x.Ctx) (mine theirs : Session) (id body other their_body : String) (p : Process)
      → IsReached keys global p
      → IsStore ctx keys
      → text_of (keys p.world id) ≡ some body
      → x.json.unmarshal_session body ≡ ok mine
      → text_of (keys p.world other) ≡ some their_body
      → x.json.unmarshal_session their_body ≡ ok theirs
      → mine.account_id ≢ theirs.account_id
      → let ended = Sessions.terminate_sessions ctx id mine.machine_id (other ∷ []) p in
        let after = keys ended.1.world in
        (ended.0 ≡ done tt)
        × (after other ≡ none)
        × (after (account_key theirs.account_id) ≡ keys p.world (account_key theirs.account_id))
  unfolding Sessions.terminate_sessions Sessions.refresh_unless_logout
  terminate_sessions_foreign ctx mine theirs id body other their_body p reached store found decoded
        their_found their_decoded apart =
      let h = (reached-IsSound keys b global p reached).keyed in
      let (named, one) =
        stored-IsSessionId p other their_body theirs reached their_found their_decoded in
      let checked = check_and_update_found ctx keys store mine id p (body, found, decoded) in
      let (got, kept) = get_session_found ctx keys store id body mine p.world found decoded in
      let w = (Repository.get_session ctx id p.world).1 in
      let accepted = (h.fits (account_key mine.account_id)).set mine.account_id refl in
      let (ended, gone, left, others, ready) =
        terminate_one ctx keys store mine.account_id other their_body w (rw kept their_found)
          (rw kept accepted) (one mine.account_id) in
      let their_key =
        others (account_key theirs.account_id) (one theirs.account_id)
          (λ e. apart (sym (account_key_injective theirs.account_id mine.account_id e))) in
      (ground arith, ground arith, ground arith)

  -- A session can outlive its account: if one of the sessions that `TerminateSessions` is given
  -- is missing, a listed session of the account that is stored survives both this and the
  -- goroutine of `DeleteAccount`, and `GetAccountID` still gives it the account's id. Assumed: a
  -- state that the service reaches, a reachable server, and an id that is not spelled like the
  -- text of a listed session.
  pub session_outlives_account :
      (ctx : x.Ctx) (file : Config) (session : Session) (k : String) (ks : List String)
      (id body : String) (p : Process)
      → IsReached keys global p
      → IsStore ctx keys
      → IsStore x.background keys
      → let ids = k ∷ ks in
        let present = texts_under (keys p.world) ids in
        length present ≢ length ids
        → contains ids id ≡ true
        → contains present id ≡ false
        → text_of (keys p.world id) ≡ some body
        → x.json.unmarshal_session body ≡ ok session
        → let ended = Repository.terminate_sessions ctx ids session.account_id p.world in
          let cfg = account_service_config (get_config file) in
          let q : Process = record p {
            world = run_task cfg (terminate_all_task session) ended.1;
          } in
          (ended.0 ≡ done tt)
          × (keys q.world id ≡ keys p.world id)
          × ((Sessions.get_account_id ctx id session.machine_id q).0 ≡ done session.account_id)
  session_outlives_account ctx file session k ks id body p reached store quiet some_gone listed
        absent found decoded =
      let list_key = account_key session.account_id in
      let h = (reached-IsSound keys b global p reached).keyed in
      let (named, one) = stored-IsSessionId p id body session reached found decoded in
      let not_list : id ≢ list_key = λ e. one session.account_id (sym e) in
      let accepted = (h.fits list_key).set session.account_id refl in
      let (ended, same, left) =
        terminate_sessions_stale ctx keys store session.account_id k ks p.world some_gone
          accepted in
      let w1 = (Repository.terminate_sessions ctx (k ∷ ks) session.account_id p.world).1 in
      let h1 : IsWellKeyed (keys w1) =
        Interferes-IsWellKeyed (keys p.world) (keys w1)
          ((Termination.terminate_sessions-Since keys b h ctx (k ∷ ks) session.account_id).after
            p.world Interferes.quiet)
          h in
      let accepted1 = (h1.fits list_key).set session.account_id refl in
      let (gone, emptied, others) = terminate_all_task_lem keys quiet file session w1 accepted1 in
      let stays = others id (left id listed absent) not_list ∙ same id absent not_list in
      let w2 =
        run_task (account_service_config (get_config file)) (terminate_all_task session) w1 in
      let q : Process = record p { world = w2 } in
      let stored : Stored ctx keys store session id w2 = (body, rw stays found, decoded) in
      (
        ended,
        stays,
        (get_account_id_found ctx keys store session id session.machine_id q stored).0 refl,
      )
