-- ===== src/System/Termination.antt =====
-- internal/repository/redisrepository/sessionsRepository.go: ending sessions, and what this leaves
-- in the sessions database, whichever calls fail and whatever others do meanwhile.
use accounts_service.Prelude.{String, Option, List, [], ◌∷◌, inl, inr, arith}
use accounts_service.Models.Errors.{GoError, ErrorCode, error}
use accounts_service.External.{External}
use accounts_service.External.Redis.{del_command, srem_command, Keys}
use accounts_service.Effect.{Result, ok, err, Outcome, done, fail, panic, Result-cases}
use accounts_service.Logs.{log_error}
use accounts_service.Redis.Handling.{handle_error, update_metrics}
use accounts_service.Redis.Sessions
use accounts_service.System.Keeps.{
  Keeps, Any, Keeps-pure, Keeps-throw, Keeps-check, Keeps-bind, Keeps-then,
}
use accounts_service.System.Keys.{IsWellKeyed}
use accounts_service.System.Interference.{Runs-Interferes}
use accounts_service.Redis.Sessions.Terminate.{dropped}
use accounts_service.System.Backend.{IsBackend}
use accounts_service.System.Repository.{
  Since, with_defers-Since, exec-Since, update_metrics-Since, log_error-Since,
}

module _ ⦃x : External⦄ (keys : x.World → Keys) (b : IsBackend keys) {m : Keys}
    (h0 : IsWellKeyed m) where
  remove_missing-Since :
      (ctx : x.Ctx) (account_id : String) (ids present : List String)
      → Keeps (Since keys b h0) (Sessions.remove_missing ctx account_id ids present) Any
  unfolding Sessions.remove_missing
  remove_missing-Since ctx account_id ids present = record {
    after = λ w h.
        let list_key = Sessions.account_key account_id in
        let gone = dropped ids present in
        let runs = b.database.runs-srem ctx list_key gone w in
        let kept : Since keys b h0 (x.sessions.srem ctx list_key gone w).1 =
          Runs-Interferes (srem_command list_key gone ∷ []) m (keys w) _ h runs (tt, tt) in
        ground arith;
    value = λ w r h e. tt;
  }

  remove_stale-Since :
      (ctx : x.Ctx) (account_id : String) (ids : List String)
      → Keeps (Since keys b h0) (Sessions.remove_stale ctx account_id ids) Any
  unfolding Sessions.remove_stale Sessions.after_mget
  remove_stale-Since ctx account_id [] = Keeps-pure _ tt
  remove_stale-Since ctx account_id (k ∷ ks) = record {
    after = λ w h.
        let w' = (x.sessions.mget ctx (k ∷ ks) w).1 in
        let h' : Since keys b h0 w' = b.database.keys-mget ctx (k ∷ ks) w m h in
        elim (Result-cases (x.sessions.mget ctx (k ∷ ks) w).0) [
          | inl (values, got) ↦ rw got (
              (remove_missing-Since ctx account_id (k ∷ ks)
                  (Sessions.collect_exists values [])).after
                w' h')
          | inr (e, failed) ↦ rw failed h'
        ];
    value = λ w r h e. tt;
  }

  settled-Since :
      (ctx : x.Ctx) (r : Outcome (List String × Option GoError)) (w : x.World)
      → Since keys b h0 w
      → let t : Outcome (List String × Option GoError) × x.World = elim r [
        | done (kept, e) ↦
            let w' = log_error "sessions repository error occurred" e "removeNonexistantKeys" w in
            let e' = handle_error ctx w' e in
            (done (kept, e'), update_metrics e' "removeNonexistantKeys" w')
        | fail e ↦ (fail e, w)
        | panic ↦ (panic, w)
      ] in
        Since keys b h0 t.1
  settled-Since ctx (done (kept, e)) w h =
      update_metrics-Since keys b h0 _ "removeNonexistantKeys" _ (
        log_error-Since keys b h0 "sessions repository error occurred" e "removeNonexistantKeys" w
          h)
  settled-Since ctx (fail e) w h = h
  settled-Since ctx panic w h = h

  remove_nonexistant_keys-Since :
      (ctx : x.Ctx) (account_id : String) (ids : List String)
      → Keeps (Since keys b h0) (Sessions.remove_nonexistant_keys ctx account_id ids) Any
  unfolding Sessions.remove_nonexistant_keys
  remove_nonexistant_keys-Since ctx account_id ids = record {
    after = λ w h.
        let (r, w') = Sessions.remove_stale ctx account_id ids w in
        settled-Since ctx r w' ((remove_stale-Since ctx account_id ids).after w h);
    value = λ w r h e. tt;
  }

  delete_sessions-Since :
      (ctx : x.Ctx) (account_id : String) (ids : List String)
      → Keeps (Since keys b h0) (Sessions.delete_sessions ctx account_id ids) Any
  unfolding Sessions.delete_sessions
  delete_sessions-Since ctx account_id [] = Keeps-pure _ tt
  delete_sessions-Since ctx account_id (id ∷ ids) =
      let srem = srem_command (Sessions.account_key account_id) (id ∷ ids) in
      Keeps-then _ _ (Keeps-check (x.sessions.queue ctx srem))
        (exec-Since keys b h0 ctx (del_command (id ∷ ids) ∷ srem ∷ []) (tt, (tt, tt)))

  pub terminate_sessions-Since :
      (ctx : x.Ctx) (ids : List String) (account_id : String)
      → Keeps (Since keys b h0) (Sessions.terminate_sessions ctx ids account_id) Any
  unfolding Sessions.terminate_sessions Sessions.terminate_body
  terminate_sessions-Since ctx [] account_id =
      with_defers-Since keys b h0 ctx "TerminateSessions" _
        (Keeps-throw (error ErrorCode.invalid_argument "invalid sessions ids, it mustn't be empty"))
  terminate_sessions-Since ctx (id ∷ ids) account_id =
      with_defers-Since keys b h0 ctx "TerminateSessions" _ (
        Keeps-bind _ _ (remove_nonexistant_keys-Since ctx account_id (id ∷ ids))
          (λ kept _. delete_sessions-Since ctx account_id kept.0))

  delete_all-Since :
      (ctx : x.Ctx) (list_key : String) (ids : List String)
      → Keeps (Since keys b h0) (Sessions.delete_all ctx list_key ids) Any
  unfolding Sessions.delete_all
  delete_all-Since ctx list_key ids =
      Keeps-then _ _ (Keeps-check (x.sessions.queue ctx (del_command ids))) (
        Keeps-then _ _ (Keeps-check (x.sessions.queue ctx (del_command (list_key ∷ [])))) (
          exec-Since keys b h0 ctx (del_command ids ∷ del_command (list_key ∷ []) ∷ [])
            (tt, (tt, tt))))

  after_smembers-Since :
      (ctx : x.Ctx) (list_key : String) (res : Result (List String))
      → Keeps (Since keys b h0) (Sessions.after_smembers ctx list_key res) Any
  unfolding Sessions.after_smembers
  after_smembers-Since ctx list_key (err e) = Keeps-pure tt tt
  after_smembers-Since ctx list_key (ok []) = Keeps-pure tt tt
  after_smembers-Since ctx list_key (ok (id ∷ ids)) = delete_all-Since ctx list_key (id ∷ ids)

  terminate_all_body-Since :
      (ctx : x.Ctx) (account_id : String)
      → Keeps (Since keys b h0) (Sessions.terminate_all_body ctx account_id) Any
  unfolding Sessions.terminate_all_body
  terminate_all_body-Since ctx account_id = record {
    after = λ w h.
        let list_key = Sessions.account_key account_id in
        let (res, w') = x.sessions.smembers ctx list_key w in
        (after_smembers-Since ctx list_key res).after w'
          (b.database.keys-smembers ctx list_key w m h);
    value = λ w r h e. tt;
  }

  pub terminate_all_sessions-Since :
      (ctx : x.Ctx) (account_id : String)
      → Keeps (Since keys b h0) (Sessions.terminate_all_sessions ctx account_id) Any
  unfolding Sessions.terminate_all_sessions
  terminate_all_sessions-Since ctx account_id =
      with_defers-Since keys b h0 ctx "TerminateAllSessions" _
        (terminate_all_body-Since ctx account_id)
