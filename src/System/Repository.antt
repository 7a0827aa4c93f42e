-- ===== src/System/Repository.antt =====
-- internal/repository/redisrepository/sessionsRepository.go: finding, storing and listing sessions,
-- and what this leaves in the sessions database, whichever calls fail and whatever others do
-- meanwhile.
use accounts_service.Prelude.{ℕ, String, Option, List, [], ◌∷◌, ◌≡◌, refl, arith}
use accounts_service.Models.{Session}
use accounts_service.Models.Errors.{GoError}
use accounts_service.External.{External}
use accounts_service.External.Redis.{Command, set_command, sadd_command, expire_command, Keys}
use accounts_service.Effect.{ok, M, call, from_result, ◌>>=◌}
use accounts_service.Logs.{log_error}
use accounts_service.Redis.Handling.{update_metrics, with_defers}
use accounts_service.Redis.Sessions
use accounts_service.System.Keeps.{
  Keeps, Any, Keeps-call, Keeps-run, Keeps-from_result, Keeps-check, Keeps-bind, Keeps-then,
}
use accounts_service.System.Keys.{IsSessionId, IsBody, IsWellKeyed, IsSessionId-stored, AllExpected}
use accounts_service.System.Interference.{
  Interferes, Interferes-trans, Interferes-IsWellKeyed, Runs-Interferes,
}
use accounts_service.System.Backend.{IsBackend}

module _ ⦃x : External⦄ (keys : x.World → Keys) (b : IsBackend keys) {m : Keys}
    (h0 : IsWellKeyed m) where
  -- What others and the service itself have done to the sessions database since `m`.
  abbrev pub Since : x.World → Type 0
  Since w = Interferes m (keys w)

  pub update_metrics-Since :
      (e : Option GoError) (method : String) (w : x.World)
      → Since w
      → Since (update_metrics e method w)
  unfolding update_metrics
  update_metrics-Since e method w h =
      ground (arith, h, b.separate.keys-hits method w m, b.separate.keys-miss method w m)

  pub log_error-Since :
      (text : String) (e : Option GoError) (method : String) (w : x.World)
      → Since w
      → Since (log_error text e method w)
  unfolding log_error
  log_error-Since text e method w h = grind (arith, h, b.separate.keys-log)

  pub with_defers-Since :
      {A : Type 0} (ctx : x.Ctx) (method : String) (m : M x.World A) {Q : A → Type 0}
      → Keeps Since m Q
      → Keeps Since (with_defers ctx method m) Q
  unfolding with_defers
  with_defers-Since ctx method m k = record {
    after = λ w h.
        update_metrics-Since _ method _
          (log_error-Since "sessions repository error occurred" _ method (m w).1 (k.after w h));
    value = λ w a h e. k.value w a h (ground arith);
  }

  -- A pipeline runs up to some command.
  pub exec-Since :
      (ctx : x.Ctx) (cs : List Command)
      → AllExpected cs
      → Keeps Since (call (x.sessions.exec ctx cs)) Any
  exec-Since ctx cs all =
      Keeps-run (x.sessions.exec ctx cs)
        (λ w h. Runs-Interferes cs m (keys w) _ h (b.database.runs-exec ctx cs w) all)

  -- A session that was found has the id of a session.
  pub get_session-Since :
      (ctx : x.Ctx) (id : String)
      → Keeps Since (Sessions.get_session ctx id) (λ s. IsSessionId s.session_id)
  unfolding Sessions.get_session
  get_session-Since ctx id = with_defers-Since ctx "GetSession" _ (
      Keeps-bind (call (x.sessions.get ctx id))
        (λ body. from_result (x.json.unmarshal_session body))
        {Q = λ body.
          (s : Session) → x.json.unmarshal_session body ≡ ok s → IsSessionId s.session_id}
        (Keeps-call (x.sessions.get ctx id) (λ w h. b.database.keys-get ctx id w m h)
          (λ w body h e s decoded.
            let (n, others, found) = b.database.get_sound ctx id body w e in
            let then = Interferes-trans m (keys w) n h others in
            IsSessionId-stored n id body s (Interferes-IsWellKeyed m n then h0) found decoded))
        (λ body good. Keeps-from_result (x.json.unmarshal_session body) good))

  queue_session-Since :
      (ctx : x.Ctx) (session : Session) (ttl : ℕ) (body : String)
      → IsSessionId session.session_id
      → IsBody session.session_id body
      → Keeps Since (Sessions.queue_session ctx session ttl body) Any
  unfolding Sessions.queue_session
  queue_session-Since ctx session ttl body id fits =
      let list_key = Sessions.account_key session.account_id in
      let set = set_command session.session_id body ttl in
      let sadd = sadd_command list_key session.session_id in
      let expire = expire_command list_key ttl in
      Keeps-then _ _ (Keeps-check (x.sessions.queue ctx set)) (
        Keeps-then _ _ (Keeps-check (x.sessions.queue ctx sadd)) (
          Keeps-then _ _ (Keeps-check (x.sessions.queue ctx expire)) (
            exec-Since ctx (set ∷ sadd ∷ expire ∷ [])
              ((id, fits), ((session.account_id, refl), (tt, tt))))))

  pub set_session-Since :
      (ctx : x.Ctx) (session : Session) (ttl : ℕ)
      → IsSessionId session.session_id
      → Keeps Since (Sessions.set_session ctx session ttl) Any
  unfolding Sessions.set_session
  set_session-Since ctx session ttl id = with_defers-Since ctx "SetSession" _ (
      Keeps-bind (from_result (x.json.marshal_session session))
        (Sessions.queue_session ctx session ttl) {Q = IsBody session.session_id}
        (Keeps-from_result _ (λ body encoded t decoded. b.json session t body encoded decoded))
        (λ body fits. queue_session-Since ctx session ttl body id fits))

  pub update_last_activity-Since :
      (ctx : x.Ctx) (session : Session) (time ttl : ℕ)
      → IsSessionId session.session_id
      → Keeps Since (Sessions.update_last_activity ctx session time ttl) Any
  unfolding Sessions.update_last_activity
  update_last_activity-Since ctx session time ttl id =
      with_defers-Since ctx "UpdateLastActivityForSession" _
        (set_session-Since ctx (record session { last_activity = time }) ttl id)

  pub get_sessions_for_account-Since :
      (ctx : x.Ctx) (account_id : String)
      → Keeps Since (Sessions.get_sessions_for_account ctx account_id) Any
  unfolding Sessions.get_sessions_for_account
  get_sessions_for_account-Since ctx account_id = with_defers-Since ctx "GetSessionsForAccount" _ (
      Keeps-bind (call (x.sessions.smembers ctx (Sessions.account_key account_id)))
        (λ ids. call (x.sessions.mget ctx ids) >>= λ values.
          from_result (Sessions.collect_sessions values []))
        (Keeps-run _ (λ w h. b.database.keys-smembers ctx (Sessions.account_key account_id) w m h))
        λ ids _.
          Keeps-bind (call (x.sessions.mget ctx ids))
            (λ values. from_result (Sessions.collect_sessions values []))
            (Keeps-run _ (λ w h. b.database.keys-mget ctx ids w m h))
            (λ values _. Keeps-from_result (Sessions.collect_sessions values []) (λ m e. tt)))
