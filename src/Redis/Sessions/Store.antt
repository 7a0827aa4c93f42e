-- ===== src/Redis/Sessions/Store.antt =====
-- The sessions repository over a Redis server that is reachable, for a context that is not
-- cancelled: what `GetSession` and `SetSession` do.
use accounts_service.Prelude.{
  ℕ, String, Option, true, ◌≡◌, ◌≢◌, none, some, [], ◌∷◌, contains, eq_iff, arith,
}
use accounts_service.Models.{Session}
use accounts_service.Models.Errors.{ErrorCode, error, redis_nil}
use accounts_service.External.{External}
use accounts_service.External.Redis.{
  Keys, IsReachable, text, text_of, members_of, accepts_key, run_commands, set_command,
  sadd_command, expire_command,
}
use accounts_service.Effect.{ok, done, fail}
use accounts_service.Redis.Sessions

-- The server is reachable for `ctx`, which is never cancelled, and the metrics are kept elsewhere.
pub record IsStore ⦃x : External⦄ (ctx : x.Ctx) (keys : x.World → Keys) : Type 0 where
  pub reachable : IsReachable x.sessions ctx keys
  pub live : (w : x.World) → x.ctx_err ctx w ≡ none
  pub keys-log :
      (text method msg : String) (c : Option ErrorCode) (w : x.World)
      → keys (x.log text method msg c w) ≡ keys w
  pub keys-hits : (method : String) (w : x.World) → keys (x.inc_cache_hits method w) ≡ keys w
  pub keys-miss : (method : String) (w : x.World) → keys (x.inc_cache_miss method w) ≡ keys w

module _ ⦃x : External⦄ (ctx : x.Ctx) (keys : x.World → Keys) (store : IsStore ctx keys) where
  -- A session that is stored is found, and finding it changes no key.
  pub get_session_found :
      (id body : String) (session : Session) (w : x.World)
      → text_of (keys w id) ≡ some body
      → x.json.unmarshal_session body ≡ ok session
      → ((Sessions.get_session ctx id w).0 ≡ done session)
        × (keys (Sessions.get_session ctx id w).1 ≡ keys w)
  unfolding Sessions.get_session
  get_session_found id body session w found decoded =
      let got = store.reachable.get_text id body w found in
      let same = store.reachable.keys-get id w in
      let w' = (x.sessions.get ctx id w).1 in
      let alive = store.live w' in (ground arith, ground (arith, store.keys-hits "GetSession" w'))

  pub get_session_missing :
      (id : String) (w : x.World)
      → keys w id ≡ none
      → ((Sessions.get_session ctx id w).0
          ≡ fail (error ErrorCode.not_found "cache entity not found"))
        × (keys (Sessions.get_session ctx id w).1 ≡ keys w)
  unfolding Sessions.get_session
  get_session_missing id w missing =
      let got = store.reachable.get_none id w missing in
      let same = store.reachable.keys-get id w in
      let w' = (x.sessions.get ctx id w).1 in
      let logged =
        x.log "sessions repository error occurred" "GetSession" (x.foreign_text redis_nil) none
          w' in
      let quiet =
        store.keys-log "sessions repository error occurred" "GetSession" (x.foreign_text redis_nil)
          none w' in
      let alive = store.live logged in
      (ground arith, ground (arith, store.keys-miss "GetSession" logged))

  -- Storing a session runs the three queued commands, and succeeds if the account's key does
  -- not hold a text.
  set_session_runs :
      (session : Session) (body : String) (ttl : ℕ) (w : x.World)
      → x.json.marshal_session session ≡ ok body
      → let list_key = Sessions.account_key session.account_id in
        list_key ≢ session.session_id
        → accepts_key (keys w list_key) ≡ true
        → ((Sessions.set_session ctx session ttl w).0 ≡ done tt)
          × (keys (Sessions.set_session ctx session ttl w).1
              ≡ run_commands
                  (set_command session.session_id body ttl
                    ∷ sadd_command list_key session.session_id
                    ∷ expire_command list_key ttl
                    ∷ [])
                  (keys w))
  unfolding Sessions.set_session
  set_session_runs session body ttl w encoded apart accepted =
      let list_key = Sessions.account_key session.account_id in
      let set = set_command session.session_id body ttl in
      let sadd = sadd_command list_key session.session_id in
      let expire = expire_command list_key ttl in
      let cs = set ∷ sadd ∷ expire ∷ [] in
      let q1 = store.reachable.queue_lem set in
      let q2 = store.reachable.queue_lem sadd in
      let q3 = store.reachable.queue_lem expire in
      let ran =
        store.reachable.exec_lem cs w (ground (arith, eq_iff list_key session.session_id)) in
      let after = store.reachable.keys-exec cs w in
      let w' = (x.sessions.exec ctx cs w).1 in
      let alive = store.live w' in (ground arith, ground (arith, store.keys-hits "SetSession" w'))

  -- A stored session is under its id and in its account's set, and no other key changes.
  pub set_session_stores :
      (session : Session) (body : String) (ttl : ℕ) (w : x.World)
      → x.json.marshal_session session ≡ ok body
      → let list_key = Sessions.account_key session.account_id in
        list_key ≢ session.session_id
        → accepts_key (keys w list_key) ≡ true
        → let after = keys (Sessions.set_session ctx session ttl w).1 in
          ((Sessions.set_session ctx session ttl w).0 ≡ done tt)
          × (after session.session_id ≡ some (text body))
          × (contains (members_of (after list_key)) session.session_id ≡ true)
          × ((k : String) → k ≢ session.session_id → k ≢ list_key → after k ≡ keys w k)
  set_session_stores session body ttl w encoded apart accepted =
      let (ended, after) = set_session_runs session body ttl w encoded apart accepted in
      let id = session.session_id in
      let list_key = Sessions.account_key session.account_id in
      (
        ended,
        rw after (ground (arith, eq_iff list_key id, eq_iff id list_key, eq_iff id id)),
        rw after (ground (arith, eq_iff list_key id, eq_iff list_key list_key, eq_iff id id)),
        λ k other not_list. rw after (ground (arith, eq_iff k id, eq_iff k list_key)),
      )

  -- `UpdateLastActivityForSession` stores the session with the new time.
  pub update_last_activity_stores :
      (session : Session) (body : String) (time ttl : ℕ) (w : x.World)
      → x.json.marshal_session (record session { last_activity = time }) ≡ ok body
      → let list_key = Sessions.account_key session.account_id in
        list_key ≢ session.session_id
        → accepts_key (keys w list_key) ≡ true
        → keys (Sessions.update_last_activity ctx session time ttl w).1 session.session_id
          ≡ some (text body)
  unfolding Sessions.update_last_activity
  update_last_activity_stores session body time ttl w encoded apart accepted =
      let fresh = record session { last_activity = time } in
      let (ended, stored, listed, others) =
        set_session_stores fresh body ttl w encoded apart accepted in
      let w' = (Sessions.set_session ctx fresh ttl w).1 in
      let alive = store.live w' in
      let hits = store.keys-hits "UpdateLastActivityForSession" w' in ground arith
