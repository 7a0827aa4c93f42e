-- ===== src/Redis/Sessions.antt =====
-- internal/repository/redisrepository/sessionsRepository.go: the sessions, each under its id, and
-- for each account the set of its session ids. The proofs are in the children.
pub mod Store
pub mod Members
pub mod Terminate
pub mod TerminateAll
pub mod Stale
use accounts_service.Prelude.{
  ℕ, ◌-◌, String, ◌<>◌, Bool, true, false, Option, none, some, List, [], ◌∷◌, ◌++◌, length,
  replicate, contains, ltb, num_eq, ◌==◌, if◌then◌else◌,
}
use accounts_service.Models.{Session, SessionInfo}
use accounts_service.Models.Errors.{GoError, ErrorCode, error, redis_nil}
use accounts_service.External.{External}
use accounts_service.External.Redis.{
  RedisClient, Command, set_command, sadd_command, expire_command, del_command, srem_command,
}
use accounts_service.Effect.{
  Result, ok, err, M, Outcome, done, fail, panic, pure, throw, call, from_result, check, ◌>>=◌,
  ◌>>◌,
}
use accounts_service.Logs.{log_error, log_sessions_error}
use accounts_service.Redis.Handling.{handle_error, update_metrics, with_defers}

-- `getKeyForAccountSessionsList`
unfoldable pub account_key : String → String
account_key account_id = "account_" <> account_id

-- The set `exists` of `removeNonexistantKeys`: the distinct values that `MGET` gave. The Go map's
-- keys come in no fixed order; here the last new one is first.
abbrev pub collect_exists : List (Option String) → List String → List String
collect_exists [] seen = seen
collect_exists (none ∷ res) seen = collect_exists res seen
collect_exists (some v ∷ res) seen = collect_exists res (if contains seen v then seen else v ∷ seen)

-- The loop that appends to `toRemove` the keys that are not in `exists`.
abbrev pub missing_keys : List String → List String → List String
missing_keys [] present = []
missing_keys (k ∷ keys) present =
    let rest = missing_keys keys present in if contains present k then rest else k ∷ rest

-- An assignment to the map of `GetSessionsForAccount`.
abbrev pub insert_info :
    String → SessionInfo → List (String × SessionInfo) → List (String × SessionInfo)
insert_info k v [] = (k, v) ∷ []
insert_info k v ((j, u) ∷ m) = if j == k then (k, v) ∷ m else (j, u) ∷ insert_info k v m

abbrev pub info_of : Session → SessionInfo
info_of s = record {
  client_ip = s.client_ip;
  machine_id = s.machine_id;
  last_activity = s.last_activity;
}

module _ ⦃x : External⦄ where
  -- `removeNonexistantKeys` once the values that are no keys have been counted: if there are
  -- any, the keys that are not in `exists` leave the account's set. A negative length panics.
  unfoldable pub remove_missing :
      x.Ctx → String → List String → List String → M x.World (List String × Option GoError)
  remove_missing ctx account_id keys present w =
      if ltb (length keys) (length present)
      then (panic, w)
      else if num_eq (length keys - length present) 0
      then (done (keys, none), w)
      else (let (removed, w') =
            x.sessions.srem ctx (account_key account_id)
              (replicate (length keys - length present) "" ++ missing_keys keys present) w in
          elim removed [ err e ↦ (done ([], some e), w') | ok _ ↦ (done (present, none), w') ])

  -- `removeNonexistantKeys` on what `MGET` gave.
  unfoldable pub after_mget :
      x.Ctx
      → String
      → List String
      → Result (List (Option String))
      → M x.World (List String × Option GoError)
  unfolding remove_missing
  after_mget ctx account_id keys (err e) w = (done ([], some e), w)
  after_mget ctx account_id keys (ok values) w =
      remove_missing ctx account_id keys (collect_exists values []) w

  -- The body of `removeNonexistantKeys` gives the keys and the error.
  unfoldable pub remove_stale :
      x.Ctx → String → List String → M x.World (List String × Option GoError)
  unfolding after_mget
  remove_stale ctx account_id [] w = (done ([], none), w)
  remove_stale ctx account_id (k ∷ ks) w =
      let (res, w') = x.sessions.mget ctx (k ∷ ks) w in after_mget ctx account_id (k ∷ ks) res w'

  -- `removeNonexistantKeys`, with its deferred calls.
  unfoldable pub remove_nonexistant_keys :
      x.Ctx → String → List String → M x.World (List String × Option GoError)
  unfolding remove_stale handle_error update_metrics log_error
  remove_nonexistant_keys ctx account_id keys w =
      let (r, ended) = remove_stale ctx account_id keys w in
      elim r [
        | done (kept, e) ↦
            let w' = log_sessions_error e "removeNonexistantKeys" ended in
            let e' = handle_error ctx w' e in
            (done (kept, e'), update_metrics e' "removeNonexistantKeys" w')
        | fail e ↦ (fail e, ended)
        | panic ↦ (panic, ended)
      ]

  -- The rest of `SetSession`, once the session is marshalled.
  unfoldable pub queue_session : x.Ctx → Session → ℕ → String → M x.World (Unit {0})
  unfolding account_key
  queue_session ctx session ttl serialized = do
    let set = set_command session.session_id serialized ttl
    check (x.sessions.queue ctx set)
    let list_key = account_key session.account_id
    let sadd = sadd_command list_key session.session_id
    check (x.sessions.queue ctx sadd)
    let expire = expire_command list_key ttl
    check (x.sessions.queue ctx expire)
    call (x.sessions.exec ctx (set ∷ sadd ∷ expire ∷ []))

  -- `SetSession`
  unfoldable pub set_session : x.Ctx → Session → ℕ → M x.World (Unit {0})
  unfolding with_defers queue_session
  set_session ctx session ttl =
      with_defers ctx "SetSession"
        (from_result (x.json.marshal_session session) >>= queue_session ctx session ttl)

  -- The rest of `TerminateSessions`, on the ids that `removeNonexistantKeys` gave.
  unfoldable pub delete_sessions : x.Ctx → String → List String → M x.World (Unit {0})
  delete_sessions ctx account_id [] = pure tt
  delete_sessions ctx account_id (id ∷ ids) = do
    let srem = srem_command (account_key account_id) (id ∷ ids)
    check (x.sessions.queue ctx srem)
    call (x.sessions.exec ctx (del_command (id ∷ ids) ∷ srem ∷ []))

  -- The body of `TerminateSessions`. The error of `removeNonexistantKeys` is overwritten.
  unfoldable pub terminate_body : x.Ctx → List String → String → M x.World (Unit {0})
  unfolding remove_nonexistant_keys delete_sessions account_key
  terminate_body ctx [] account_id =
      throw (error ErrorCode.invalid_argument "invalid sessions ids, it mustn't be empty")
  terminate_body ctx (id ∷ ids) account_id =
      remove_nonexistant_keys ctx account_id (id ∷ ids) >>= λ kept.
      delete_sessions ctx account_id kept.0

  -- `TerminateSessions`
  unfoldable pub terminate_sessions : x.Ctx → List String → String → M x.World (Unit {0})
  unfolding with_defers terminate_body
  terminate_sessions ctx ids account_id =
      with_defers ctx "TerminateSessions" (terminate_body ctx ids account_id)

  -- `GetSession`
  unfoldable pub get_session : x.Ctx → String → M x.World Session
  unfolding with_defers
  get_session ctx session_id =
      with_defers ctx "GetSession"
        do body ← call (x.sessions.get ctx session_id); from_result (x.json.unmarshal_session body)

  -- `UpdateLastActivityForSession`
  unfoldable pub update_last_activity : x.Ctx → Session → ℕ → ℕ → M x.World (Unit {0})
  unfolding with_defers set_session
  update_last_activity ctx session time ttl =
      with_defers ctx "UpdateLastActivityForSession"
        (set_session ctx (record session { last_activity = time }) ttl)

  -- The body of `GetSessionsIds` gives the ids and the error.
  unfoldable get_ids_body : x.Ctx → String → M x.World (List String × Option GoError)
  unfolding remove_nonexistant_keys account_key
  get_ids_body ctx account_id w =
      let (res, w') = x.sessions.smembers ctx (account_key account_id) w in
      elim res [
        | err e ↦ (done ([], some e), w')
        | ok [] ↦ (done ([], none), w')
        | ok (id ∷ ids) ↦ remove_nonexistant_keys ctx account_id (id ∷ ids) w'
      ]

  -- `GetSessionsIds`
  unfoldable pub get_sessions_ids : x.Ctx → String → M x.World (List String)
  unfolding with_defers get_ids_body
  get_sessions_ids ctx account_id =
      with_defers ctx "GetSessionsIds"
        do found ← get_ids_body ctx account_id; check found.1; pure found.0

  -- The loop of `GetSessionsForAccount` over the values that `MGET` gave.
  unfoldable pub collect_sessions :
      List (Option String) → List (String × SessionInfo) → Result (List (String × SessionInfo))
  collect_sessions [] acc = ok acc
  collect_sessions (none ∷ res) acc = collect_sessions res acc
  collect_sessions (some v ∷ res) acc = elim (x.json.unmarshal_session v) [
    | err e ↦ err e
    | ok s ↦ collect_sessions res (insert_info s.session_id (info_of s) acc)
  ]

  -- `GetSessionsForAccount`
  unfoldable pub get_sessions_for_account : x.Ctx → String → M x.World (List (String × SessionInfo))
  unfolding with_defers account_key collect_sessions
  get_sessions_for_account ctx account_id = with_defers ctx "GetSessionsForAccount" do
    ids ← call (x.sessions.smembers ctx (account_key account_id))
    values ← call (x.sessions.mget ctx ids)
    from_result (collect_sessions values [])

  -- The rest of `TerminateAllSessions`, once there are ids.
  unfoldable pub delete_all : x.Ctx → String → List String → M x.World (Unit {0})
  delete_all ctx list_key ids = do
    check (x.sessions.queue ctx (del_command ids))
    check (x.sessions.queue ctx (del_command (list_key ∷ [])))
    call (x.sessions.exec ctx (del_command ids ∷ del_command (list_key ∷ []) ∷ []))

  -- `TerminateAllSessions` on what `SMEMBERS` gave. An error of `SMEMBERS` leaves no ids, so it
  -- ends as if the account had no sessions.
  unfoldable pub after_smembers : x.Ctx → String → Result (List String) → M x.World (Unit {0})
  unfolding delete_all
  after_smembers ctx list_key (err e) w = (done tt, w)
  after_smembers ctx list_key (ok []) w = (done tt, w)
  after_smembers ctx list_key (ok (id ∷ ids)) w = delete_all ctx list_key (id ∷ ids) w

  -- The body of `TerminateAllSessions`.
  unfoldable pub terminate_all_body : x.Ctx → String → M x.World (Unit {0})
  unfolding account_key after_smembers
  terminate_all_body ctx account_id w =
      let list_key = account_key account_id in
      let (res, w') = x.sessions.smembers ctx list_key w in after_smembers ctx list_key res w'

  -- `TerminateAllSessions`
  unfoldable pub terminate_all_sessions : x.Ctx → String → M x.World (Unit {0})
  unfolding with_defers terminate_all_body
  terminate_all_sessions ctx account_id =
      with_defers ctx "TerminateAllSessions" (terminate_all_body ctx account_id)
