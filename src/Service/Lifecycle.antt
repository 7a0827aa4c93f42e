-- ===== src/Service/Lifecycle.antt =====
-- internal/service/service.go: a session from `SignIn` to `Logout`, over a reachable Redis server.
use accounts_service.Prelude.{
  String, true, false, ◌≡◌, ◌≢◌, refl, none, some, [], ◌∷◌, ◌++◌, contains, length, eq_iff, eq_refl,
  arith,
}
use accounts_service.Models.{Account, Session, SignInDto}
use accounts_service.Models.Errors.{ErrorCode, error}
use accounts_service.External.{External}
use accounts_service.External.Redis.{Keys, text, text_of, members_of, accepts_key}
use accounts_service.Effect.{ok, done, fail}
use accounts_service.Config.{AccountsServiceConfig}
use accounts_service.Postgres
use accounts_service.Redis.Sessions as Repository
use accounts_service.Redis.Sessions.Store.{
  IsStore, get_session_found, set_session_stores, update_last_activity_stores,
}
use accounts_service.Redis.Sessions.Terminate.{
  texts_under, terminate_sessions_live, terminate_sessions_live_accepts,
}
use accounts_service.Service.Process.{Process, update_session_task, run_task}
use accounts_service.Service.Sessions

module _ ⦃x : External⦄ (ctx : x.Ctx) (keys : x.World → Keys) (store : IsStore ctx keys) where
  -- A stored session that is looked up from its machine.
  abbrev pub Stored : Session → String → x.World → Type 0
  Stored session id w =
      (body : String) × (text_of (keys w id) ≡ some body)
      × (x.json.unmarshal_session body ≡ ok session)

  check_session_found :
      (session : Session) (id machine_id : String) (p : Process)
      → Stored session id p.world
      → machine_id ≡ session.machine_id
      → ((Sessions.check_session ctx machine_id id p).0 ≡ done session)
        × (keys (Sessions.check_session ctx machine_id id p).1.world ≡ keys p.world)
        × ((Sessions.check_session ctx machine_id id p).1.tasks ≡ p.tasks)
  unfolding Sessions.check_session
  check_session_found session id machine_id p (body, found, decoded) same =
      let (got, kept) = get_session_found ctx keys store id body session p.world found decoded in
      let at = eq_iff machine_id session.machine_id in (ground arith, ground arith, ground arith)

  check_session_other :
      (session : Session) (id machine_id : String) (p : Process)
      → Stored session id p.world
      → machine_id ≢ session.machine_id
      → (Sessions.check_session ctx machine_id id p).0
        ≡ fail (error ErrorCode.unauthenticated "invalid session or machine id")
  unfolding Sessions.check_session
  check_session_other session id machine_id p (body, found, decoded) other =
      let (got, kept) = get_session_found ctx keys store id body session p.world found decoded in
      let at = eq_iff machine_id session.machine_id in ground arith

  -- A session that passes the check leaves a goroutine behind.
  pub check_and_update_found :
      (session : Session) (id : String) (p : Process)
      → Stored session id p.world
      → let w = (Repository.get_session ctx id p.world).1 in
        Sessions.check_and_update_session ctx session.machine_id id p ≡ (
          done session,
          record { world = w; tasks = p.tasks ++ (update_session_task session (x.now w) ∷ []) },
        )
  unfolding Sessions.check_and_update_session Sessions.check_session
  check_and_update_found session id p (body, found, decoded) =
      let (got, kept) = get_session_found ctx keys store id body session p.world found decoded in
      let self = eq_refl session.machine_id in ground arith

  pub get_account_id_found :
      (session : Session) (id machine_id : String) (p : Process)
      → Stored session id p.world
      → (machine_id ≡ session.machine_id
          → (Sessions.get_account_id ctx id machine_id p).0 ≡ done session.account_id)
        × (machine_id ≢ session.machine_id
            → (Sessions.get_account_id ctx id machine_id p).0
              ≡ fail (error ErrorCode.unauthenticated "invalid session or machine id"))
  unfolding Sessions.get_account_id Sessions.check_and_update_session
  get_account_id_found session id machine_id p s = (
    λ same. ground (arith, check_session_found session id machine_id p s same),
    λ other. ground (arith, check_session_other session id machine_id p s other),
  )

  -- The session that `SignIn` stores.
  abbrev pub signed_in : SignInDto → Account → x.World → Session
  signed_in dto account w =
      let (id, w') = x.new_uuid w in
      record {
        session_id = id;
        account_id = account.id;
        machine_id = dto.machine_id;
        client_ip = dto.client_ip;
        last_activity = x.now w';
      }

  -- With the right password `SignIn` gives the new session's id, and from then on
  -- `GetAccountID` gives the account's id to the machine that signed in, and refuses any other.
  -- Assumed: the account is found, the session survives JSON, and the account's key in Redis
  -- differs from the new id and holds no text.
  pub sign_in-get_account_id :
      (cfg : AccountsServiceConfig) (dto : SignInDto) (account : Account) (body : String)
      (p : Process)
      → (Postgres.get_account_by_email ctx dto.email p.world).0 ≡ done account
      → x.bcrypt.compare_hash_and_password account.password dto.password ≡ ok tt
      → let w = (Postgres.get_account_by_email ctx dto.email p.world).1 in
        let session = signed_in dto account w in
        let list_key = Repository.account_key account.id in
        x.json.marshal_session session ≡ ok body
        → x.json.unmarshal_session body ≡ ok session
        → list_key ≢ session.session_id
        → accepts_key (keys (x.new_uuid w).1 list_key) ≡ true
        → let after = (Sessions.sign_in cfg ctx dto p).1 in
          ((Sessions.sign_in cfg ctx dto p).0 ≡ done session.session_id)
          × ((Sessions.get_account_id ctx session.session_id dto.machine_id after).0
              ≡ done account.id)
          × ((machine_id : String)
              → machine_id ≢ dto.machine_id
              → (Sessions.get_account_id ctx session.session_id machine_id after).0
                ≡ fail (error ErrorCode.unauthenticated "invalid session or machine id"))
  unfolding Sessions.sign_in
  sign_in-get_account_id cfg dto account body p found matches encoded decoded apart accepted =
      let w = (Postgres.get_account_by_email ctx dto.email p.world).1 in
      let session = signed_in dto account w in
      let w1 = (x.new_uuid w).1 in
      let (ended, stored, listed, others) =
        set_session_stores ctx keys store session body cfg.session_ttl w1 encoded apart accepted in
      let after = (Sessions.sign_in cfg ctx dto p).1 in
      let final : after.world ≡ (Repository.set_session ctx session cfg.session_ttl w1).1 =
        ground arith in
      let s : Stored session session.session_id after.world =
        (body, rw (final, stored) refl, decoded) in
      (
        ground arith,
        (get_account_id_found session session.session_id dto.machine_id after s).0 refl,
        λ machine_id other.
            (get_account_id_found session session.session_id machine_id after s).1 other,
      )

  -- `TerminateSessions` of the repository on one stored session.
  pub terminate_one :
      (account_id id body : String) (w : x.World)
      → let list_key = Repository.account_key account_id in
        text_of (keys w id) ≡ some body
        → accepts_key (keys w list_key) ≡ true
        → list_key ≢ id
        → let ended = Repository.terminate_sessions ctx (id ∷ []) account_id w in
          let after = keys ended.1 in
          (ended.0 ≡ done tt)
          × (after id ≡ none)
          × (contains (members_of (after list_key)) id ≡ false)
          × ((j : String) → j ≢ id → j ≢ list_key → after j ≡ keys w j)
          × (accepts_key (after list_key) ≡ true)
  terminate_one account_id id body w found accepted apart =
      let list_key = Repository.account_key account_id in
      let all : length (texts_under (keys w) (id ∷ [])) ≡ 1 = rw found refl in
      let unlisted : contains (id ∷ []) list_key ≡ false = ground (arith, eq_iff list_key id) in
      let (ended, gone, left, others) =
        terminate_sessions_live ctx keys store account_id id [] w all accepted unlisted in
      let self : contains (id ∷ []) id ≡ true = ground (arith, eq_refl id) in
      (
        ended,
        gone id self,
        left id self,
        λ j other not_list. others j (ground (arith, eq_iff j id)) not_list,
        terminate_sessions_live_accepts ctx keys store account_id id [] w all accepted unlisted,
      )

  -- `Logout` from the session's machine succeeds, and the session is gone, also from its
  -- account's set. Assumed: the id is not the account's key, which holds no text.
  pub logout_lem :
      (session : Session) (id body machine_id : String) (p : Process)
      → let list_key = Repository.account_key session.account_id in
        text_of (keys p.world id) ≡ some body
        → x.json.unmarshal_session body ≡ ok session
        → machine_id ≡ session.machine_id
        → accepts_key (keys p.world list_key) ≡ true
        → list_key ≢ id
        → let after = keys (Sessions.logout ctx id machine_id p).1.world in
          ((Sessions.logout ctx id machine_id p).0 ≡ done tt)
          × (after id ≡ none)
          × (contains (members_of (after list_key)) id ≡ false)
          × ((j : String) → j ≢ id → j ≢ list_key → after j ≡ keys p.world j)
  unfolding Sessions.logout
  logout_lem session id body machine_id p found decoded same accepted apart =
      let list_key = Repository.account_key session.account_id in
      let (checked, kept, tasks) =
        check_session_found session id machine_id p (body, found, decoded) same in
      let w = (Sessions.check_session ctx machine_id id p).1.world in
      let (ended, gone, left, others, ready) =
        terminate_one session.account_id id body w (rw kept found) (rw kept accepted) apart in
      (
        ground arith,
        ground arith,
        ground arith,
        λ j other not_list. ground (arith, others j other not_list),
      )

  -- The goroutine of `checkAndUpdateSession` may run after `TerminateSessions`. If the caller
  -- terminates their own session, the session is gone when `TerminateSessions` returns, the
  -- goroutine is still there, and once it runs the session is stored again.
  -- Assumed: the session is stored, the refreshed one can be marshalled, and the id is not the
  -- key of the account's set, which holds no text.
  pub terminated_session_returns :
      (cfg : AccountsServiceConfig) (session : Session) (body fresh : String) (p : Process)
      → let id = session.session_id in
        let list_key = Repository.account_key session.account_id in
        IsStore x.background keys
        → text_of (keys p.world id) ≡ some body
        → x.json.unmarshal_session body ≡ ok session
        → accepts_key (keys p.world list_key) ≡ true
        → list_key ≢ id
        → let time = x.now (Repository.get_session ctx id p.world).1 in
          x.json.marshal_session (record session { last_activity = time }) ≡ ok fresh
          → let q = (Sessions.terminate_sessions ctx id session.machine_id (id ∷ []) p).1 in
            let task = update_session_task session time in
            (keys q.world id ≡ none)
            × (q.tasks ≡ p.tasks ++ (task ∷ []))
            × (keys (run_task cfg task q.world) id ≡ some (text fresh))
  unfolding Sessions.terminate_sessions Sessions.refresh_unless_logout run_task
  terminated_session_returns cfg session body fresh p quiet found decoded accepted apart encoded =
      let id = session.session_id in
      let checked = check_and_update_found session id p (body, found, decoded) in
      let (got, kept) = get_session_found ctx keys store id body session p.world found decoded in
      let w = (Repository.get_session ctx id p.world).1 in
      let (ended, gone, left, others, ready) =
        terminate_one session.account_id id body w (rw kept found) (rw kept accepted) apart in
      let w' = (Repository.terminate_sessions ctx (id ∷ []) session.account_id w).1 in
      let stored =
        update_last_activity_stores x.background keys quiet session fresh (x.now w) cfg.session_ttl
          w' encoded apart ready in
      let self = eq_refl id in (ground arith, ground arith, ground arith)
