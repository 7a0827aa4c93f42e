-- ===== src/System/Listing.antt =====
-- internal/service/service.go `GetAllSessions`: which sessions it lists, in every state that the
-- service reaches.
use accounts_service.Prelude.{
  String, true, Option, none, some, List, [], ◌∷◌, map, contains, ◌==◌, ◌≡◌, ◌≢◌, refl,
  if◌then◌else◌, eq_iff, arith, inl, inr, ◌⊎◌, eq_refl,
}
use accounts_service.Models.{Session, SessionInfo}
use accounts_service.Models.Errors.{ErrorCode, error, other_error}
use accounts_service.External.{External}
use accounts_service.External.Redis.{Keys, text_of, members_of}
use accounts_service.Effect.{ok, err, done, fail}
use accounts_service.Redis.Sessions as Repository
use accounts_service.Redis.Sessions.{account_key, collect_sessions, insert_info, info_of}
use accounts_service.Redis.Sessions.Store.{IsStore, get_session_found}
use accounts_service.Config.{Config}
use accounts_service.Service.Process.{Process}
use accounts_service.Service.Sessions
use accounts_service.Service.Lifecycle.{check_and_update_found}
use accounts_service.System.Backend.{IsBackend}
use accounts_service.System.Server.{IsReached}
use accounts_service.System.Reached.{reached-IsSound}
use accounts_service.System.Keys.{IsWellKeyed, text_of-text}

Option-cases : {A : Type 0} (o : Option A) → ((a : A) × (o ≡ some a)) ⊎ (o ≡ none)
Option-cases none = inr refl
Option-cases (some a) = inl (a, refl)

-- What the response says of an id.
abbrev pub info_under : String → List (String × SessionInfo) → Option SessionInfo
info_under j [] = none
info_under j ((k, v) ∷ m) = let rest = info_under j m in if k == j then some v else rest

info_under-insert_info :
    (j k : String) (v : SessionInfo) (m : List (String × SessionInfo))
    → info_under j (insert_info k v m) ≡ (if k == j then some v else info_under j m)
info_under-insert_info j k v [] = refl
info_under-insert_info j k v ((i, u) ∷ m) =
    ground (arith, info_under-insert_info j k v m, eq_iff i k, eq_iff i j, eq_iff k j)

module _ ⦃x : External⦄ where
  -- What is stored under an id, as the response shows it.
  abbrev pub shown : Keys → String → Option SessionInfo
  shown m id = elim (text_of (m id)) [
    | none ↦ none
    | some v ↦ elim (x.json.unmarshal_session v) [ err e ↦ none | ok s ↦ some (info_of s) ]
  ]

  -- Every listed text is a session.
  abbrev pub AllDecode : Keys → List String → Type 0
  AllDecode m ids =
      (id v : String)
      → contains ids id ≡ true
      → text_of (m id) ≡ some v
      → (s : Session) × (x.json.unmarshal_session v ≡ ok s)

  abbrev or_else : Option SessionInfo → Option SessionInfo → Option SessionInfo
  or_else none o = o
  or_else (some v) o = some v

  shown-text :
      (m : Keys) (id v : String) (s : Session)
      → text_of (m id) ≡ some v
      → x.json.unmarshal_session v ≡ ok s
      → shown m id ≡ some (info_of s)
  shown-text m id v s found decoded = ground arith

  collect_sessions_lem :
      (m : Keys) (ids : List String) (acc : List (String × SessionInfo))
      → IsWellKeyed m
      → AllDecode m ids
      → (r : List (String × SessionInfo)) × (collect_sessions (map (λ k. text_of (m k)) ids) acc
          ≡ ok r)
        × ((j : String)
            → info_under j r ≡ (
                if contains ids j
                then or_else (shown m j) (info_under j acc)
                else info_under j acc))
  unfolding collect_sessions
  collect_sessions_lem m [] acc h all = (acc, refl, λ j. refl)
  collect_sessions_lem m (id ∷ ids) acc h all =
      let rest : AllDecode m ids = λ k v listed. all k v (ground arith) in
      let self : contains (id ∷ ids) id ≡ true = ground (arith, eq_refl id) in
      elim (Option-cases (text_of (m id))) [
        | inr missing ↦
            let (r, ran, looks) = collect_sessions_lem m ids acc h rest in
            (r, ground arith, λ j. ground (arith, looks j, eq_iff j id))
        | inl (v, found) ↦
            let (s, decoded) = all id v self found in
            let named = (h.fits id).body v (text_of-text (m id) v found) s decoded in
            let seen = shown-text m id v s found decoded in
            let (r, ran, looks) =
              collect_sessions_lem m ids (insert_info s.session_id (info_of s) acc) h rest in
            (
              r,
              ground arith,
              λ j.
                  let put = info_under-insert_info j s.session_id (info_of s) acc in
                  ground (arith, looks j, eq_iff j id, eq_iff s.session_id j),
            )
      ]

module _ ⦃x : External⦄ (ctx : x.Ctx) (keys : x.World → Keys) (store : IsStore ctx keys) where
  get_sessions_for_account_lem :
      (account_id : String) (w : x.World)
      → let ids = members_of (keys w (account_key account_id)) in
        IsWellKeyed (keys w)
        → ids ≢ []
        → AllDecode (keys w) ids
        → (r : List (String × SessionInfo)) × ((Repository.get_sessions_for_account ctx account_id
              w).0
            ≡ done r)
          × ((j : String) → info_under j r ≡ (if contains ids j then shown (keys w) j else none))
  unfolding Repository.get_sessions_for_account
  get_sessions_for_account_lem account_id w h some_id all =
      let list_key = account_key account_id in
      let ids = members_of (keys w list_key) in
      let listed =
        store.reachable.smembers_lem list_key w ((h.fits list_key).set account_id refl) in
      let same = store.reachable.keys-smembers list_key w in
      let w1 = (x.sessions.smembers ctx list_key w).1 in
      let got = store.reachable.mget_lem ids w1 some_id in
      let w2 = (x.sessions.mget ctx ids w1).1 in
      let alive = store.live w2 in
      let (r, ran, looks) = collect_sessions_lem (keys w) ids [] h all in
      let ran1 : collect_sessions (map (λ k. text_of (keys w1 k)) ids) [] ≡ ok r = rw same ran in
      (r, ground arith, λ j. ground (arith, looks j))

  get_sessions_for_account-no_ids :
      (account_id msg : String) (w : x.World)
      → IsWellKeyed (keys w)
      → members_of (keys w (account_key account_id)) ≡ []
      → ((w' : x.World) → (x.sessions.mget ctx [] w').0 ≡ err (other_error msg))
      → (Repository.get_sessions_for_account ctx account_id w).0
        ≡ fail (error ErrorCode.internal "cache internal error")
  unfolding Repository.get_sessions_for_account
  get_sessions_for_account-no_ids account_id msg w h empty refused =
      let list_key = account_key account_id in
      let listed =
        store.reachable.smembers_lem list_key w ((h.fits list_key).set account_id refl) in
      let w1 = (x.sessions.smembers ctx list_key w).1 in
      let got = refused w1 in
      let w2 =
        x.log "sessions repository error occurred" "GetSessionsForAccount" msg none
          (x.sessions.mget ctx [] w1).1 in
      let alive = store.live w2 in ground arith

module _ ⦃x : External⦄ (keys : x.World → Keys) (b : IsBackend keys) (global : Config) where
  -- In every state that the service reaches, over a reachable server, `GetAllSessions` of a
  -- session that is stored lists, under their ids, exactly the sessions that are stored under the
  -- ids of the account's set. Assumed: that set is not empty,
  -- and every text under its ids is a session.
  pub get_all_sessions_lists :
      (ctx : x.Ctx) (session : Session) (id body : String) (p : Process)
      → IsReached keys global p
      → IsStore ctx keys
      → text_of (keys p.world id) ≡ some body
      → x.json.unmarshal_session body ≡ ok session
      → let ids = members_of (keys p.world (account_key session.account_id)) in
        ids ≢ []
        → AllDecode (keys p.world) ids
        → (r : List (String × SessionInfo)) × ((Sessions.get_all_sessions ctx id session.machine_id
              p).0
            ≡ done r)
          × ((j : String)
              → info_under j r ≡ (if contains ids j then shown (keys p.world) j else none))
  unfolding Sessions.get_all_sessions
  get_all_sessions_lists ctx session id body p reached store found decoded some_id all =
      let h = (reached-IsSound keys b global p reached).keyed in
      let checked = check_and_update_found ctx keys store session id p (body, found, decoded) in
      let (got, kept) = get_session_found ctx keys store id body session p.world found decoded in
      let w = (Repository.get_session ctx id p.world).1 in
      let (r, ran, looks) =
        get_sessions_for_account_lem ctx keys store session.account_id w (rw kept h)
          (rw kept some_id) (rw kept all) in
      (r, ground arith, λ j. rw (← kept) (looks j))

  -- In every state that the service reaches, over a reachable server that refuses `MGET` without
  -- keys, `GetAllSessions` of a session that is stored fails with an internal error if the
  -- account's set is empty.
  pub get_all_sessions-no_ids :
      (ctx : x.Ctx) (session : Session) (id body msg : String) (p : Process)
      → IsReached keys global p
      → IsStore ctx keys
      → ((w : x.World) → (x.sessions.mget ctx [] w).0 ≡ err (other_error msg))
      → text_of (keys p.world id) ≡ some body
      → x.json.unmarshal_session body ≡ ok session
      → members_of (keys p.world (account_key session.account_id)) ≡ []
      → (Sessions.get_all_sessions ctx id session.machine_id p).0
        ≡ fail (error ErrorCode.internal "cache internal error")
  unfolding Sessions.get_all_sessions
  get_all_sessions-no_ids ctx session id body msg p reached store refused found decoded empty =
      let h = (reached-IsSound keys b global p reached).keyed in
      let checked = check_and_update_found ctx keys store session id p (body, found, decoded) in
      let (got, kept) = get_session_found ctx keys store id body session p.world found decoded in
      let w = (Repository.get_session ctx id p.world).1 in
      let failed =
        get_sessions_for_account-no_ids ctx keys store session.account_id msg w (rw kept h)
          (rw kept empty) refused in
      ground arith
