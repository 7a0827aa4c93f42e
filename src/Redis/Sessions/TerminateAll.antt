-- ===== src/Redis/Sessions/TerminateAll.antt =====
-- `TerminateAllSessions`.
use accounts_service.Prelude.{
  String, true, false, ◌≡◌, ◌≢◌, refl, none, List, [], ◌∷◌, contains, eq_iff, eq_refl, arith,
}
use accounts_service.Models.Errors.{GoError}
use accounts_service.External.{External}
use accounts_service.External.Redis.{Keys, members_of, accepts_key, run_commands, del_command}
use accounts_service.Effect.{err, done}
use accounts_service.Redis.Sessions
use accounts_service.Redis.Sessions.Store.{IsStore}

module _ ⦃x : External⦄ (ctx : x.Ctx) (keys : x.World → Keys) (store : IsStore ctx keys) where
  delete_all_runs :
      (list_key : String) (ids : List String) (w : x.World)
      → ((Sessions.delete_all ctx list_key ids w).0 ≡ done tt)
        × (keys (Sessions.delete_all ctx list_key ids w).1
            ≡ run_commands (del_command ids ∷ del_command (list_key ∷ []) ∷ []) (keys w))
  unfolding Sessions.delete_all
  delete_all_runs list_key ids w =
      let cs = del_command ids ∷ del_command (list_key ∷ []) ∷ [] in
      let q1 = store.reachable.queue_lem (del_command ids) in
      let q2 = store.reachable.queue_lem (del_command (list_key ∷ [])) in
      let ran = store.reachable.exec_lem cs w refl in
      let after = store.reachable.keys-exec cs w in (ground arith, ground arith)

  -- With the members of the account's set at hand.
  body_lem :
      (account_id : String) (ids : List String) (w : x.World)
      → let list_key = Sessions.account_key account_id in
        accepts_key (keys w list_key) ≡ true
        → members_of (keys w list_key) ≡ ids
        → let after = keys (Sessions.terminate_all_body ctx account_id w).1 in
          ((Sessions.terminate_all_body ctx account_id w).0 ≡ done tt)
          × ((j : String) → contains ids j ≡ true → after j ≡ none)
          × (members_of (after list_key) ≡ [])
          × ((j : String) → contains ids j ≡ false → j ≢ list_key → after j ≡ keys w j)
  unfolding Sessions.terminate_all_body
  body_lem account_id [] w accepted found =
      let list_key = Sessions.account_key account_id in
      let got = store.reachable.smembers_lem list_key w accepted in
      let same = store.reachable.keys-smembers list_key w in
      (ground arith, λ j listed. cc, ground arith, λ j absent other. ground arith)
  body_lem account_id (id ∷ ids) w accepted found =
      let list_key = Sessions.account_key account_id in
      let got = store.reachable.smembers_lem list_key w accepted in
      let same = store.reachable.keys-smembers list_key w in
      let w' = (x.sessions.smembers ctx list_key w).1 in
      let (ended, after) = delete_all_runs list_key (id ∷ ids) w' in
      (
        ground arith,
        λ j listed. ground arith,
        ground (arith, eq_refl list_key),
        λ j absent other. ground (arith, eq_iff j list_key),
      )

  -- `TerminateAllSessions` deletes every session of the account's set and the set itself, and
  -- changes no other key. The account's key holds no text.
  pub terminate_all_sessions_lem :
      (account_id : String) (w : x.World)
      → let list_key = Sessions.account_key account_id in
        accepts_key (keys w list_key) ≡ true
        → let ids = members_of (keys w list_key) in
          let after = keys (Sessions.terminate_all_sessions ctx account_id w).1 in
          ((Sessions.terminate_all_sessions ctx account_id w).0 ≡ done tt)
          × ((j : String) → contains ids j ≡ true → after j ≡ none)
          × (members_of (after list_key) ≡ [])
          × ((j : String) → contains ids j ≡ false → j ≢ list_key → after j ≡ keys w j)
  unfolding Sessions.terminate_all_sessions
  terminate_all_sessions_lem account_id w accepted =
      let ids = members_of (keys w (Sessions.account_key account_id)) in
      let (ended, gone, emptied, others) = body_lem account_id ids w accepted refl in
      let w' = (Sessions.terminate_all_body ctx account_id w).1 in
      let alive = store.live w' in
      let hits = store.keys-hits "TerminateAllSessions" w' in
      (
        ground arith,
        λ j listed. ground (arith, gone j listed),
        ground arith,
        λ j absent other. ground (arith, others j absent other),
      )

module _ ⦃x : External⦄ where
  -- If `SMEMBERS` fails and the context is live, `TerminateAllSessions` reports success, and has
  -- run no other command.
  pub terminate_all_sessions-smembers_error :
      (ctx : x.Ctx) (account_id : String) (e : GoError) (w : x.World)
      → let (res, w') = x.sessions.smembers ctx (Sessions.account_key account_id) w in
        res ≡ err e
        → x.ctx_err ctx w' ≡ none
        → Sessions.terminate_all_sessions ctx account_id w
          ≡ (done tt, x.inc_cache_hits "TerminateAllSessions" w')
  unfolding Sessions.terminate_all_sessions
  terminate_all_sessions-smembers_error ctx account_id e w failed alive = ground arith
