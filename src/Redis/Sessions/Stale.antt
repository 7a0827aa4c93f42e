-- ===== src/Redis/Sessions/Stale.antt =====
-- What `TerminateSessions` does when one of the listed sessions is missing: it takes the session
-- texts for keys.
use accounts_service.Prelude.{
  String, true, false, ◌≡◌, ◌≢◌, List, [], ◌∷◌, none, length, replicate, contains, ◌-◌, eq_iff,
  eq_refl, arith,
}
use accounts_service.External.{External}
use accounts_service.External.Redis.{
  Keys, members_of, accepts_key, run_command, run_commands, srem_command, remove_members,
}
use accounts_service.Effect.{done}
use accounts_service.Redis.Sessions
use accounts_service.Redis.Sessions.Store.{IsStore}
use accounts_service.Redis.Sessions.Members.{
  contains-append, contains-missing_keys, contains-remove_members, accepts_key-remove_members,
}
use accounts_service.Redis.Sessions.Terminate.{
  texts_under, dropped, cleanup, remove_stale_partial, terminate_sessions_runs,
}

contains-dropped :
    (ids present : List String) (j : String)
    → contains ids j ≡ true
    → contains present j ≡ false
    → contains (dropped ids present) j ≡ true
contains-dropped ids present j listed absent = ground (
  arith,
  contains-append (replicate (length ids - length present) "") (Sessions.missing_keys ids present)
      j,
  contains-missing_keys ids present j,
)

-- The keys after `removeNonexistantKeys` has removed `gone` and `TerminateSessions` has deleted
-- `present`.
abbrev cleaned : Keys → String → List String → List String → Keys
cleaned m list_key gone present =
    run_commands (cleanup list_key present) (run_command (srem_command list_key gone) m)

cleaned_keeps :
    (m : Keys) (list_key : String) (gone present : List String) (j : String)
    → contains present j ≡ false
    → j ≢ list_key
    → cleaned m list_key gone present j ≡ m j
cleaned_keeps m list_key gone [] j absent other = ground (arith, eq_iff j list_key)
cleaned_keeps m list_key gone (p ∷ ps) j absent other = ground (arith, eq_iff j list_key)

cleaned_drops :
    (m : Keys) (list_key : String) (gone present : List String) (j : String)
    → contains gone j ≡ true
    → contains (members_of (cleaned m list_key gone present list_key)) j ≡ false
cleaned_drops m list_key gone [] j dropped_j =
    ground (arith, eq_refl list_key, contains-remove_members gone (m list_key) j)
cleaned_drops m list_key gone (p ∷ ps) j dropped_j = ground (
  arith,
  eq_refl list_key,
  contains-remove_members gone (m list_key) j,
  contains-remove_members (p ∷ ps) (remove_members gone (m list_key)) j,
  contains-remove_members (p ∷ ps) none j,
)

module _ ⦃x : External⦄ (ctx : x.Ctx) (keys : x.World → Keys) (store : IsStore ctx keys) where
  -- If fewer distinct texts than keys are found, `TerminateSessions` still succeeds, but no
  -- listed session is deleted: every key stays as it is, but for the account's set and for keys
  -- that are spelled like the text of a session. The listed ids that are not spelled so leave the
  -- account's set. The account's key holds no text.
  pub terminate_sessions_stale :
      (account_id k : String) (ks : List String) (w : x.World)
      → let ids = k ∷ ks in
        let present = texts_under (keys w) ids in
        let list_key = Sessions.account_key account_id in
        length present ≢ length ids
        → accepts_key (keys w list_key) ≡ true
        → let after = keys (Sessions.terminate_sessions ctx ids account_id w).1 in
          ((Sessions.terminate_sessions ctx ids account_id w).0 ≡ done tt)
          × ((j : String) → contains present j ≡ false → j ≢ list_key → after j ≡ keys w j)
          × ((j : String)
              → contains ids j ≡ true
              → contains present j ≡ false
              → contains (members_of (after list_key)) j ≡ false)
  terminate_sessions_stale account_id k ks w some_gone accepted =
      let ids = k ∷ ks in
      let present = texts_under (keys w) ids in
      let list_key = Sessions.account_key account_id in
      let (found, between) =
        remove_stale_partial ctx keys store account_id k ks w some_gone accepted in
      let (ended, after) = terminate_sessions_runs ctx keys store account_id k ks present w found (
        rw (between, eq_refl list_key)
          (accepts_key-remove_members (dropped ids present) (keys w list_key) accepted)) in
      let after' = rw between at after in
      (
        ended,
        λ j absent not_list.
            rw after'
              (cleaned_keeps (keys w) list_key (dropped ids present) present j absent not_list),
        λ j listed absent. rw after' (
            cleaned_drops (keys w) list_key (dropped ids present) present j
              (contains-dropped ids present j listed absent)),
      )
