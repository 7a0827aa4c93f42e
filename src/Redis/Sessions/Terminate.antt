-- ===== src/Redis/Sessions/Terminate.antt =====
-- `removeNonexistantKeys` and `TerminateSessions` over a reachable server. `removeNonexistantKeys`
-- compares the values that `MGET` gives with the keys that it was asked for.
use accounts_service.Prelude.{
  ◌+◌, ◌-◌, ◌≤◌, ◌<◌, String, true, false, ◌≡◌, ◌≢◌, refl, Option, none, some, List, [], ◌∷◌, ◌++◌,
  map, length, replicate, contains, eq_iff, eq_refl, arith,
}
use accounts_service.External.{External}
use accounts_service.External.Redis.{
  Keys, Command, text_of, members_of, accepts_key, run_command, run_commands, del_command,
  srem_command,
}
use accounts_service.Effect.{done}
use accounts_service.Redis.Sessions
use accounts_service.Redis.Sessions.Store.{IsStore}
use accounts_service.Redis.Sessions.Members.{contains-remove_members, accepts_key-remove_members}

length-map {ℓ κ} :
    {A : Type ℓ} {B : Type κ} (f : A → B) (xs : List A) → length (map f xs) ≡ length xs
length-map f [] = refl
length-map f (x ∷ xs) = omega (arith, length-map f xs)

length-collect_exists-le :
    (res : List (Option String)) (seen : List String)
    → length (Sessions.collect_exists res seen) ≤ length res + length seen
length-collect_exists-le [] seen = omega arith
length-collect_exists-le (none ∷ res) seen = omega (arith, length-collect_exists-le res seen)
length-collect_exists-le (some v ∷ res) seen =
    ground (arith, length-collect_exists-le res seen, length-collect_exists-le res (v ∷ seen))

-- The distinct texts under the keys of a list.
abbrev pub texts_under : Keys → List String → List String
texts_under m ids = Sessions.collect_exists (map (λ k. text_of (m k)) ids) []

length-texts_under-le : (m : Keys) (ids : List String) → length (texts_under m ids) ≤ length ids
length-texts_under-le m ids = omega (
  arith,
  length-collect_exists-le (map (λ k. text_of (m k)) ids) [],
  length-map (λ k. text_of (m k)) ids,
)

-- The keys that leave the account's set when fewer distinct values than keys were found.
abbrev pub dropped : List String → List String → List String
dropped ids present =
    replicate (length ids - length present) "" ++ Sessions.missing_keys ids present

-- What `TerminateSessions` runs for the keys that `removeNonexistantKeys` kept.
abbrev pub cleanup : String → List String → List Command
cleanup list_key [] = []
cleanup list_key (id ∷ ids) = del_command (id ∷ ids) ∷ srem_command list_key (id ∷ ids) ∷ []

module _ ⦃x : External⦄ (ctx : x.Ctx) (keys : x.World → Keys) (store : IsStore ctx keys) where
  remove_missing_partial :
      (account_id : String) (ids present : List String) (w : x.World)
      → length present < length ids
      → accepts_key (keys w (Sessions.account_key account_id)) ≡ true
      → let list_key = Sessions.account_key account_id in
        ((Sessions.remove_missing ctx account_id ids present w).0 ≡ done (present, none))
        × (keys (Sessions.remove_missing ctx account_id ids present w).1
            ≡ run_command (srem_command list_key (dropped ids present)) (keys w))
  unfolding Sessions.remove_missing
  remove_missing_partial account_id ids present w fewer accepted =
      let list_key = Sessions.account_key account_id in
      let removed = store.reachable.srem_lem list_key (dropped ids present) w accepted in
      let after = store.reachable.keys-srem list_key (dropped ids present) w in
      (ground arith, ground arith)

  -- If as many distinct texts are found as keys were asked for, the keys are returned.
  remove_stale_live :
      (account_id k : String) (ks : List String) (w : x.World)
      → length (texts_under (keys w) (k ∷ ks)) ≡ length (k ∷ ks)
      → ((Sessions.remove_stale ctx account_id (k ∷ ks) w).0 ≡ done (k ∷ ks, none))
        × (keys (Sessions.remove_stale ctx account_id (k ∷ ks) w).1 ≡ keys w)
  unfolding Sessions.remove_stale Sessions.remove_missing
  remove_stale_live account_id k ks w all =
      let got = store.reachable.mget_lem (k ∷ ks) w (λ e. cc) in
      let same = store.reachable.keys-mget (k ∷ ks) w in
      (rw (got, Sessions.after_mget) (ground arith), rw (got, Sessions.after_mget) (ground arith))

  -- Otherwise the texts are returned, and every key but those spelled like a text leaves the
  -- account's set.
  pub remove_stale_partial :
      (account_id k : String) (ks : List String) (w : x.World)
      → length (texts_under (keys w) (k ∷ ks)) ≢ length (k ∷ ks)
      → accepts_key (keys w (Sessions.account_key account_id)) ≡ true
      → let ids = k ∷ ks in
        let present = texts_under (keys w) ids in
        let list_key = Sessions.account_key account_id in
        ((Sessions.remove_stale ctx account_id ids w).0 ≡ done (present, none))
        × (keys (Sessions.remove_stale ctx account_id ids w).1
            ≡ run_command (srem_command list_key (dropped ids present)) (keys w))
  unfolding Sessions.remove_stale Sessions.after_mget
  remove_stale_partial account_id k ks w some_gone accepted =
      let ids = k ∷ ks in
      let got = store.reachable.mget_lem ids w (λ e. cc) in
      let same = store.reachable.keys-mget ids w in
      let bound = length-texts_under-le (keys w) ids in
      let present = texts_under (keys w) ids in
      let w' = (x.sessions.mget ctx ids w).1 in
      let list_key = Sessions.account_key account_id in
      let (ended, after) =
        remove_missing_partial account_id ids present w' (omega arith) (rw same accepted) in
      (rw (got, Sessions.after_mget) ended, rw (got, Sessions.after_mget) (rw same at after))

  -- The deferred calls keep the result and the keys.
  remove_nonexistant_keys_lem :
      (account_id : String) (ids kept : List String) (w : x.World)
      → (Sessions.remove_stale ctx account_id ids w).0 ≡ done (kept, none)
      → ((Sessions.remove_nonexistant_keys ctx account_id ids w).0 ≡ done (kept, none))
        × (keys (Sessions.remove_nonexistant_keys ctx account_id ids w).1
            ≡ keys (Sessions.remove_stale ctx account_id ids w).1)
  unfolding Sessions.remove_nonexistant_keys
  remove_nonexistant_keys_lem account_id ids kept w ended =
      let w' = (Sessions.remove_stale ctx account_id ids w).1 in
      let alive = store.live w' in
      (ground arith, ground (arith, store.keys-hits "removeNonexistantKeys" w'))

  delete_sessions_runs :
      (account_id : String) (kept : List String) (w : x.World)
      → let list_key = Sessions.account_key account_id in
        accepts_key (keys w list_key) ≡ true
        → ((Sessions.delete_sessions ctx account_id kept w).0 ≡ done tt)
          × (keys (Sessions.delete_sessions ctx account_id kept w).1
              ≡ run_commands (cleanup list_key kept) (keys w))
  unfolding Sessions.delete_sessions
  delete_sessions_runs account_id [] w accepted = (refl, refl)
  delete_sessions_runs account_id (id ∷ ids) w accepted =
      let list_key = Sessions.account_key account_id in
      let srem = srem_command list_key (id ∷ ids) in
      let cs = del_command (id ∷ ids) ∷ srem ∷ [] in
      let queued = store.reachable.queue_lem srem in
      let ran = store.reachable.exec_lem cs w (ground arith) in
      let after = store.reachable.keys-exec cs w in (ground arith, ground arith)

  -- `TerminateSessions` deletes what `removeNonexistantKeys` keeps.
  pub terminate_sessions_runs :
      (account_id k : String) (ks kept : List String) (w : x.World)
      → let ids = k ∷ ks in
        let list_key = Sessions.account_key account_id in
        let between = keys (Sessions.remove_stale ctx account_id ids w).1 in
        (Sessions.remove_stale ctx account_id ids w).0 ≡ done (kept, none)
        → accepts_key (between list_key) ≡ true
        → ((Sessions.terminate_sessions ctx ids account_id w).0 ≡ done tt)
          × (keys (Sessions.terminate_sessions ctx ids account_id w).1
              ≡ run_commands (cleanup list_key kept) between)
  unfolding Sessions.terminate_sessions
  terminate_sessions_runs account_id k ks kept w ended accepted =
      let ids = k ∷ ks in
      let list_key = Sessions.account_key account_id in
      let (found, same) = remove_nonexistant_keys_lem account_id ids kept w ended in
      let w1 = (Sessions.remove_nonexistant_keys ctx account_id ids w).1 in
      let (deleted, after) = delete_sessions_runs account_id kept w1 (rw same accepted) in
      let w2 = (Sessions.delete_sessions ctx account_id kept w1).1 in
      let alive = store.live w2 in
      let hits = store.keys-hits "TerminateSessions" w2 in
      let after' = rw same at after in (ground arith, ground arith)

  -- If every listed key holds a text and the texts are distinct, `TerminateSessions` succeeds:
  -- the listed keys are gone, also from the account's set, and no other key but that set
  -- changes. The account's key is not listed and holds no text.
  pub terminate_sessions_live :
      (account_id k : String) (ks : List String) (w : x.World)
      → let ids = k ∷ ks in
        let list_key = Sessions.account_key account_id in
        length (texts_under (keys w) ids) ≡ length ids
        → accepts_key (keys w list_key) ≡ true
        → contains ids list_key ≡ false
        → let after = keys (Sessions.terminate_sessions ctx ids account_id w).1 in
          ((Sessions.terminate_sessions ctx ids account_id w).0 ≡ done tt)
          × ((j : String) → contains ids j ≡ true → after j ≡ none)
          × ((j : String)
              → contains ids j ≡ true
              → contains (members_of (after list_key)) j ≡ false)
          × ((j : String) → contains ids j ≡ false → j ≢ list_key → after j ≡ keys w j)
  terminate_sessions_live account_id k ks w all accepted apart =
      let ids = k ∷ ks in
      let list_key = Sessions.account_key account_id in
      let (found, same) = remove_stale_live account_id k ks w all in
      let (ended, after) = terminate_sessions_runs account_id k ks ids w found (rw same accepted) in
      let after' = rw same at after in
      (
        ended,
        λ j listed. rw after' (ground (arith, eq_iff j list_key)),
        λ j listed.
            rw after'
              (ground (arith, eq_refl list_key, contains-remove_members ids (keys w list_key) j)),
        λ j other not_list. rw after' (ground (arith, eq_iff j list_key)),
      )

  pub terminate_sessions_live_accepts :
      (account_id k : String) (ks : List String) (w : x.World)
      → let ids = k ∷ ks in
        let list_key = Sessions.account_key account_id in
        length (texts_under (keys w) ids) ≡ length ids
        → accepts_key (keys w list_key) ≡ true
        → contains ids list_key ≡ false
        → accepts_key (keys (Sessions.terminate_sessions ctx ids account_id w).1 list_key) ≡ true
  terminate_sessions_live_accepts account_id k ks w all accepted apart =
      let ids = k ∷ ks in
      let list_key = Sessions.account_key account_id in
      let (found, same) = remove_stale_live account_id k ks w all in
      let (ended, after) = terminate_sessions_runs account_id k ks ids w found (rw same accepted) in
      let after' = rw same at after in
      rw after' (
        ground (arith, eq_refl list_key, accepts_key-remove_members ids (keys w list_key) accepted))
