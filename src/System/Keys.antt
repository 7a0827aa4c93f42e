-- ===== src/System/Keys.antt =====
-- What the keys of the sessions database look like: an account's key holds a set or nothing, any
-- other key holds the text of a session with that id or nothing.
use accounts_service.Prelude.{
  String, Bool, true, false, Option, none, some, List, [], ◌∷◌, ◌≡◌, ◌≢◌, inl, inr, refl, contains,
  eq_iff, arith, Bool-cases, ◌==◌, if◌then◌else◌, ◌∙◌,
}
use accounts_service.Models.{Session}
use accounts_service.External.{External}
use accounts_service.External.Redis.{
  Command, set_command, sadd_command, expire_command, del_command, srem_command, Entry, text,
  members, text_of, Keys, accepts_key, add_member, set_entry, without, remove_members, run_command,
}
use accounts_service.Effect.{ok}
use accounts_service.Redis.Sessions.{account_key}
use accounts_service.Redis.Sessions.Members.{accepts_key-remove_members}

-- The id of a session: not the key of an account's set.
abbrev pub IsSessionId : String → Type 0
IsSessionId id = (account_id : String) → account_key account_id ≢ id

abbrev holds_set : Option Entry → Bool
holds_set (some (members vs)) = true
holds_set _ = false

holds_set-remove_members :
    (gone : List String) (e : Option Entry)
    → holds_set e ≡ false
    → holds_set (remove_members gone e) ≡ false
holds_set-remove_members gone none h = refl
holds_set-remove_members gone (some (text t)) h = refl
holds_set-remove_members gone (some (members vs)) h = cc

set_entry-text : (vs : List String) (v : String) → set_entry vs ≢ some (text v)
set_entry-text [] v h = cc
set_entry-text (u ∷ us) v h = cc

remove_members-text :
    (gone : List String) (e : Option Entry) (v : String)
    → remove_members gone e ≡ some (text v)
    → e ≡ some (text v)
remove_members-text gone none v h = cc
remove_members-text gone (some (text t)) v h = h
remove_members-text gone (some (members vs)) v h = absurd (set_entry-text (without vs gone) v h)

pub text_of-text : (e : Option Entry) (v : String) → text_of e ≡ some v → e ≡ some (text v)
text_of-text none v h = cc
text_of-text (some (text t)) v h = cc
text_of-text (some (members vs)) v h = cc

module _ ⦃x : External⦄ where
  -- The text is no session, or a session with that id.
  abbrev pub IsBody : String → String → Type 0
  IsBody id v = (s : Session) → x.json.unmarshal_session v ≡ ok s → s.session_id ≡ id

  -- What a key may hold.
  pub record Fits (k : String) (e : Option Entry) : Type 0 where
    pub set : (account_id : String) → account_key account_id ≡ k → accepts_key e ≡ true
    no_set : IsSessionId k → holds_set e ≡ false
    pub body : (v : String) → e ≡ some (text v) → IsBody k v

  pub record IsWellKeyed (m : Keys) : Type 0 where
    pub fits : (k : String) → Fits k (m k)

  pub Fits-none : (k : String) → Fits k none
  Fits-none k = record { set = λ a e. refl; no_set = λ id. refl; body = λ v e. cc }

  -- The commands that the repository queues.
  abbrev pub IsExpected : Command → Type 0
  IsExpected (set_command k v ttl) = IsSessionId k × IsBody k v
  IsExpected (sadd_command k v) = (account_id : String) × (k ≡ account_key account_id)
  IsExpected _ = Unit

  abbrev pub AllExpected : List Command → Type 0
  AllExpected [] = Unit
  AllExpected (c ∷ cs) = IsExpected c × AllExpected cs

  put-IsWellKeyed :
      (k : String) (e : Option Entry) (m : Keys)
      → Fits k e
      → IsWellKeyed m
      → IsWellKeyed (λ j. if j == k then e else m j)
  put-IsWellKeyed k e m f h = record {
    fits = λ j. elim (Bool-cases (j == k)) [
      | inl same ↦ rw (same, (eq_iff j k).0 same) f
      | inr other ↦ rw other (h.fits j)
    ];
  }

  Fits-remove_members :
      (k : String) (gone : List String) (e : Option Entry)
      → Fits k e
      → Fits k (remove_members gone e)
  Fits-remove_members k gone e f = record {
    set = λ a at. accepts_key-remove_members gone e (f.set a at);
    no_set = λ id. holds_set-remove_members gone e (f.no_set id);
    body = λ v at. f.body v (remove_members-text gone e v at);
  }

  Fits-members :
      (account_id : String) (vs : List String) → Fits (account_key account_id) (some (members vs))
  Fits-members a vs = record {
    set = λ b at. refl;
    no_set = λ id. absurd (id a refl);
    body = λ v e. cc;
  }

  Fits-add_member :
      (account_id v : String) (e : Option Entry)
      → Fits (account_key account_id) e
      → Fits (account_key account_id) (add_member v e)
  Fits-add_member a v none f = Fits-members a (v ∷ [])
  Fits-add_member a v (some (text t)) f = f
  Fits-add_member a v (some (members vs)) f = Fits-members a _

  pub run_command-IsWellKeyed :
      (c : Command) (m : Keys) → IsExpected c → IsWellKeyed m → IsWellKeyed (run_command c m)
  run_command-IsWellKeyed (set_command k v ttl) m (id, body) h =
      put-IsWellKeyed k (some (text v)) m
        (record {
          set = λ a at. absurd (id a at);
          no_set = λ _. refl;
          body = λ u e. let same : v ≡ u = cc in rw (← same) body;
        })
        h
  run_command-IsWellKeyed (sadd_command k v) m (a, at) h =
      put-IsWellKeyed k _ m
        (rw at (Fits-add_member a v (m (account_key a)) (h.fits (account_key a)))) h
  run_command-IsWellKeyed (expire_command k ttl) m _ h = h
  run_command-IsWellKeyed (del_command ks) m _ h = record {
    fits = λ j. elim (Bool-cases (contains ks j)) [
      | inl deleted ↦ rw deleted (Fits-none j)
      | inr kept ↦ rw kept (h.fits j)
    ];
  }
  run_command-IsWellKeyed (srem_command k gone) m _ h =
      put-IsWellKeyed k _ m (Fits-remove_members k gone (m k) (h.fits k)) h

  -- A session that is stored under a key has an id that is no account's key.
  pub IsSessionId-stored :
      (m : Keys) (id v : String) (s : Session)
      → IsWellKeyed m
      → text_of (m id) ≡ some v
      → x.json.unmarshal_session v ≡ ok s
      → IsSessionId s.session_id
  IsSessionId-stored m id v s h found decoded a at =
      let held = text_of-text (m id) v found in
      let same = (h.fits id).body v held s decoded in
      let set = (h.fits id).set a (at ∙ same) in ground arith
