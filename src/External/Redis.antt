-- ===== src/External/Redis.antt =====
-- The calls of go-redis, and what its documentation says of them while the server is reachable:
-- a key holds a text or a set, and a command changes the keys by `run_command`.
use accounts_service.Prelude.{
  ℕ, String, Bool, true, false, Option, none, some, List, [], ◌∷◌, map, contains, ◌==◌, ◌≡◌, ◌≢◌,
  if◌then◌else◌,
}
use accounts_service.Models.Errors.{GoError, redis_nil}
use accounts_service.Effect.{Result, ok, err}

-- The commands that the program queues on a pipeline.
pub data Command : Type 0 where
  set_command : String → String → ℕ → Command
  sadd_command : String → String → Command
  expire_command : String → ℕ → Command
  del_command : List String → Command
  srem_command : String → List String → Command

pub record RedisClient (World Ctx : Type 0) : Type 0 where
  pub get : Ctx → String → World → Result String × World
  pub mget : Ctx → List String → World → Result (List (Option String)) × World
  pub exists : Ctx → String → World → Result ℕ × World
  pub set : Ctx → String → String → ℕ → World → Result (Unit {0}) × World
  pub del : Ctx → String → World → Result (Unit {0}) × World
  pub srem : Ctx → String → List String → World → Result (Unit {0}) × World
  pub smembers : Ctx → String → World → Result (List String) × World
  -- The error of a queued command before `Exec`.
  pub queue : Ctx → Command → Option GoError
  pub exec : Ctx → List Command → World → Result (Unit {0}) × World

-- What a key holds.
pub data Entry : Type 0 where
  text : String → Entry
  members : List String → Entry

abbrev pub Keys : Type 0
Keys = String → Option Entry

abbrev put : Keys → String → Option Entry → Keys
put m k e j = if j == k then e else m j

-- The members of a list that are not among `gone`.
abbrev pub without : List String → List String → List String
without [] gone = []
without (x ∷ xs) gone = let rest = without xs gone in if contains gone x then rest else x ∷ rest

abbrev pub add_member : String → Option Entry → Option Entry
add_member v none = some (members (v ∷ []))
add_member v (some (text t)) = some (text t)
add_member v (some (members vs)) = some (members (if contains vs v then vs else v ∷ vs))

-- Redis drops a set that has become empty.
abbrev pub set_entry : List String → Option Entry
set_entry [] = none
set_entry (v ∷ vs) = some (members (v ∷ vs))

abbrev pub remove_members : List String → Option Entry → Option Entry
remove_members gone (some (members vs)) = set_entry (without vs gone)
remove_members gone (some (text t)) = some (text t)
remove_members gone none = none

-- The keys after a command.
abbrev pub run_command : Command → Keys → Keys
run_command (set_command k v ttl) m = put m k (some (text v))
run_command (sadd_command k v) m = put m k (add_member v (m k))
run_command (expire_command k ttl) m = m
run_command (del_command ks) m = λ j. if contains ks j then none else m j
run_command (srem_command k gone) m = put m k (remove_members gone (m k))

abbrev pub run_commands : List Command → Keys → Keys
run_commands [] m = m
run_commands (c ∷ cs) m = run_commands cs (run_command c m)

-- WRONGTYPE: a set command on a key that holds a text.
abbrev pub accepts_key : Option Entry → Bool
accepts_key (some (text t)) = false
accepts_key _ = true

abbrev accepts : Command → Keys → Bool
accepts (sadd_command k v) m = accepts_key (m k)
accepts (srem_command k gone) m = accepts_key (m k)
accepts _ m = true

abbrev pub accepts_all : List Command → Keys → Bool
accepts_all [] m = true
accepts_all (c ∷ cs) m =
    let rest = accepts_all cs (run_command c m) in if accepts c m then rest else false

abbrev pub text_of : Option Entry → Option String
text_of (some (text t)) = some t
text_of _ = none

abbrev pub members_of : Option Entry → List String
members_of (some (members vs)) = vs
members_of _ = []

-- The server is reachable for the calls of `ctx`, and `keys` is what it holds. No key expires
-- between two calls.
pub record IsReachable {World Ctx : Type 0} (r : RedisClient World Ctx) (ctx : Ctx)
    (keys : World → Keys) : Type 0 where
  pub get_text : (k v : String) (w : World) → text_of (keys w k) ≡ some v → (r.get ctx k w).0 ≡ ok v
  pub get_none : (k : String) (w : World) → keys w k ≡ none → (r.get ctx k w).0 ≡ err redis_nil
  pub keys-get : (k : String) (w : World) → keys (r.get ctx k w).1 ≡ keys w
  pub mget_lem :
      (ks : List String) (w : World)
      → ks ≢ []
      → (r.mget ctx ks w).0 ≡ ok (map (λ k. text_of (keys w k)) ks)
  pub keys-mget : (ks : List String) (w : World) → keys (r.mget ctx ks w).1 ≡ keys w
  pub smembers_lem :
      (k : String) (w : World)
      → accepts_key (keys w k) ≡ true
      → (r.smembers ctx k w).0 ≡ ok (members_of (keys w k))
  pub keys-smembers : (k : String) (w : World) → keys (r.smembers ctx k w).1 ≡ keys w
  pub srem_lem :
      (k : String) (gone : List String) (w : World)
      → accepts_key (keys w k) ≡ true
      → (r.srem ctx k gone w).0 ≡ ok tt
  pub keys-srem :
      (k : String) (gone : List String) (w : World)
      → keys (r.srem ctx k gone w).1 ≡ run_command (srem_command k gone) (keys w)
  pub queue_lem : (c : Command) → r.queue ctx c ≡ none
  pub exec_lem :
      (cs : List Command) (w : World) → accepts_all cs (keys w) ≡ true → (r.exec ctx cs w).0 ≡ ok tt
  pub keys-exec :
      (cs : List Command) (w : World) → keys (r.exec ctx cs w).1 ≡ run_commands cs (keys w)
