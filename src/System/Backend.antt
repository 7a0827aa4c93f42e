-- ===== src/System/Backend.antt =====
-- What is assumed of the libraries for every context, also when calls fail and others run at the same
-- time: a command on the sessions database takes effect or not, a pipeline takes effect up to some
-- command, and what else changes that database is interference.
use accounts_service.Prelude.{ℕ, String, Option, some, List, [], ◌∷◌, ◌≡◌, ◌≢◌}
use accounts_service.Models.{Session}
use accounts_service.Models.Errors.{ErrorCode}
use accounts_service.External.{External, Message, SqlValue}
use accounts_service.External.Redis.{Command, srem_command, Keys, text_of}
use accounts_service.Effect.{ok}
use accounts_service.Redis.Sessions.{account_key}
use accounts_service.System.Interference.{Interferes, Runs, Leaves}

-- The sessions database, `keys`, under its own client. While a call is on its way, others may run.
pub record IsDatabase ⦃x : External⦄ (keys : x.World → Keys) : Type 0 where
  pub get_sound :
      (ctx : x.Ctx) (k v : String) (w : x.World)
      → (x.sessions.get ctx k w).0 ≡ ok v
      → (m : Keys) × Interferes (keys w) m × (text_of (m k) ≡ some v)
  pub keys-get : (ctx : x.Ctx) (k : String) (w : x.World) → Leaves keys w (x.sessions.get ctx k w).1
  pub keys-mget :
      (ctx : x.Ctx) (ks : List String) (w : x.World) → Leaves keys w (x.sessions.mget ctx ks w).1
  pub keys-smembers :
      (ctx : x.Ctx) (k : String) (w : x.World) → Leaves keys w (x.sessions.smembers ctx k w).1
  pub runs-srem :
      (ctx : x.Ctx) (k : String) (gone : List String) (w : x.World)
      → Runs (srem_command k gone ∷ []) (keys w) (keys (x.sessions.srem ctx k gone w).1)
  pub runs-exec :
      (ctx : x.Ctx) (cs : List Command) (w : x.World)
      → Runs cs (keys w) (keys (x.sessions.exec ctx cs w).1)

-- The other calls leave the sessions database to the others.
pub record IsSeparate ⦃x : External⦄ (keys : x.World → Keys) : Type 0 where
  pub keys-registration_get :
      (ctx : x.Ctx) (k : String) (w : x.World) → Leaves keys w (x.registration.get ctx k w).1
  pub keys-registration_exists :
      (ctx : x.Ctx) (k : String) (w : x.World) → Leaves keys w (x.registration.exists ctx k w).1
  pub keys-registration_set :
      (ctx : x.Ctx) (k v : String) (ttl : ℕ) (w : x.World)
      → Leaves keys w (x.registration.set ctx k v ttl w).1
  pub keys-registration_del :
      (ctx : x.Ctx) (k : String) (w : x.World) → Leaves keys w (x.registration.del ctx k w).1
  pub keys-begin_tx : (ctx : x.Ctx) (w : x.World) → Leaves keys w (x.sql.begin_tx ctx w).1
  pub keys-tx_query_row_scan :
      (ctx : x.Ctx) (tx : x.Tx) (q : String) (vs : List SqlValue) (w : x.World)
      → Leaves keys w (x.sql.tx_query_row_scan ctx tx q vs w).1
  pub keys-tx_exec :
      (ctx : x.Ctx) (tx : x.Tx) (q : String) (vs : List SqlValue) (w : x.World)
      → Leaves keys w (x.sql.tx_exec ctx tx q vs w).1
  pub keys-rollback : (tx : x.Tx) (w : x.World) → Leaves keys w (x.sql.rollback tx w).1
  pub keys-commit : (tx : x.Tx) (w : x.World) → Leaves keys w (x.sql.commit tx w).1
  pub keys-get_string :
      (ctx : x.Ctx) (q : String) (vs : List SqlValue) (w : x.World)
      → Leaves keys w (x.sql.get_string ctx q vs w).1
  pub keys-get_account :
      (ctx : x.Ctx) (q : String) (vs : List SqlValue) (w : x.World)
      → Leaves keys w (x.sql.get_account ctx q vs w).1
  pub keys-exec :
      (ctx : x.Ctx) (q : String) (vs : List SqlValue) (w : x.World)
      → Leaves keys w (x.sql.exec ctx q vs w).1
  pub keys-account_events :
      (ctx : x.Ctx) (m : Message) (w : x.World)
      → Leaves keys w (x.account_events.write_messages ctx m w).1
  pub keys-token_delivery :
      (ctx : x.Ctx) (m : Message) (w : x.World)
      → Leaves keys w (x.token_delivery.write_messages ctx m w).1
  pub keys-generate :
      (password : String) (cost : ℕ) (w : x.World)
      → Leaves keys w (x.bcrypt.generate_from_password password cost w).1
  pub keys-new_uuid : (w : x.World) → Leaves keys w (x.new_uuid w).1
  pub keys-sleep : (d : ℕ) (w : x.World) → Leaves keys w (x.sleep d w)
  pub keys-log :
      (text method msg : String) (c : Option ErrorCode) (w : x.World)
      → Leaves keys w (x.log text method msg c w)
  pub keys-hits : (method : String) (w : x.World) → Leaves keys w (x.inc_cache_hits method w)
  pub keys-miss : (method : String) (w : x.World) → Leaves keys w (x.inc_cache_miss method w)
  pub keys-set_header :
      (ctx : x.Ctx) (k v : String) (w : x.World) → Leaves keys w (x.set_header ctx k v w).1

pub record IsBackend ⦃x : External⦄ (keys : x.World → Keys) : Type 0 where
  pub database : IsDatabase keys
  pub separate : IsSeparate keys
  -- A UUID is not spelled like the key of an account's set.
  pub uuid : (account_id : String) (w : x.World) → account_key account_id ≢ (x.new_uuid w).0
  -- The session id survives JSON.
  pub json :
      (s t : Session) (body : String)
      → x.json.marshal_session s ≡ ok body
      → x.json.unmarshal_session body ≡ ok t
      → t.session_id ≡ s.session_id
