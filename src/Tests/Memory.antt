-- ===== src/Tests/Memory.antt =====
-- Concrete values for what the program does not implement: a Redis server in memory, a database
-- with two accounts, a JSON codec for their sessions and one pending account, a JWT library with one token.
use accounts_service.Prelude.{
  ℕ, String, ◌<>◌, Bool, true, false, not, ◌&&◌, Option, none, some, List, [], ◌∷◌, map, ltb,
  num_eq, ◌==◌, if◌then◌else◌,
}
use accounts_service.Models.{Account, Session}
use accounts_service.Models.Errors.{redis_nil, no_rows, other_error}
use accounts_service.Effect.{Result, ok, err}
use accounts_service.External.{
  External, Claims, SigningMethod, hmac, other_method, SqlClient, SqlValue, KafkaWriter, JsonCodec,
  JwtLibrary, BcryptLibrary, Message,
}
use accounts_service.External.Redis.{
  RedisClient, Keys, Entry, text, members, accepts_key, accepts_all, members_of, text_of,
  run_command, run_commands, srem_command, set_command, del_command,
}
use accounts_service.Postgres.{exist_query}
use accounts_service.Postgres.Removal.{without}

pub record World : Type 0 where
  pub sessions : Keys
  pub registration : Keys
  pub clock : ℕ
  pub sent : List Message
  pub rows : String → Option Account

-- A request's metadata.
abbrev pub Ctx : Type 0
Ctx = Option (String → List String)

abbrev pub value_of : Option Entry → Result String
value_of none = err redis_nil
value_of (some (text v)) = ok v
value_of (some (members vs)) = err (other_error "WRONGTYPE")

abbrev done_if : Bool → Result (Unit {0})
done_if true = ok tt
done_if false = err (other_error "WRONGTYPE")

-- A server over one of the two databases of the world.
abbrev pub redis : (World → Keys) → (Keys → World → World) → RedisClient World Ctx
redis keys write = record {
  get = λ ctx k w. (value_of (keys w k), w);
  mget = λ ctx ks w. (
    elim ks [
      | [] ↦ err (other_error "ERR wrong number of arguments for 'mget' command")
      | k ∷ rest ↦ ok (map (λ j. text_of (keys w j)) (k ∷ rest))
    ],
    w,
  );
  exists = λ ctx k w. (ok (elim (keys w k) [ none ↦ 0 | some e ↦ 1 ]), w);
  set = λ ctx k v ttl w. (ok tt, write (run_command (set_command k v ttl) (keys w)) w);
  del = λ ctx k w. (ok tt, write (run_command (del_command (k ∷ [])) (keys w)) w);
  srem = λ ctx k gone w.
      (done_if (accepts_key (keys w k)), write (run_command (srem_command k gone) (keys w)) w);
  smembers = λ ctx k w. (
    elim (accepts_key (keys w k)) [
      | true ↦ ok (members_of (keys w k))
      | false ↦ err (other_error "WRONGTYPE")
    ],
    w,
  );
  queue = λ ctx c. none;
  exec = λ ctx cs w. (done_if (accepts_all cs (keys w)), write (run_commands cs (keys w)) w);
}

abbrev pub session_server : RedisClient World Ctx
session_server = redis (λ w. w.sessions) (λ m w. record w { sessions = m })

abbrev pub alice : Account
alice = record {
  id = "a1";
  email = "alice@example.org";
  password = "hash:secret";
  registration_date = 1;
}

abbrev pub dora : Account
dora = record {
  id = "d1";
  email = "dora@example.org";
  password = "hash:secret";
  registration_date = 1;
}

-- Dora's session.
abbrev pub dora_session : Session
dora_session = record {
  session_id = "s3";
  account_id = "d1";
  machine_id = "laptop";
  client_ip = "10.0.0.1";
  last_activity = 20;
}

abbrev pub session_at : ℕ → Session
session_at t = record {
  session_id = "s1";
  account_id = "a1";
  machine_id = "laptop";
  client_ip = "10.0.0.1";
  last_activity = t;
}

-- The accounts by their email.
abbrev Rows : Type 0
Rows = String → Option Account

-- `UPDATE` of the password of a row.
abbrev pub change_row : List SqlValue → Rows → Result (Unit {0}) × Rows
change_row (SqlValue.text hash ∷ SqlValue.text email ∷ []) rows = elim (rows email) [
  | none ↦ (err no_rows, rows)
  | some a ↦ (ok tt, λ e. if e == email then some (record a { password = hash }) else rows e)
]
change_row _ rows = (err (other_error "arguments"), rows)

-- `INSERT` of a row; the transaction writes through.
abbrev pub insert_row : List SqlValue → Rows → Rows
insert_row (SqlValue.text email ∷ SqlValue.text hash ∷ SqlValue.instant date ∷ []) rows = λ e.
    if e == email
    then some (record { id = "a2"; email = email; password = hash; registration_date = date })
    else rows e
insert_row _ rows = rows

-- `DELETE` of the rows of an account; the transaction writes through.
abbrev drop_rows : List SqlValue → Rows → Rows
drop_rows (SqlValue.text id ∷ []) rows = λ e. without id (rows e)
drop_rows _ rows = rows

-- `SELECT` of the email of the account with that id: hers, if it is Alice's.
abbrev pub email_of : String → Option Account → Result String
email_of id none = err no_rows
email_of id (some a) = if a.id == id then ok "alice@example.org" else err no_rows

abbrev pub database : SqlClient World Ctx (Unit {0}) (Unit {0})
database = record {
  begin_tx = λ ctx w. (ok tt, w);
  tx_query_row_scan = λ ctx tx q vs w. (ok "a2", record w { rows = insert_row vs w.rows });
  tx_exec = λ ctx tx q vs w. (ok tt, record w { rows = drop_rows vs w.rows });
  rollback = λ tx w. (ok tt, w);
  commit = λ tx w. (ok tt, w);
  get_string = λ ctx q vs w. (
    elim vs [
      | SqlValue.text v ∷ rest ↦
          if q == exist_query
          then elim (w.rows v) [ none ↦ err no_rows | some a ↦ ok a.id ]
          else email_of v (w.rows "alice@example.org")
      | _ ↦ err (other_error "arguments")
    ],
    w,
  );
  get_account = λ ctx q vs w. (
    elim vs [
      | SqlValue.text v ∷ rest ↦ elim (w.rows v) [ none ↦ err no_rows | some a ↦ ok a ]
      | _ ↦ err (other_error "arguments")
    ],
    w,
  );
  exec = λ ctx q vs w. let (r, rows) = change_row vs w.rows in (r, record w { rows = rows });
  rows_affected = λ r. ok 1;
}

abbrev recorder : KafkaWriter World Ctx
recorder = record { write_messages = λ ctx m w. (ok tt, record w { sent = m ∷ w.sent }) }

-- The codec knows the session `s1` at the instants 5 and 9, `s3` at 20, and the account of Bob.
abbrev codec : JsonCodec
codec = record {
  marshal_session = λ s.
      if s.session_id == "s1"
      then if num_eq s.last_activity 5 then ok "s1 at 5" else ok "s1 at 9"
      else if s.session_id == "s3"
      then ok "s3 at 20"
      else err (other_error "json");
  unmarshal_session = λ b.
      if b == "s1 at 5"
      then ok (session_at 5)
      else if b == "s1 at 9"
      then ok (session_at 9)
      else if b == "s3 at 20"
      then ok dora_session
      else err (other_error "json");
  marshal_registered = λ a. ok "bob";
  unmarshal_registered = λ b. ok (record { username = "bob"; password = "hash:secret" });
  marshal_account_created = λ a. ok "created";
  marshal_account_deleted = λ a. ok "deleted";
  marshal_token_request = λ a. ok "request";
}

-- The token of Bob, made at 9 and valid for 5.
abbrev pub bob_claims : Claims
bob_claims = record { expires_at = 14; issued_at = 9; value = "bob@example.org" }

abbrev is_bob : Claims → Bool
is_bob c = num_eq c.expires_at 14 && (num_eq c.issued_at 9 && c.value == "bob@example.org")

abbrev pub method_of : String → SigningMethod
method_of t = if t == "token" then hmac else other_method

abbrev pub tokens : JwtLibrary World
tokens = record {
  signed_string =
      λ c secret. if is_bob c && secret == "key" then ok "token" else err (other_error "signing");
  parse_with_claims = λ t key w. elim (key (method_of t)) [
    | err e ↦ err e
    | ok secret ↦
        if (t == "token" && secret == "key") && ltb w.clock 14
        then ok (some bob_claims)
        else err (other_error "token")
  ];
}

abbrev pub hashing : BcryptLibrary World
hashing = record {
  generate_from_password = λ p cost w. (ok ("hash:" <> p), w);
  compare_hash_and_password =
      λ h p. if h == ("hash:" <> p) then ok tt else err (other_error "mismatch");
}

instance abbrev pub memory : External
memory = record {
  World = World;
  Ctx = Ctx;
  Tx = Unit {0};
  SqlResult = Unit {0};
  background = none;
  ctx_err = λ ctx w. none;
  ctx_err_text = λ c. "context";
  foreign_text = λ e. "foreign";
  incoming_metadata = λ ctx. ctx;
  set_header = λ ctx k v w. (ok tt, w);
  now = λ w. w.clock;
  sleep = λ d w. w;
  new_uuid = λ w. (if ltb w.clock 20 then "s1" else "s3", w);
  inc_cache_hits = λ m w. w;
  inc_cache_miss = λ m w. w;
  log = λ text method msg c w. w;
  parse_ip = λ s. not (s == "");
  parse_address = λ s. ok tt;
  registration = redis (λ w. w.registration) (λ m w. record w { registration = m });
  sessions = session_server;
  sql = database;
  account_events = recorder;
  token_delivery = recorder;
  json = codec;
  jwt = tokens;
  bcrypt = hashing;
}
