-- ===== src/Tests/Backend.antt =====
-- The stand-ins meet the assumptions for every context.
use accounts_service.Prelude.{
  String, len, len-append, Option, none, some, List, [], ◌∷◌, ◌≡◌, ◌≢◌, ap, refl, Bool-cases, ltb,
  sym, ◌∙◌, ◌⊎◌, inl, inr, eq_iff, arith,
}
use accounts_service.Models.{Session}
use accounts_service.External.Redis.{
  Command, srem_command, Keys, run_command, run_commands, Entry, text, members, text_of,
}
use accounts_service.Effect.{ok}
use accounts_service.Redis.Sessions.{account_key}
use accounts_service.System.Interference.{quiet, Runs, stopped, continued}
use accounts_service.System.Backend.{IsDatabase, IsSeparate, IsBackend}
use accounts_service.Tests.Memory.{World, dora_session, memory, value_of, session_at}
use accounts_service.Tests.Laws.{session_keys}

value_of_ok : (e : Option Entry) (v : String) → value_of e ≡ ok v → text_of e ≡ some v
value_of_ok none v h = cc
value_of_ok (some (text t)) v h = ground arith
value_of_ok (some (members vs)) v h = cc

Runs-all : (cs : List Command) (m : Keys) → Runs ⦃x = memory⦄ cs m (run_commands cs m)
Runs-all [] m = stopped [] m m quiet
Runs-all (c ∷ cs) m = continued c cs m m _ quiet (Runs-all cs (run_command c m))

memory-IsDatabase : IsDatabase ⦃x = memory⦄ session_keys
memory-IsDatabase = record {
  get_sound = λ ctx k v w h. (w.sessions, quiet, value_of_ok (w.sessions k) v h);
  keys-get = λ ctx k w m h. h;
  keys-mget = λ ctx ks w m h. h;
  keys-smembers = λ ctx k w m h. h;
  runs-srem = λ ctx k gone w. Runs-all (srem_command k gone ∷ []) w.sessions;
  runs-exec = λ ctx cs w. Runs-all cs w.sessions;
}

memory-IsSeparate : IsSeparate ⦃x = memory⦄ session_keys
memory-IsSeparate = record {
  keys-registration_get = λ ctx k w m h. h;
  keys-registration_exists = λ ctx k w m h. h;
  keys-registration_set = λ ctx k v ttl w m h. h;
  keys-registration_del = λ ctx k w m h. h;
  keys-begin_tx = λ ctx w m h. h;
  keys-tx_query_row_scan = λ ctx tx q vs w m h. h;
  keys-tx_exec = λ ctx tx q vs w m h. h;
  keys-rollback = λ tx w m h. h;
  keys-commit = λ tx w m h. h;
  keys-get_string = λ ctx q vs w m h. h;
  keys-get_account = λ ctx q vs w m h. h;
  keys-exec = λ ctx q vs w m h. h;
  keys-account_events = λ ctx msg w m h. h;
  keys-token_delivery = λ ctx msg w m h. h;
  keys-generate = λ password cost w m h. h;
  keys-new_uuid = λ w m h. h;
  keys-sleep = λ d w m h. h;
  keys-log = λ text method msg c w m h. h;
  keys-hits = λ name w m h. h;
  keys-miss = λ name w m h. h;
  keys-set_header = λ ctx k v w m h. h;
}

-- The key of an account has more than two bytes.
long_key : (account_id id : String) → len id ≡ 2 → account_key account_id ≢ id
unfolding account_key
long_key account_id id short h =
    let long = len-append "account_" account_id in let same = ap len h in omega arith

account_key-apart :
    (account_id : String) (w : World) → account_key account_id ≢ (memory.new_uuid w).0
account_key-apart account_id w = elim (Bool-cases (ltb w.clock 20)) [
  | inl early ↦ rw early (long_key account_id "s1" refl)
  | inr late ↦ rw late (long_key account_id "s3" refl)
]

-- What the codec writes.
encoded_as :
    (s : Session) (body : String)
    → memory.json.marshal_session s ≡ ok body
    → ((s.session_id ≡ "s1") × ((body ≡ "s1 at 5") ⊎ (body ≡ "s1 at 9")))
      ⊎ ((s.session_id ≡ "s3") × (body ≡ "s3 at 20"))
encoded_as s body encoded = ground (arith, eq_iff s.session_id "s1", eq_iff s.session_id "s3")

decoded_as :
    (t u : Session) (body : String)
    → memory.json.unmarshal_session body ≡ ok t
    → memory.json.unmarshal_session body ≡ ok u
    → t.session_id ≡ u.session_id
decoded_as t u body decoded known = cc

codec-session_id :
    (s t : Session) (body : String)
    → memory.json.marshal_session s ≡ ok body
    → memory.json.unmarshal_session body ≡ ok t
    → t.session_id ≡ s.session_id
codec-session_id s t body encoded decoded = elim (encoded_as s body encoded) [
  | inl (one, inl early) ↦ decoded_as t (session_at 5) body decoded (rw early refl) ∙ sym one
  | inl (one, inr late) ↦ decoded_as t (session_at 9) body decoded (rw late refl) ∙ sym one
  | inr (three, body_3) ↦ decoded_as t dora_session body decoded (rw body_3 refl) ∙ sym three
]

pub memory-IsBackend : IsBackend ⦃x = memory⦄ session_keys
memory-IsBackend = record {
  database = memory-IsDatabase;
  separate = memory-IsSeparate;
  uuid = account_key-apart;
  json = codec-session_id;
}
