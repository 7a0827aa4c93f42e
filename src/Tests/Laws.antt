-- ===== src/Tests/Laws.antt =====
-- The stand-ins meet the assumptions.
use accounts_service.Prelude.{
  inl, inr, ◌<◌, ◌≤◌, String, ◌≡◌, ◌≢◌, List, [], ◌∷◌, map, refl, ap, Option, none, some, eq_iff,
  arith, Bool, num_eq, ltb, ◌&&◌, ◌==◌, if◌then◌else◌,
}
use accounts_service.Models.Errors.{GoError, other_error}
use accounts_service.Effect.{Result, ok, err, Result-cases}
use accounts_service.External.{External, Claims, SigningMethod, hmac, JwtLibrary}
use accounts_service.External.Redis.{Keys, Entry, text, members, text_of, IsReachable}
use accounts_service.Redis.Sessions.Store.{IsStore}
use accounts_service.Token.Laws.{IsJwt, carried, whole_seconds}
use accounts_service.Tests.Memory.{World, Ctx, memory, value_of, session_server, method_of}

value_of-text : (e : Option Entry) (v : String) → text_of e ≡ some v → value_of e ≡ ok v
value_of-text none v h = cc
value_of-text (some (text t)) v h = cc
value_of-text (some (members vs)) v h = cc

abbrev pub session_keys : World → Keys
session_keys w = w.sessions

mget_some :
    (ctx : Ctx) (ks : List String) (w : World)
    → ks ≢ []
    → (session_server.mget ctx ks w).0 ≡ ok (map (λ k. text_of (w.sessions k)) ks)
mget_some ctx [] w h = absurd (h refl)
mget_some ctx (k ∷ ks) w h = refl

session_server-IsReachable : (ctx : Ctx) → IsReachable session_server ctx session_keys
session_server-IsReachable ctx = record {
  get_text = λ k v w h. value_of-text (w.sessions k) v h;
  get_none = λ k w h. rw h refl;
  keys-get = λ k w. refl;
  mget_lem = mget_some ctx;
  keys-mget = λ ks w. refl;
  smembers_lem = λ k w h. ground arith;
  keys-smembers = λ k w. refl;
  srem_lem = λ k gone w h. rw h refl;
  keys-srem = λ k gone w. refl;
  queue_lem = λ c. refl;
  exec_lem = λ cs w h. rw h refl;
  keys-exec = λ cs w. refl;
}

pub memory-IsStore : (ctx : Ctx) → IsStore ⦃x = memory⦄ ctx session_keys
memory-IsStore ctx = record {
  reachable = session_server-IsReachable ctx;
  live = λ w. refl;
  keys-log = λ text method msg c w. refl;
  keys-hits = λ m w. refl;
  keys-miss = λ m w. refl;
}

-- A library with one token, which is made at 9.5 seconds and valid for 5, and carries whole seconds.
abbrev made_claims : Claims
made_claims = record { expires_at = 14500000000; issued_at = 9500000000; value = "bob@example.org" }

abbrev is_made : Claims → Bool
is_made c =
    num_eq c.expires_at 14500000000
    && (num_eq c.issued_at 9500000000 && c.value == "bob@example.org")

abbrev second_tokens : JwtLibrary World
second_tokens = record {
  signed_string =
      λ c secret. if is_made c && secret == "key" then ok "token" else err (other_error "signing");
  parse_with_claims = λ t key w. elim (key (method_of t)) [
    | err e ↦ err e
    | ok secret ↦
        if (t == "token" && secret == "key") && ltb w.clock 14000000000
        then ok (some (carried made_claims))
        else err (other_error "token")
  ];
}

abbrev pub dated : External
dated = record memory { jwt = second_tokens }

signed_claims :
    (c : Claims) (secret token : String)
    → second_tokens.signed_string c secret ≡ ok token
    → (c ≡ made_claims) × (secret ≡ "key") × (token ≡ "token")
signed_claims c secret token h =
    ground (arith, eq_iff c.value "bob@example.org", eq_iff secret "key")

parse_made :
    (c : Claims) (secret token : String) (key : SigningMethod → Result String) (w : World)
    → second_tokens.signed_string c secret ≡ ok token
    → key hmac ≡ ok secret
    → w.clock < whole_seconds c.expires_at
    → second_tokens.parse_with_claims token key w ≡ ok (some (carried c))
parse_made c secret token key w made known early =
    let (same, named, spelled) = signed_claims c secret token made in
    let expires : whole_seconds c.expires_at ≡ 14000000000 =
      ap (λ (d : Claims). whole_seconds d.expires_at) same in
    let before : w.clock < 14000000000 = rw (← expires) early in
    let at = eq_iff token "token" in
    let by = eq_iff secret "key" in
    let known_here : key hmac ≡ ok "key" = rw (← named) known in
    rw (same, spelled, known_here) (ground arith)

parse_late :
    (c : Claims) (secret token : String) (key : SigningMethod → Result String) (w : World)
    → second_tokens.signed_string c secret ≡ ok token
    → whole_seconds c.expires_at ≤ w.clock
    → (e : GoError) × (second_tokens.parse_with_claims token key w ≡ err e)
parse_late c secret token key w made late =
    let (same, named, spelled) = signed_claims c secret token made in
    let expires : whole_seconds c.expires_at ≡ 14000000000 =
      ap (λ (d : Claims). whole_seconds d.expires_at) same in
    let after : 14000000000 ≤ w.clock = rw (← expires) late in
    elim (Result-cases (key (method_of token))) [
      | inr (e, unknown_key) ↦ (e, ground arith)
      | inl (found, known) ↦ (other_error "token", ground arith)
    ]

parse_without_key :
    (token : String) (key : SigningMethod → Result String) (e : GoError) (w : World)
    → key (method_of token) ≡ err e
    → (e' : GoError) × (second_tokens.parse_with_claims token key w ≡ err e')
parse_without_key token key e w unknown_key = (e, ground arith)

pub dated-IsJwt : IsJwt second_tokens (λ w. w.clock)
dated-IsJwt = record {
  method_of = method_of;
  parse_signed = λ c secret token key w fits issued made known early.
      parse_made c secret token key w made known early;
  parse_expired = λ c secret token key w fits made late. parse_late c secret token key w made late;
  parse_no_key = parse_without_key;
}
