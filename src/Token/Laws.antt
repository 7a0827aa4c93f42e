-- ===== src/Token/Laws.antt =====
-- pkg/jwt: what is generated is parsed again, until it expires. What is assumed of golang-jwt is
-- the record `IsJwt`.
use accounts_service.Prelude.{ℕ, ◌+◌, ◌*◌, ◌/◌, ◌≤◌, ◌<◌, String, ◌≡◌, refl, some, arith}
use accounts_service.Models.Errors.{GoError, other_error}
use accounts_service.External.{External, Claims, JwtLibrary, SigningMethod, hmac, other_method}
use accounts_service.Effect.{Result, ok, err}
use accounts_service.Token

-- An instant, cut to whole seconds: what `jwt.NumericDate` keeps of it in a token, since
-- `jwt.TimePrecision` is a second and the program leaves it so.
abbrev pub whole_seconds : ℕ → ℕ
whole_seconds t = t / 1000000000 * 1000000000

-- The claims as a token carries them.
abbrev pub carried : Claims → Claims
carried c = record c {
  expires_at = whole_seconds c.expires_at;
  issued_at = whole_seconds c.issued_at;
}

-- An instant that 64 bits of nanoseconds can name, which is one before the year 2262.
abbrev pub IsInstant : ℕ → Type 0
IsInstant t = t < 9223372036854775808

-- What the documentation of golang-jwt says of HS256 tokens: the key function is called with the
-- method of the token's header, the signature is checked with its key, and a token is refused
-- from the instant of expiry that it carries. The value is valid UTF-8, as every text here.
pub record IsJwt {World : Type 0} (jwt : JwtLibrary World) (now : World → ℕ) : Type 0 where
  pub method_of : String → SigningMethod
  pub parse_signed :
      (c : Claims) (secret token : String) (key : SigningMethod → Result String) (w : World)
      → IsInstant c.expires_at
      → IsInstant c.issued_at
      → jwt.signed_string c secret ≡ ok token
      → key hmac ≡ ok secret
      → now w < whole_seconds c.expires_at
      → jwt.parse_with_claims token key w ≡ ok (some (carried c))
  pub parse_expired :
      (c : Claims) (secret token : String) (key : SigningMethod → Result String) (w : World)
      → IsInstant c.expires_at
      → jwt.signed_string c secret ≡ ok token
      → whole_seconds c.expires_at ≤ now w
      → (e : GoError) × (jwt.parse_with_claims token key w ≡ err e)
  pub parse_no_key :
      (token : String) (key : SigningMethod → Result String) (e : GoError) (w : World)
      → key (method_of token) ≡ err e
      → (e' : GoError) × (jwt.parse_with_claims token key w ≡ err e')

module _ ⦃x : External⦄ (laws : IsJwt x.jwt x.now) where
  -- A generated token gives its value back under the same secret until the end of its TTL, cut to
  -- whole seconds.
  pub parse_token-generate_token :
      (value secret token : String) (ttl : ℕ) (w w' : x.World)
      → IsInstant (x.now w + ttl)
      → Token.generate_token value secret ttl w ≡ ok token
      → x.now w' < whole_seconds (x.now w + ttl)
      → Token.parse_token token secret w' ≡ ok value
  unfolding Token.generate_token Token.parse_token Token.key_for
  parse_token-generate_token value secret token ttl w w' fits made early =
      let c : Claims = record { expires_at = x.now w + ttl; issued_at = x.now w; value = value } in
      let signed : x.jwt.signed_string c secret ≡ ok token = ground arith in
      rw (
        laws.parse_signed c secret token (Token.key_for secret) w' fits (omega arith) signed refl
            early,
        Token.parse_token,
      )

  -- From the end of its TTL on, cut to whole seconds, a generated token is refused under every
  -- secret.
  parse_token_expired :
      (value secret other token : String) (ttl : ℕ) (w w' : x.World)
      → IsInstant (x.now w + ttl)
      → Token.generate_token value secret ttl w ≡ ok token
      → whole_seconds (x.now w + ttl) ≤ x.now w'
      → (e : GoError) × (Token.parse_token token other w' ≡ err e)
  unfolding Token.generate_token Token.parse_token Token.key_for
  parse_token_expired value secret other token ttl w w' fits made late =
      let c : Claims = record { expires_at = x.now w + ttl; issued_at = x.now w; value = value } in
      let signed : x.jwt.signed_string c secret ≡ ok token = ground arith in
      let (e, refused) =
        laws.parse_expired c secret token (Token.key_for other) w' fits signed late in
      (e, rw (refused, Token.parse_token))

  -- A token whose header names another method than HMAC is refused under every secret.
  parse_token-other_method :
      (token secret : String) (w : x.World)
      → laws.method_of token ≡ other_method
      → (e : GoError) × (Token.parse_token token secret w ≡ err e)
  unfolding Token.parse_token Token.key_for
  parse_token-other_method token secret w named =
      let (e, refused) =
        laws.parse_no_key token (Token.key_for secret) (other_error "invalid signing method") w
          (rw named refl) in
      (e, rw (refused, Token.parse_token))
