-- ===== src/Token.antt =====
-- pkg/jwt/jwt.go: tokens that carry one value, signed by HMAC.
pub mod Laws
use accounts_service.Prelude.{ℕ, ◌+◌, String, Option, none, some}
use accounts_service.Models.Errors.{GoError, other_error}
use accounts_service.External.{External, Claims, SigningMethod, hmac, other_method}
use accounts_service.Effect.{Result, ok, err}

-- The key function of `ParseToken`.
unfoldable pub key_for : String → SigningMethod → Result String
key_for secret hmac = ok secret
key_for secret other_method = err (other_error "invalid signing method")

module _ ⦃x : External⦄ where
  -- `ParseToken`
  unfoldable pub parse_token : String → String → x.World → Result String
  unfolding key_for
  parse_token token secret w = elim (x.jwt.parse_with_claims token (key_for secret) w) [
    | err e ↦ err e
    | ok none ↦ err (other_error "token claims are not of type")
    | ok (some claims) ↦ ok claims.value
  ]

  -- `GenerateToken`
  unfoldable pub generate_token : String → String → ℕ → x.World → Result String
  generate_token value secret ttl w =
      let claims : Claims = record {
        expires_at = x.now w + ttl;
        issued_at = x.now w;
        value = value;
      } in
      elim (x.jwt.signed_string claims secret) [
        | err e ↦ err (other_error "can't create token")
        | ok token ↦ ok token
      ]
