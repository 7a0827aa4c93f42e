-- ===== src/Handler/Inputs.antt =====
-- internal/handler/validation.go: exactly which inputs are accepted. A length counts bytes, and
-- both ends of each range are allowed.
use accounts_service.Prelude.{ℕ, ◌≤◌, String, len, none, some, ◌≡◌, ◌↔◌, eq_iff, arith}
use accounts_service.External.{External}
use accounts_service.Effect.{ok}
use accounts_service.Handler.Validation.{CreateAccountRequest, validate_signup_input}

abbrev IsBetween : ℕ → ℕ → String → Type 0
IsBetween lo hi s = (lo ≤ len s) × (len s ≤ hi)

module _ ⦃x : External⦄ where
  -- The passwords agree, the user name has 3 to 32 bytes, the password 6 to 32 and the email 4 to
  -- 100, and the email is an address.
  pub record IsAcceptable (input : CreateAccountRequest) : Type 0 where
    pub repeated : input.password ≡ input.repeat_password
    pub username : IsBetween 3 32 input.username
    pub password : IsBetween 6 32 input.password
    pub email : IsBetween 4 100 input.email
    pub address : x.parse_address input.email ≡ ok tt

  -- The validation of a sign-up passes exactly if the passwords agree, the user name has 3 to 32
  -- bytes, the password 6 to 32 and the email 4 to 100, and the email is an address.
  pub validate_signup_input_iff :
      (input : CreateAccountRequest)
      → (validate_signup_input (some input) ≡ none) ↔ IsAcceptable input
  unfolding validate_signup_input
  validate_signup_input_iff input = (
    λ h.
        let same = eq_iff input.password input.repeat_password in
        record {
          repeated = ground arith;
          username = (ground arith, ground arith);
          password = (ground arith, ground arith);
          email = (ground arith, ground arith);
          address = ground arith;
        },
    λ h. ground (arith, eq_iff input.password input.repeat_password),
  )
