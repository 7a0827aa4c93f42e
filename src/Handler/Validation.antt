-- ===== src/Handler/Validation.antt =====
-- internal/handler/validation.go. A length is a number of bytes. `none` is a nil error or, for a
-- request, a nil request.
use accounts_service.Prelude.{String, len, not, ◌||◌, Option, none, some, ltb, ◌==◌, if◌then◌else◌}
use accounts_service.Models.Errors.{GoError, other_error}
use accounts_service.External.{External}
use accounts_service.Effect.{ok, err}

-- protos `CreateAccountRequest`
pub record CreateAccountRequest : Type 0 where
  pub email : String
  pub username : String
  pub password : String
  pub repeat_password : String

-- `validateUsername`
unfoldable validate_username : String → Option GoError
validate_username username =
    if ltb (len username) 3 || ltb 32 (len username)
    then some (other_error "username must be less than 32 symbols and more than 3")
    else none

-- `validatePassword`
unfoldable pub validate_password : String → Option GoError
validate_password password =
    if ltb (len password) 6 || ltb 32 (len password)
    then some (other_error "password must be less than 32 symbols and more than 6")
    else none

-- `if err := a; err != nil { return err }` and then the rest.
abbrev or_next : Option GoError → Option GoError → Option GoError
or_next (some e) rest = some e
or_next none rest = rest

module _ ⦃x : External⦄ where
  -- `validateEmail`
  unfoldable pub validate_email : String → Option GoError
  validate_email email =
      if ltb 100 (len email) || ltb (len email) 4
      then some (other_error "email must be less than 100 symbols and more than 4")
      else elim (x.parse_address email) [ ok _ ↦ none | err e ↦ some e ]

  -- `validateSignupInput`
  unfoldable pub validate_signup_input : Option CreateAccountRequest → Option GoError
  unfolding validate_username validate_password validate_email
  validate_signup_input none = some (other_error "request body not valid")
  validate_signup_input (some input) =
      if not (input.password == input.repeat_password)
      then some (other_error "passwords don't match")
      else or_next (validate_username input.username)
          (or_next (validate_password input.password) (validate_email input.email))
