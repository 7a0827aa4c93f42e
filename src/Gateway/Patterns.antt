-- ===== src/Gateway/Patterns.antt =====
-- pkg/accounts_service/v1/protos/accounts_service_v1.pb.gw.go: the patterns of the routes.
use accounts_service.Prelude.{[], ◌∷◌}
use accounts_service.Gateway.{Pattern}

-- `pattern_AccountsServiceV1_CreateAccount_0`
abbrev pub create_account_pattern : Pattern
create_account_pattern = record {
  version = 1;
  ops = 2 ∷ 0 ∷ 2 ∷ 1 ∷ [];
  pool = "v1" ∷ "sign-up" ∷ [];
  verb = "";
}

-- `pattern_AccountsServiceV1_DeleteAccount_0`
abbrev pub delete_account_pattern : Pattern
delete_account_pattern = record {
  version = 1;
  ops = 2 ∷ 0 ∷ 2 ∷ 1 ∷ [];
  pool = "v1" ∷ "account" ∷ [];
  verb = "";
}

-- `pattern_AccountsServiceV1_RequestAccountVerificationToken_0`
abbrev pub request_account_verification_token_pattern : Pattern
request_account_verification_token_pattern = record {
  version = 1;
  ops = 2 ∷ 0 ∷ 2 ∷ 1 ∷ [];
  pool = "v1" ∷ "verification" ∷ [];
  verb = "";
}

-- `pattern_AccountsServiceV1_VerifyAccount_0`
abbrev pub verify_account_pattern : Pattern
verify_account_pattern = record {
  version = 1;
  ops = 2 ∷ 0 ∷ 2 ∷ 1 ∷ 1 ∷ 0 ∷ 4 ∷ 1 ∷ 5 ∷ 2 ∷ [];
  pool = "v1" ∷ "verification" ∷ "VerificationToken" ∷ [];
  verb = "";
}

-- `pattern_AccountsServiceV1_SignIn_0`
abbrev pub sign_in_pattern : Pattern
sign_in_pattern = record {
  version = 1;
  ops = 2 ∷ 0 ∷ 2 ∷ 1 ∷ [];
  pool = "v1" ∷ "sign-in" ∷ [];
  verb = "";
}

-- `pattern_AccountsServiceV1_GetAccountID_0`
abbrev pub get_account_id_pattern : Pattern
get_account_id_pattern = record {
  version = 1;
  ops = 2 ∷ 0 ∷ 2 ∷ 1 ∷ [];
  pool = "v1" ∷ "account-id" ∷ [];
  verb = "";
}

-- `pattern_AccountsServiceV1_Logout_0`
abbrev pub logout_pattern : Pattern
logout_pattern = record {
  version = 1;
  ops = 2 ∷ 0 ∷ 2 ∷ 1 ∷ [];
  pool = "v1" ∷ "logout" ∷ [];
  verb = "";
}

-- `pattern_AccountsServiceV1_RequestChangePasswordToken_0`
abbrev pub request_change_password_token_pattern : Pattern
request_change_password_token_pattern = record {
  version = 1;
  ops = 2 ∷ 0 ∷ 2 ∷ 1 ∷ 2 ∷ 2 ∷ [];
  pool = "v1" ∷ "change" ∷ "password" ∷ [];
  verb = "";
}

-- `pattern_AccountsServiceV1_ChangePassword_0`
abbrev pub change_password_pattern : Pattern
change_password_pattern = record {
  version = 1;
  ops = 2 ∷ 0 ∷ 2 ∷ 1 ∷ [];
  pool = "v1" ∷ "change-password" ∷ [];
  verb = "";
}

-- `pattern_AccountsServiceV1_GetAllSessions_0`
abbrev pub get_all_sessions_pattern : Pattern
get_all_sessions_pattern = record {
  version = 1;
  ops = 2 ∷ 0 ∷ 2 ∷ 1 ∷ [];
  pool = "v1" ∷ "sessions" ∷ [];
  verb = "";
}

-- `pattern_AccountsServiceV1_TerminateSessions_0`
abbrev pub terminate_sessions_pattern : Pattern
terminate_sessions_pattern = record {
  version = 1;
  ops = 2 ∷ 0 ∷ 2 ∷ 1 ∷ 2 ∷ 2 ∷ [];
  pool = "v1" ∷ "sessions" ∷ "terminate" ∷ [];
  verb = "";
}
