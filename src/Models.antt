-- ===== src/Models.antt =====
-- internal/models: the accounts, the sessions, the data transfer objects and the service's
-- errors. Instants and durations are numbers of nanoseconds.
pub mod Errors
use accounts_service.Prelude.{ℕ, String}

pub record Account : Type 0 where
  pub id : String
  pub email : String
  pub password : String
  pub registration_date : ℕ

pub record RegisteredAccount : Type 0 where
  pub username : String
  pub password : String

pub record AccountCreatedDto : Type 0 where
  pub id : String
  pub username : String
  pub email : String
  pub registration_date : ℕ

pub record CreateAccountDto : Type 0 where
  pub email : String
  pub username : String
  pub password : String

pub record Session : Type 0 where
  pub session_id : String
  pub account_id : String
  pub machine_id : String
  pub client_ip : String
  pub last_activity : ℕ

pub record SessionInfo : Type 0 where
  pub client_ip : String
  pub machine_id : String
  pub last_activity : ℕ

pub record SignInDto : Type 0 where
  pub email : String
  pub password : String
  pub client_ip : String
  pub machine_id : String
