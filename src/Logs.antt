-- ===== src/Logs.antt =====
-- `logError` of the repositories and of the events:
-- sessionsRepository.go and registrationRepository.go of internal/repository/redisrepository,
-- accountsRepository.go of internal/repository/postgresrepository,
-- accountsEvents.go and tokensDeliveryMQ.go of internal/events.
use accounts_service.Prelude.{String, Option, none, some}
use accounts_service.Models.Errors.{GoError, service_error, other_error, error_string}
use accounts_service.External.{External}

module _ ⦃x : External⦄ where
  -- `err.Error()`
  unfoldable pub error_text : GoError → String
  error_text (service_error e) = error_string e
  error_text (other_error msg) = msg
  error_text e = x.foreign_text e

  -- What the five `logError` do, by the text that each logs.
  unfoldable pub log_error : String → Option GoError → String → x.World → x.World
  unfolding error_text
  log_error text none method w = w
  log_error text (some (service_error e)) method w = x.log text method e.msg (some e.code) w
  log_error text (some e) method w = x.log text method (error_text e) none w

  -- `SessionsRepository.logError`
  abbrev pub log_sessions_error : Option GoError → String → x.World → x.World
  log_sessions_error = log_error "sessions repository error occurred"

  -- `RegistrationRepository.logError`
  abbrev pub log_registration_error : Option GoError → String → x.World → x.World
  log_registration_error = log_error "registration repository error occurred"

  -- `AccountsRepository.logError`
  abbrev pub log_accounts_error : Option GoError → String → x.World → x.World
  log_accounts_error = log_error "accounts repository error occurred"

  -- `accountsEvents.logError`
  abbrev pub log_events_error : Option GoError → String → x.World → x.World
  log_events_error = log_error "account events error occurred"

  -- `tokensDeliveryMQ.logError`
  abbrev pub log_delivery_error : Option GoError → String → x.World → x.World
  log_delivery_error = log_error "tokens delivery error occurred"
