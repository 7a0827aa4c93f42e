-- ===== src/Events.antt =====
-- internal/events: the messages to Kafka about accounts and about tokens to deliver.
pub mod Errors
use accounts_service.Prelude.{ℕ, String, ◌<>◌, Option, none, some}
use accounts_service.Models.{AccountCreatedDto}
use accounts_service.Models.Errors.{GoError, ErrorCode, service_error, error}
use accounts_service.External.{
  External, Message, TokenDeliveryRequest, AccountDeletedBody, KafkaWriter,
}
use accounts_service.Logs.{log_error, log_events_error, log_delivery_error}
use accounts_service.Effect.{Result, ok, err, M, Outcome, outcome_error, settle, crash, call}
use accounts_service.Redis.Handling.{context_code}

-- `handleError` converts what is no `ServiceError`, each writer with its own text.
unfoldable pub convert_error : String → GoError → GoError
convert_error msg (service_error e) = service_error e
convert_error msg _ = error ErrorCode.internal msg

module _ ⦃x : External⦄ where
  -- `getContextError`
  unfoldable context_error : x.Ctx → x.World → Option GoError
  unfolding context_code
  context_error ctx w = elim (x.ctx_err ctx w) [
    | some c ↦ some (error (context_code c) (x.ctx_err_text c))
    | none ↦ none
  ]

  -- `handleError` of either writer: the value of `err` after it.
  unfoldable pub handle_error : String → x.Ctx → x.World → Option GoError → Option GoError
  unfolding context_error convert_error
  handle_error msg ctx w e = elim (context_error ctx w) [
    | some c ↦ some c
    | none ↦ elim e [ none ↦ none | some e' ↦ some (convert_error msg e') ]
  ]

  -- The deferred calls of an operation: `logError` with the name of the method, then
  -- `handleError`. The argument of `logError` is evaluated at the `defer` statement, where `err`
  -- is nil.
  unfoldable pub with_handler :
      {A : Type 0}
      → (Option GoError → String → x.World → x.World)
      → String
      → String
      → x.Ctx
      → M x.World A
      → M x.World A
  unfolding handle_error
  with_handler log method msg ctx body w =
      let (r, ended) = body w in
      let w' = log none method ended in (settle r (handle_error msg ctx w' (outcome_error r)), w')

  -- Writes a marshalled body. `logger.Panic` panics if it could not be marshalled.
  unfoldable send :
      KafkaWriter x.World x.Ctx → x.Ctx → String → String → Result String → M x.World (Unit {0})
  send writer ctx topic key (err e) = crash
  send writer ctx topic key (ok body) =
      call (writer.write_messages ctx (record { topic = topic; key = key; value = body }))

  -- `AccountCreated`
  unfoldable pub account_created : x.Ctx → AccountCreatedDto → M x.World (Unit {0})
  unfolding with_handler send log_error
  account_created ctx account =
      with_handler log_events_error "AccountCreated" "error while sending event notification" ctx (
        send x.account_events ctx "account_created" ("account_" <> account.id)
          (x.json.marshal_account_created account))

  -- `AccountDeleted`
  unfoldable pub account_deleted : x.Ctx → String → String → M x.World (Unit {0})
  unfolding with_handler send log_error
  account_deleted ctx email account_id =
      with_handler log_events_error "AccountDeleted" "error while sending event notification" ctx (
        send x.account_events ctx "account_deleted" ("account_" <> account_id)
          (x.json.marshal_account_deleted (record { email = email; account_id = account_id })))

  -- The payload of both requests for a token's delivery.
  abbrev request_body : String → String → String → ℕ → Result String
  request_body email token callback_url ttl =
      x.json.marshal_token_request (record {
        email = email;
        token = token;
        callback_url = callback_url;
        callback_url_ttl = ttl;
      })

  -- `RequestEmailVerificationTokenDelivery`
  unfoldable pub request_email_verification :
      x.Ctx → String → String → String → ℕ → M x.World (Unit {0})
  unfolding with_handler send log_error
  request_email_verification ctx email token callback_url ttl =
      with_handler log_delivery_error "RequestEmailVerificationTokenDelivery"
        "error while sending message in MQ" ctx
        (send x.token_delivery ctx "email_verification_delivery_request" email
          (request_body email token callback_url ttl))

  -- `RequestChangePasswordTokenDelivery`
  unfoldable pub request_change_password :
      x.Ctx → String → String → String → ℕ → M x.World (Unit {0})
  unfolding with_handler send log_error
  request_change_password ctx email token callback_url ttl =
      with_handler log_delivery_error "RequestChangePasswordTokenDelivery"
        "error while sending message in MQ" ctx
        (send x.token_delivery ctx "password_change_delivery_request" email
          (request_body email token callback_url ttl))
