-- ===== src/External.antt =====
-- What the program calls and does not implement, as parameters: the clients of Redis, of the SQL
-- database and of Kafka, the crypto, JWT, JSON and gRPC packages, the clock and the metrics.
-- `World` is the state of everything outside the program; each call may change it.
pub mod Redis
use accounts_service.Prelude.{ℕ, String, Bool, Option, List}
use accounts_service.Models.{Account, RegisteredAccount, AccountCreatedDto, Session}
use accounts_service.Models.Errors.{GoError, ErrorCode}
use accounts_service.Effect.{Result}
use Redis.{RedisClient}

-- `ctx.Err()`: context.Canceled, context.DeadlineExceeded or another error.
pub data CtxError : Type 0 where
  context_canceled context_deadline_exceeded context_other : CtxError

-- The arguments of an SQL query.
pub data SqlValue : Type 0 where
  text : String → SqlValue
  instant : ℕ → SqlValue

-- The calls of sqlx and database/sql, by the query's text.
pub record SqlClient (World Ctx Tx SqlResult : Type 0) : Type 0 where
  pub begin_tx : Ctx → World → Result Tx × World
  pub tx_query_row_scan : Ctx → Tx → String → List SqlValue → World → Result String × World
  pub tx_exec : Ctx → Tx → String → List SqlValue → World → Result SqlResult × World
  pub rollback : Tx → World → Result (Unit {0}) × World
  pub commit : Tx → World → Result (Unit {0}) × World
  pub get_string : Ctx → String → List SqlValue → World → Result String × World
  pub get_account : Ctx → String → List SqlValue → World → Result Account × World
  pub exec : Ctx → String → List SqlValue → World → Result SqlResult × World
  pub rows_affected : SqlResult → Result ℕ

-- `kafka.Message` and `Writer.WriteMessages`.
pub record Message : Type 0 where
  pub topic : String
  pub key : String
  pub value : String

pub record KafkaWriter (World Ctx : Type 0) : Type 0 where
  pub write_messages : Ctx → Message → World → Result (Unit {0}) × World

-- The payload of a token request, events/tokensDeliveryMQ.go.
pub record TokenDeliveryRequest : Type 0 where
  pub email : String
  pub token : String
  pub callback_url : String
  pub callback_url_ttl : ℕ

-- The payload of an account_deleted event, events/accountsEvents.go.
pub record AccountDeletedBody : Type 0 where
  pub email : String
  pub account_id : String

-- `json.Marshal` and `json.Unmarshal` at the types that the program uses.
pub record JsonCodec : Type 0 where
  pub marshal_session : Session → Result String
  pub unmarshal_session : String → Result Session
  pub marshal_registered : RegisteredAccount → Result String
  pub unmarshal_registered : String → Result RegisteredAccount
  pub marshal_account_created : AccountCreatedDto → Result String
  pub marshal_account_deleted : AccountDeletedBody → Result String
  pub marshal_token_request : TokenDeliveryRequest → Result String

-- pkg/jwt `Claims`, and the calls of golang-jwt. A key function is given the token's method;
-- `none` stands for claims that are not of type `*Claims`.
pub record Claims : Type 0 where
  pub expires_at : ℕ
  pub issued_at : ℕ
  pub value : String

pub data SigningMethod : Type 0 where
  hmac other_method : SigningMethod

pub record JwtLibrary (World : Type 0) : Type 0 where
  pub signed_string : Claims → String → Result String
  pub parse_with_claims : String → (SigningMethod → Result String) → World → Result (Option Claims)

-- `bcrypt.GenerateFromPassword` (which draws a salt) and `bcrypt.CompareHashAndPassword`.
pub record BcryptLibrary (World : Type 0) : Type 0 where
  pub generate_from_password : String → ℕ → World → Result String × World
  pub compare_hash_and_password : String → String → Result (Unit {0})

pub record External : Type 1 where
  pub World : Type 0
  pub Ctx : Type 0
  pub Tx : Type 0
  pub SqlResult : Type 0
  pub background : Ctx
  pub ctx_err : Ctx → World → Option CtxError
  pub ctx_err_text : CtxError → String
  -- `err.Error()` of an error that is not the program's own.
  pub foreign_text : GoError → String
  -- `metadata.FromIncomingContext`, with `MD.Get`.
  pub incoming_metadata : Ctx → Option (String → List String)
  -- `grpc.SetHeader(ctx, metadata.Pairs(key, value))`
  pub set_header : Ctx → String → String → World → Result (Unit {0}) × World
  pub now : World → ℕ
  pub sleep : ℕ → World → World
  pub new_uuid : World → String × World
  pub inc_cache_hits : String → World → World
  pub inc_cache_miss : String → World → World
  -- `logger.WithFields(…).Error(text)`: the text, the function's name, the message and the code,
  -- if there is one.
  pub log : String → String → String → Option ErrorCode → World → World
  -- `net.ParseIP(s) != nil`
  pub parse_ip : String → Bool
  -- `mail.ParseAddress`
  pub parse_address : String → Result (Unit {0})
  pub registration : RedisClient World Ctx
  pub sessions : RedisClient World Ctx
  pub sql : SqlClient World Ctx Tx SqlResult
  pub account_events : KafkaWriter World Ctx
  pub token_delivery : KafkaWriter World Ctx
  pub json : JsonCodec
  pub jwt : JwtLibrary World
  pub bcrypt : BcryptLibrary World
