-- ===== src/Postgres.antt =====
-- internal/repository/postgresrepository/accountsRepository.go: the verified accounts. The SQL
-- text is handed to the client as it stands.

pub mod Errors
pub mod Table
pub mod Removal
use accounts_service.Prelude.{
  ℕ, String, Bool, true, false, Option, none, some, [], ◌∷◌, num_eq, if◌then◌else◌,
}
use accounts_service.Models.{Account}
use accounts_service.Models.Errors.{GoError, ErrorCode, service_error, no_rows, other_error, error}
use accounts_service.External.{External, SqlValue, text, instant}
use accounts_service.Effect.{
  Result, ok, err, M, Outcome, done, fail, outcome_error, settle, pure, throw, call, from_result,
  ◌>>=◌,
}
use accounts_service.Logs.{log_error, log_accounts_error}
use accounts_service.Redis.Handling.{context_code}

-- The conversion in `handleError`: an error that is no `ServiceError` becomes one.
unfoldable pub convert_error : GoError → GoError
convert_error (service_error e) = service_error e
convert_error no_rows = error ErrorCode.not_found "account not found"
convert_error _ = error ErrorCode.internal "repository internal error"

abbrev pub insert_query : String
insert_query =
    "INSERT INTO accounts (email, password_hash, registration_date)\n        VALUES ($1, $2, $3) RETURNING id;"

abbrev pub exist_query : String
exist_query = "SELECT id FROM accounts WHERE email=$1 LIMIT 1;"

abbrev pub account_query : String
account_query = "SELECT * FROM accounts WHERE email=$1 LIMIT 1;"

abbrev pub password_query : String
password_query = "UPDATE accounts SET password_hash=$1 WHERE email=$2;"

abbrev pub delete_query : String
delete_query = "DELETE FROM accounts WHERE id=$1"

abbrev email_query : String
email_query = "SELECT email FROM accounts WHERE id=$1"

module _ ⦃x : External⦄ where
  -- `handleError`: the value of `err` after it.
  unfoldable pub handle_error : x.Ctx → x.World → Option GoError → Option GoError
  unfolding convert_error context_code
  handle_error ctx w e = elim (x.ctx_err ctx w) [
    | some c ↦ some (error (context_code c) (x.ctx_err_text c))
    | none ↦ elim e [ none ↦ none | some e' ↦ some (convert_error e') ]
  ]

  -- What `handleError` logs: the error of the context, or the error that it is given.
  unfoldable log_handled : x.Ctx → Option GoError → String → x.World → x.World
  unfolding context_code log_error
  log_handled ctx e method w = elim (x.ctx_err ctx w) [
    | some c ↦ log_accounts_error (some (error (context_code c) (x.ctx_err_text c))) method w
    | none ↦ log_accounts_error e method w
  ]

  -- `defer r.handleError(ctx, &err, …)`
  unfoldable pub with_handler : {A : Type 0} → x.Ctx → String → M x.World A → M x.World A
  unfolding handle_error log_handled
  with_handler ctx method body w =
      let (r, w') = body w in
      let e = outcome_error r in (settle r (handle_error ctx w' e), log_handled ctx e method w')

  -- `err = tx.Rollback(); return`: the transaction stays nil, and the error is that of the
  -- rollback, which is nil as a rule.
  unfoldable roll_back : {A : Type 0} → x.Tx → A → M x.World A
  roll_back tx zero_values w =
      let (r, w') = x.sql.rollback tx w in
      elim r [ ok _ ↦ (done zero_values, w') | err e ↦ (fail e, w') ]

  -- `CreateAccount` gives the transaction, nil or not, and the id.
  unfoldable insert_row : x.Ctx → Account → x.Tx → M x.World (Option x.Tx × String)
  unfolding roll_back
  insert_row ctx account tx w =
      let (scanned, w') =
        x.sql.tx_query_row_scan ctx tx insert_query
          (text account.email ∷ text account.password ∷ instant account.registration_date ∷ []) w in
      elim scanned [ err e ↦ roll_back tx (none, "") w' | ok id ↦ (done (some tx, id), w') ]

  unfoldable pub create_account : x.Ctx → Account → M x.World (Option x.Tx × String)
  unfolding with_handler insert_row
  create_account ctx account =
      with_handler ctx "CreateAccount" (call (x.sql.begin_tx ctx) >>= insert_row ctx account)

  -- `IsAccountWithEmailExist`: only a failure other than "no rows" goes through `handleError`.
  unfoldable pub is_account_with_email_exist : x.Ctx → String → M x.World Bool
  unfolding handle_error log_handled
  is_account_with_email_exist ctx email w =
      let (r, w') = x.sql.get_string ctx exist_query (text email ∷ []) w in
      elim r [
        | ok id ↦ (done true, w')
        | err no_rows ↦ (done false, w')
        | err e ↦ (
          settle (fail e) (handle_error ctx w' (some e)),
          log_handled ctx (some e) "IsAccountWithEmailExist" w',
        )
      ]

  -- `GetAccountByEmail`
  unfoldable pub get_account_by_email : x.Ctx → String → M x.World Account
  unfolding with_handler
  get_account_by_email ctx email =
      with_handler ctx "GetAccountByEmail"
        (call (x.sql.get_account ctx account_query (text email ∷ [])))

  -- `ChangePassword`
  unfoldable check_affected : Result ℕ → M x.World (Unit {0})
  check_affected (err e) = throw (other_error "rows are not affected")
  check_affected (ok num) =
      if num_eq num 0 then throw (other_error "rows are not affected") else pure tt

  unfoldable pub change_password : x.Ctx → String → String → M x.World (Unit {0})
  unfolding with_handler check_affected
  change_password ctx email password_hash = with_handler ctx "ChangePassword" do
    res ← call (x.sql.exec ctx password_query (text password_hash ∷ text email ∷ []))
    check_affected (x.sql.rows_affected res)

  -- `DeleteAccount` gives the transaction, nil or not.
  unfoldable delete_row : x.Ctx → String → x.Tx → M x.World (Option x.Tx)
  unfolding roll_back
  delete_row ctx account_id tx w =
      let (executed, w') = x.sql.tx_exec ctx tx delete_query (text account_id ∷ []) w in
      elim executed [ err e ↦ roll_back tx none w' | ok _ ↦ (done (some tx), w') ]

  unfoldable pub delete_account : x.Ctx → String → M x.World (Option x.Tx)
  unfolding with_handler delete_row
  delete_account ctx account_id =
      with_handler ctx "DeleteAccount" (call (x.sql.begin_tx ctx) >>= delete_row ctx account_id)

  -- `GetAccountEmail`
  unfoldable pub get_account_email : x.Ctx → String → M x.World String
  unfolding with_handler
  get_account_email ctx account_id =
      with_handler ctx "GetAccountEmail"
        (call (x.sql.get_string ctx email_query (text account_id ∷ [])))
