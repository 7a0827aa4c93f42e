-- ===== src/Postgres/Removal.antt =====
-- internal/repository/postgresrepository/accountsRepository.go: the table of the accounts, and what
-- the transaction of `DeleteAccount` makes of it.
use accounts_service.Prelude.{
  String, Option, none, some, List, [], ◌∷◌, ◌==◌, if◌then◌else◌, ◌≡◌, ◌≢◌, eq_iff, ◌∙◌, inl, inr,
  ap, sym, arith,
}
use accounts_service.Models.{Account}
use accounts_service.Logs.{log_error}
use accounts_service.External.{External, Message, SqlValue, text}
use accounts_service.Effect.{ok, done, Result-cases}
use accounts_service.Postgres.{
  delete_query, email_query, delete_account, delete_row, roll_back, log_handled, get_account_email,
}

-- What is left of a row when the account with that id is deleted.
abbrev pub without : String → Option Account → Option Account
without id none = none
without id (some a) = if a.id == id then none else some a

pub without-other :
    (id : String) (row : Option Account) (a : Account) → without id row ≡ some a → a.id ≢ id
without-other id none a left same = cc
without-other id (some b) a left same =
    let branch : (if b.id == id then none else some b) ≡ some a = left in
    ground (arith, eq_iff b.id id)

-- The rows by their email, as a query reads them, while nothing else writes to the table.
pub record IsRemoval ⦃x : External⦄ (rows : x.World → String → Option Account) : Type 0 where
  -- How Postgres writes the uuid that a text spells; of a text that spells none a query makes an
  -- error.
  pub uuid_text : String → String
  -- `SELECT email … WHERE id`
  pub email_sound :
      (ctx : x.Ctx) (id email : String) (w : x.World)
      → (x.sql.get_string ctx email_query (text id ∷ []) w).0 ≡ ok email
      → (a : Account) × (rows w email ≡ some a) × (a.id ≡ uuid_text id)
  -- `DELETE … WHERE id` in a transaction that is committed, a message to Kafka in between.
  pub removed :
      (ctx : x.Ctx) (id : String) (tx : x.Tx) (res : x.SqlResult) (m : Message) (w : x.World)
      → let began = x.sql.begin_tx ctx w in
        let executed = x.sql.tx_exec ctx tx delete_query (text id ∷ []) began.1 in
        let sent = x.account_events.write_messages ctx m executed.1 in
        let committed = x.sql.commit tx sent.1 in
        began.0 ≡ ok tx
        → executed.0 ≡ ok res
        → committed.0 ≡ ok tt
        → (e : String) → rows committed.1 e ≡ without (uuid_text id) (rows w e)
  -- A query and a read of the sessions leave the table alone.
  pub rows-get_string :
      (ctx : x.Ctx) (query : String) (vs : List SqlValue) (w : x.World)
      → rows (x.sql.get_string ctx query vs w).1 ≡ rows w
  pub rows-session_get :
      (ctx : x.Ctx) (k : String) (w : x.World) → rows (x.sessions.get ctx k w).1 ≡ rows w

module _ ⦃x : External⦄ (rows : x.World → String → Option Account) (t : IsRemoval rows) where
  pub get_account_email_done :
      (ctx : x.Ctx) (id email : String) (w : x.World)
      → (get_account_email ctx id w).0 ≡ done email
      → (rows (get_account_email ctx id w).1 ≡ rows w)
        × (a : Account) × (rows w email ≡ some a)
        × (a.id ≡ t.uuid_text id)
  unfolding get_account_email log_handled log_error
  get_account_email_done ctx id email w found =
      let got : (x.sql.get_string ctx email_query (text id ∷ []) w).0 ≡ ok email = ground arith in
      let final : (get_account_email ctx id w).1
          ≡ (x.sql.get_string ctx email_query (text id ∷ []) w).1 =
        ground arith in
      let (a, row, same) = t.email_sound ctx id email w got in
      (ap rows final ∙ t.rows-get_string ctx email_query (text id ∷ []) w, a, row, same)

  -- If `DeleteAccount` has given a transaction and that is committed after a message, no row with
  -- that id is left, and all others are as they were.
  pub delete_account_removes :
      (ctx : x.Ctx) (id : String) (tx : x.Tx) (m : Message) (w : x.World)
      → (delete_account ctx id w).0 ≡ done (some tx)
      → let sent = x.account_events.write_messages ctx m (delete_account ctx id w).1 in
        let committed = x.sql.commit tx sent.1 in
        committed.0 ≡ ok tt
        → (e : String) → rows committed.1 e ≡ without (t.uuid_text id) (rows w e)
  unfolding delete_account delete_row log_handled log_error roll_back
  delete_account_removes ctx id tx m w made committed =
      elim (Result-cases (x.sql.begin_tx ctx w).0) [
        | inr (e, failed) ↦ absurd (ground arith)
        | inl (tx', began) ↦
            let w1 = (x.sql.begin_tx ctx w).1 in
            elim (Result-cases (x.sql.tx_exec ctx tx' delete_query (text id ∷ []) w1).0) [
              | inr (e, failed) ↦
                  let w2 = (x.sql.tx_exec ctx tx' delete_query (text id ∷ []) w1).1 in
                  elim (Result-cases (x.sql.rollback tx' w2).0) [
                    | inl (_, undone) ↦ absurd (ground arith)
                    | inr (e', lost) ↦ absurd (ground arith)
                  ]
              | inl (res, executed) ↦
                  let w2 = (x.sql.tx_exec ctx tx' delete_query (text id ∷ []) w1).1 in
                  let final : (delete_account ctx id w).1 ≡ w2 = ground arith in
                  let same : tx' ≡ tx = ground arith in
                  let sent : x.World → x.World = λ v. (x.account_events.write_messages ctx m v).1 in
                  let fits : (x.sql.commit tx' (sent w2)).0 ≡ ok tt =
                    ap (λ r. (x.sql.commit r (sent w2)).0) same
                    ∙ ap (λ v. (x.sql.commit tx (sent v)).0) (sym final)
                    ∙ committed in
                  λ e. rw (final, ← same) (t.removed ctx id tx' res m w began executed fits e)
            ]
      ]
