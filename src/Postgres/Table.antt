-- ===== src/Postgres/Table.antt =====
-- internal/repository/postgresrepository/accountsRepository.go: the table of the accounts, and what
-- reading a row and changing its password make of it.
use accounts_service.Prelude.{
  ap, sym, ◌∙◌, ℕ, String, Option, some, [], ◌∷◌, ◌==◌, if◌then◌else◌, ◌≡◌, ◌≢◌, inl, inr, eq_refl,
  eq_iff, refl, num_eq, false, Bool-cases, arith,
}
use accounts_service.Models.{Account}
use accounts_service.Logs.{log_error}
use accounts_service.External.{External, Message, text, instant}
use accounts_service.Effect.{ok, done, Result-cases}
use accounts_service.Postgres.{
  account_query, password_query, get_account_by_email, change_password, log_handled, create_account,
  insert_row, roll_back, insert_query,
}

-- The rows by their email, which accounts_db/db/up.sql declares unique, as a query reads them. What
-- is assumed holds while nothing but the program's own call writes to the table.
pub record IsTable ⦃x : External⦄ (rows : x.World → String → Option Account) : Type 0 where
  pub get_sound :
      (ctx : x.Ctx) (email : String) (a : Account) (w : x.World)
      → (x.sql.get_account ctx account_query (text email ∷ []) w).0 ≡ ok a
      → rows w email ≡ some a
  -- `UPDATE` of a row that is there.
  pub updated :
      (ctx : x.Ctx) (hash email : String) (res : x.SqlResult) (n : ℕ) (w : x.World)
      → let after = x.sql.exec ctx password_query (text hash ∷ text email ∷ []) w in
        after.0 ≡ ok res
        → x.sql.rows_affected res ≡ ok n
        → num_eq n 0 ≡ false
        → (a : Account) × (rows w email ≡ some a)
          × ((e : String)
              → rows after.1 e
                ≡ (if e == email then some (record a { password = hash }) else rows w e))
  -- `INSERT` in a transaction that is committed. Of the registration date only the day is stored.
  pub inserted :
      (ctx : x.Ctx) (a : Account) (tx : x.Tx) (id : String) (w : x.World)
      → let began = x.sql.begin_tx ctx w in
        let vs = text a.email ∷ text a.password ∷ instant a.registration_date ∷ [] in
        let scanned = x.sql.tx_query_row_scan ctx tx insert_query vs began.1 in
        let committed = x.sql.commit tx scanned.1 in
        began.0 ≡ ok tx
        → scanned.0 ≡ ok id
        → committed.0 ≡ ok tt
        → (stored : Account) × (rows committed.1 a.email ≡ some stored)
          × (stored.id ≡ id)
          × (stored.email ≡ a.email)
          × (stored.password ≡ a.password)
  -- The events, the registrations and the metrics leave the table alone.
  pub rows-account_events :
      (ctx : x.Ctx) (m : Message) (w : x.World)
      → rows (x.account_events.write_messages ctx m w).1 ≡ rows w
  pub rows-registration_del :
      (ctx : x.Ctx) (k : String) (w : x.World) → rows (x.registration.del ctx k w).1 ≡ rows w
  pub rows-hits : (method : String) (w : x.World) → rows (x.inc_cache_hits method w) ≡ rows w

module _ ⦃x : External⦄ (rows : x.World → String → Option Account) (t : IsTable rows) where
  -- What is found is the row.
  pub get_account_by_email_done :
      (ctx : x.Ctx) (email : String) (a : Account) (w : x.World)
      → (get_account_by_email ctx email w).0 ≡ done a
      → rows w email ≡ some a
  unfolding get_account_by_email
  get_account_by_email_done ctx email a w found = t.get_sound ctx email a w (ground arith)

  -- If `ChangePassword` succeeds, the row was there; it has the new hash, and is otherwise as it was,
  -- and no other row has changed.
  pub change_password_updates :
      (ctx : x.Ctx) (email hash : String) (w : x.World)
      → (change_password ctx email hash w).0 ≡ done tt
      → let after = rows (change_password ctx email hash w).1 in
        (a : Account) × (rows w email ≡ some a)
        × (after email ≡ some (record a { password = hash }))
        × ((e : String) → e ≢ email → after e ≡ rows w e)
  unfolding change_password log_handled log_error
  change_password_updates ctx email hash w changed =
      let vs = text hash ∷ text email ∷ [] in
      elim (Result-cases (x.sql.exec ctx password_query vs w).0) [
        | inr (e, failed) ↦ absurd (ground arith)
        | inl (res, executed) ↦ elim (Result-cases (x.sql.rows_affected res)) [
          | inr (e, unknown) ↦ absurd (ground arith)
          | inl (n, counted) ↦ elim (Bool-cases (num_eq n 0)) [
            | inl none_changed ↦ absurd (ground arith)
            | inr some_changed ↦
                let (a, was, is) = t.updated ctx hash email res n w executed counted some_changed in
                let w1 = (x.sql.exec ctx password_query vs w).1 in
                let final : (change_password ctx email hash w).1 ≡ w1 = ground arith in
                let here : rows w1 email ≡ some (record a { password = hash }) =
                  rw (is email, eq_refl email) refl in
                (a, was, rw final here, λ e other. rw final (ground (arith, is e, eq_iff e email)))
          ]
        ]
      ]

  -- If `CreateAccount` has given a transaction and that is committed, the row is there.
  pub create_account_inserts :
      (ctx : x.Ctx) (a : Account) (tx : x.Tx) (id : String) (w : x.World)
      → (create_account ctx a w).0 ≡ done (some tx, id)
      → let committed = x.sql.commit tx (create_account ctx a w).1 in
        committed.0 ≡ ok tt
        → (stored : Account) × (rows committed.1 a.email ≡ some stored)
          × (stored.id ≡ id)
          × (stored.email ≡ a.email)
          × (stored.password ≡ a.password)
  unfolding create_account insert_row log_handled log_error roll_back
  create_account_inserts ctx a tx id w made committed =
      let vs = text a.email ∷ text a.password ∷ instant a.registration_date ∷ [] in
      elim (Result-cases (x.sql.begin_tx ctx w).0) [
        | inr (e, failed) ↦ absurd (ground arith)
        | inl (tx', began) ↦
            let w1 = (x.sql.begin_tx ctx w).1 in
            elim (Result-cases (x.sql.tx_query_row_scan ctx tx' insert_query vs w1).0) [
              | inr (e, failed) ↦
                  let w2 = (x.sql.tx_query_row_scan ctx tx' insert_query vs w1).1 in
                  elim (Result-cases (x.sql.rollback tx' w2).0) [
                    | inl (_, undone) ↦ absurd (ground arith)
                    | inr (e', lost) ↦ absurd (ground arith)
                  ]
              | inl (id', scanned) ↦
                  let w2 = (x.sql.tx_query_row_scan ctx tx' insert_query vs w1).1 in
                  let final : (create_account ctx a w).1 ≡ w2 = ground arith in
                  let tx_same : tx' ≡ tx = ground arith in
                  let id_same : id' ≡ id = ground arith in
                  let fits : (x.sql.commit tx' w2).0 ≡ ok tt =
                    ap (λ r. (x.sql.commit r w2).0) tx_same
                    ∙ ap (λ v. (x.sql.commit tx v).0) (sym final)
                    ∙ committed in
                  rw (final, ← tx_same, ← id_same) (t.inserted ctx a tx' id' w began scanned fits)
            ]
      ]
