-- ===== src/Tests/Passwords.antt =====
-- A change of the password and a verification over the server in memory.
use accounts_service.Prelude.{
  String, ◌<>◌, append_cancel_left, eq_refl, eq_iff, Option, none, some, [], ◌∷◌, ◌==◌,
  if◌then◌else◌, ◌≡◌, ◌≢◌, refl, Option-cases, inl, inr, arith, sym, ◌∙◌,
}
use accounts_service.Models.{Account, RegisteredAccount, SignInDto}
use accounts_service.Models.Errors.{ErrorCode, error}
use accounts_service.Effect.{Result, ok, done, fail}
use accounts_service.Config.{account_service_config, get_config}
use accounts_service.Handler.Validation.{validate_password}
use accounts_service.External.{text, instant}
use accounts_service.Postgres
use accounts_service.Events
use accounts_service.Redis.Registration
use accounts_service.Postgres.Table.{IsTable}
use accounts_service.Service.Process.{Process}
use accounts_service.Service.Sessions
use accounts_service.Service.Accounts
use accounts_service.Handler.Methods
use accounts_service.Token
use accounts_service.System.Server.{Request, serve, Step, IsReached, initial, next}
use accounts_service.System.Passwords.{
  IsBcrypt, AreToldApart, other_password_refused, new_password_signs_in,
}
use accounts_service.System.Verified.{verify_account_row}
use accounts_service.Tests.Memory.{World, memory, alice, change_row, insert_row}
use accounts_service.Tests.Laws.{session_keys, memory-IsStore}
use accounts_service.Tests.Backend.{memory-IsBackend}
use accounts_service.Tests.Worlds.{no_sessions, world, running, request, configured}

abbrev pub rows : World → String → Option Account
rows w = w.rows

row_updated :
    (hash email : String) (res : Unit {0}) (w : World)
    → (change_row (text hash ∷ text email ∷ []) w.rows).0 ≡ ok res
    → (a : Account) × (rows w email ≡ some a)
      × ((e : String)
          → (change_row (text hash ∷ text email ∷ []) w.rows).1 e
            ≡ (if e == email then some (record a { password = hash }) else rows w e))
row_updated hash email res w executed = elim (Option-cases (w.rows email)) [
  | inl missing ↦ absurd (ground arith)
  | inr (a, found) ↦ (a, found, λ e. rw (change_row, found) refl)
]

row_inserted :
    (a : Account) (id : String) (w : World)
    → Path (Result String) (ok "a2") (ok id)
    → insert_row (text a.email ∷ text a.password ∷ instant a.registration_date ∷ []) w.rows a.email
      ≡ some (record a { id = id })
row_inserted a id w scanned =
    let same : Path String "a2" id = cc in rw (eq_refl a.email, ← same) refl

pub memory-IsTable : IsTable ⦃x = memory⦄ rows
memory-IsTable = record {
  get_sound = λ ctx email a w found. ground arith;
  updated =
      λ ctx hash email res n w executed counted changed. row_updated hash email res w executed;
  inserted = λ ctx a tx id w began scanned committed.
      (record a { id = id }, row_inserted a id w scanned, refl, refl, refl);
  rows-account_events = λ ctx m w. refl;
  rows-registration_del = λ ctx k w. refl;
  rows-hits = λ method w. refl;
}

memory-IsBcrypt : IsBcrypt ⦃x = memory⦄
memory-IsBcrypt = record {
  own = λ password hash cost w made.
      let same : "hash:" <> password ≡ hash = cc in ground (arith, same, eq_refl hash);
}

-- The library in memory tells any two passwords apart.
memory-AreToldApart :
    (password other : String) → other ≢ password → AreToldApart ⦃x = memory⦄ password other
memory-AreToldApart password other apart hash cost w made matches =
    let same : "hash:" <> password ≡ hash = cc in
    let fits : hash ≡ "hash:" <> other = ground (arith, eq_iff hash ("hash:" <> other)) in
    apart (append_cancel_left "hash:" other password (sym fits ∙ sym same))

-- Alice's account has the email of the token.
abbrev renamed : World
renamed = record no_sessions { rows = λ e. if e == "bob@example.org" then some alice else none }

abbrev before : Process ⦃x = memory⦄
before = running renamed

abbrev changed : Process ⦃x = memory⦄
changed = (serve configured request (Request.change_password "token" "sesame") before).1

changed-IsReached : IsReached session_keys configured changed
changed-IsReached =
    next _ _ (initial renamed (λ k. refl))
      (Step.request request (Request.change_password "token" "sesame") before)

abbrev login_with : String → SignInDto
login_with password = record {
  email = "bob@example.org";
  password = password;
  client_ip = "10.0.0.1";
  machine_id = "laptop";
}

abbrev new_alice : Account
new_alice = record alice { password = "hash:sesame" }

other_password_refused_example :
    Sessions.sign_in (account_service_config configured) none (login_with "secret") changed
    ≡ (fail (error ErrorCode.invalid_argument "invalid login or password"), changed)
unfolding serve Methods.change_password Accounts.change_password Postgres.change_password
    Postgres.is_account_with_email_exist Postgres.get_account_by_email Token.parse_token
    account_service_config get_config validate_password
other_password_refused_example =
    other_password_refused rows memory-IsTable (account_service_config configured) request none
      "token" "sesame" (login_with "secret") new_alice before changed refl refl refl refl
      (memory-AreToldApart "sesame" "secret" (ground (arith, eq_iff "secret" "sesame")))

new_password_signs_in_example :
    let ended =
      Sessions.sign_in (account_service_config configured) none (login_with "sesame") changed in
    (Sessions.get_account_id none "s1" "laptop" ended.1).0 ≡ done "a1"
unfolding serve Methods.change_password Accounts.change_password Postgres.change_password
    Postgres.is_account_with_email_exist Postgres.get_account_by_email Token.parse_token
    account_service_config get_config validate_password
new_password_signs_in_example =
    (new_password_signs_in rows memory-IsTable memory-IsBcrypt session_keys memory-IsBackend
      configured request none (memory-IsStore none) "token" (login_with "sesame") new_alice
      "s1 at 9" before changed refl refl refl refl changed-IsReached refl refl).1

verify_account_row_example :
    (email : String) × (registered : RegisteredAccount) × (account : Account) × (Token.parse_token
        ⦃x = memory⦄ "token" configured.verify_account_token_secret world
      ≡ ok email)
    × ((Registration.get_account ⦃x = memory⦄ none email world).0 ≡ done registered)
    × (rows (Accounts.verify_account configured none "token" (running world)).1.world email
        ≡ some account)
    × (account.email ≡ email)
    × (account.password ≡ registered.password)
unfolding Accounts.verify_account Accounts.activate_account Token.parse_token
    Registration.get_account Postgres.create_account get_config Events.account_created
    Registration.delete_account
verify_account_row_example =
    verify_account_row ⦃x = memory⦄ rows memory-IsTable configured none "token" (running world) refl
