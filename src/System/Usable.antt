-- ===== src/System/Usable.antt =====
-- internal/service/service.go: `Logout` and `SignIn` in the states that the service reaches.
use accounts_service.Prelude.{String, false, none, some, contains, ◌≡◌, ◌≢◌, refl}
use accounts_service.Models.{Account, Session, SignInDto}
use accounts_service.Models.Errors.{ErrorCode, error}
use accounts_service.External.{External}
use accounts_service.External.Redis.{Keys, text_of, members_of}
use accounts_service.Effect.{ok, done, fail}
use accounts_service.Config.{Config, account_service_config}
use accounts_service.Postgres
use accounts_service.Redis.Sessions.{account_key}
use accounts_service.Redis.Sessions.Store.{IsStore}
use accounts_service.Service.Process.{Process}
use accounts_service.Service.Sessions
use accounts_service.Service.Lifecycle.{logout_lem, sign_in-get_account_id, signed_in}
use accounts_service.System.Keys.{IsSessionId, IsSessionId-stored, text_of-text}
use accounts_service.System.Interference.{quiet, Interferes-IsWellKeyed}
use accounts_service.System.Backend.{IsBackend}
use accounts_service.System.Frame.{keys-get_account_by_email}
use accounts_service.System.Server.{IsReached}
use accounts_service.System.Reached.{reached-IsSound}

module _ ⦃x : External⦄ (keys : x.World → Keys) (b : IsBackend keys) (global : Config) where
  -- In every state that the service reaches, `Logout` from the machine of a session that is
  -- stored, over a reachable server, succeeds, and takes the session from its id and from its
  -- account's set and no other key; and the session is stored under its own id.
  pub reached-logout :
      (ctx : x.Ctx) (session : Session) (id body : String) (p : Process)
      → IsReached keys global p
      → IsStore ctx keys
      → text_of (keys p.world id) ≡ some body
      → x.json.unmarshal_session body ≡ ok session
      → let list_key = account_key session.account_id in
        let ended = Sessions.logout ctx id session.machine_id p in
        let after = keys ended.1.world in
        (session.session_id ≡ id)
        × (ended.0 ≡ done tt)
        × (after id ≡ none)
        × (contains (members_of (after list_key)) id ≡ false)
        × ((j : String) → j ≢ id → j ≢ list_key → after j ≡ keys p.world j)
  reached-logout ctx session id body p reached store found decoded =
      let h = (reached-IsSound keys b global p reached).keyed in
      let named =
        (h.fits id).body body (text_of-text (keys p.world id) body found) session decoded in
      let one : IsSessionId id =
        rw (← named) (IsSessionId-stored (keys p.world) id body session h found decoded) in
      let list_key = account_key session.account_id in
      let accepted = (h.fits list_key).set session.account_id refl in
      let (ended, gone, left, others) =
        logout_lem ctx keys store session id body session.machine_id p found decoded refl accepted
          (one session.account_id) in
      (named, ended, gone, left, others)

  -- In every state that the service reaches, over a reachable server, `SignIn` with the right
  -- password of an account that is found gives a session with which `GetAccountID` gives the
  -- account's id to the machine that signed in, and refuses any other machine. Assumed: the new
  -- session survives JSON.
  pub reached-sign_in :
      (ctx : x.Ctx) (store : IsStore ctx keys) (dto : SignInDto) (account : Account) (body : String)
      (p : Process)
      → IsReached keys global p
      → (Postgres.get_account_by_email ctx dto.email p.world).0 ≡ done account
      → x.bcrypt.compare_hash_and_password account.password dto.password ≡ ok tt
      → let w = (Postgres.get_account_by_email ctx dto.email p.world).1 in
        let session = signed_in ctx keys store dto account w in
        x.json.marshal_session session ≡ ok body
        → x.json.unmarshal_session body ≡ ok session
        → let ended = Sessions.sign_in (account_service_config global) ctx dto p in
          (ended.0 ≡ done session.session_id)
          × ((Sessions.get_account_id ctx session.session_id dto.machine_id ended.1).0
              ≡ done account.id)
          × ((machine_id : String)
              → machine_id ≢ dto.machine_id
              → (Sessions.get_account_id ctx session.session_id machine_id ended.1).0
                ≡ fail (error ErrorCode.unauthenticated "invalid session or machine id"))
  reached-sign_in ctx store dto account body p reached found matches encoded decoded =
      let h = (reached-IsSound keys b global p reached).keyed in
      let w = (Postgres.get_account_by_email ctx dto.email p.world).1 in
      let list_key = account_key account.id in
      let looked =
        keys-get_account_by_email keys b.separate ctx dto.email p.world (keys p.world) quiet in
      let drawn = b.separate.keys-new_uuid w (keys p.world) looked in
      let h' = Interferes-IsWellKeyed (keys p.world) (keys (x.new_uuid w).1) drawn h in
      let accepted = (h'.fits list_key).set account.id refl in
      sign_in-get_account_id ctx keys store (account_service_config global) dto account body p found
        matches encoded decoded (b.uuid account.id w) accepted
