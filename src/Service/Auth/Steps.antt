-- ===== src/Service/Auth/Steps.antt =====
-- Sequences of what people and the janitor do to sessions, and what such a sequence keeps if the
-- statements of the store keep it.
use khel_arena.Prelude.{ℕ, ◌≡◌, false, ◌==◌, option-intro, if-intro}
use khel_arena.Domain.Errors.{Result, ok, err, result-intro}
use khel_arena.Domain.Text.{Text}
use khel_arena.Domain.User.{validate_password}
use khel_arena.Store.Sessions.{
  Account, Purpose, Vault, store_refresh_token, rotate_refresh_token, revoke_refresh_token,
  delete_expired_tokens,
}
use khel_arena.Store.Accounts.{
  credentials_by_email, account_by_id, update_password, store_verification_token,
  consume_verification_token,
}
use khel_arena.Service.Auth.{
  AuthService, Session, PasswordCheck, login, login_found, upgrade, issue_session, with_session,
  session_of, refresh, then_pair, logout, begin_password_reset, with_reset_token,
  complete_password_reset, then_update, change_password, proven,
}

check-intro {ℓ} :
    {A : Type 0} (P : A → Type ℓ) (check : PasswordCheck) (x y z : A)
    → P x
    → P y
    → P z
    → P (elim check [
      | PasswordCheck.matches ↦ x
      | PasswordCheck.mismatch ↦ y
      | PasswordCheck.unreadable ↦ z
    ])
check-intro P PasswordCheck.matches x y z h k l = h
check-intro P PasswordCheck.mismatch x y z h k l = k
check-intro P PasswordCheck.unreadable x y z h k l = l

-- Another digest than the one that is given.
abbrev pub Other : ℕ → ℕ → Type 0
Other digest drawn = (drawn == digest) ≡ false

abbrev pub Whichever : ℕ → Type 0
Whichever drawn = Unit

module _ (s : AuthService) (Drawn Mailed : ℕ → Type 0) where
  -- One call, whose refresh token has a digest that is `Drawn`, and whose link one that is `Mailed`.
  pub data AuthStep : Vault → Vault → Type 0 where
    logs_in :
        {db : Vault} (email : ℕ) (password : Text) (salt plaintext id now db_now : ℕ)
        → Drawn (s.hash_refresh_token plaintext)
        → AuthStep db (login s email password salt plaintext id now db_now db).1
    refreshes :
        {db : Vault} (token plaintext id now db_now : ℕ)
        → Drawn (s.hash_refresh_token plaintext)
        → AuthStep db (refresh s token plaintext id now db_now db).1
    logs_out : {db : Vault} (token db_now : ℕ) → AuthStep db (logout s token db_now db)
    forgets :
        {db : Vault} (email plaintext now db_now : ℕ)
        → Mailed (s.hash_refresh_token plaintext)
        → AuthStep db (begin_password_reset s email plaintext now db_now db).1
    resets :
        {db : Vault} (token : ℕ) (password : Text) (salt db_now : ℕ)
        → AuthStep db (complete_password_reset s token password salt db_now db).1
    changes :
        {db : Vault} (user : ℕ) (current password : Text) (salt db_now : ℕ)
        → AuthStep db (change_password s user current password salt db_now db).1
    sweeps :
        {db : Vault} (retain db_now : ℕ) → AuthStep db (delete_expired_tokens retain db_now db).1

  pub data AuthReach (db : Vault) : Vault → Type 0 where
    at_once : AuthReach db db
    then_step : {mid after : Vault} → AuthReach db mid → AuthStep mid after → AuthReach db after

  -- What the statements of the store keep.
  pub record IsStable (P : Vault → Type 0) : Type 0 where
    pub store :
        (db : Vault) (user digest expires_at id db_now : ℕ)
        → P db
        → Drawn digest
        → P (store_refresh_token user digest expires_at id db_now db).1
    pub rotate :
        (db : Vault) (old digest expires_at id now db_now : ℕ)
        → P db
        → Drawn digest
        → P (rotate_refresh_token old digest expires_at id now db_now db).1
    pub revoke : (db : Vault) (digest db_now : ℕ) → P db → P (revoke_refresh_token digest db_now db)
    pub password :
        (db : Vault) (user hash db_now : ℕ) → P db → P (update_password user hash db_now db).1
    pub mail :
        (db : Vault) (user digest expires_at db_now : ℕ)
        → P db
        → Mailed digest
        → P (store_verification_token user Purpose.password_reset digest expires_at db_now db).1
    pub redeem :
        (db : Vault) (digest db_now : ℕ)
        → P db
        → P (consume_verification_token Purpose.password_reset digest db_now db).1
    pub sweep :
        (db : Vault) (retain db_now : ℕ) → P db → P (delete_expired_tokens retain db_now db).1

module _ (s : AuthService) {Drawn Mailed : ℕ → Type 0} (P : Vault → Type 0)
    (stable : IsStable s Drawn Mailed P) where
  abbrev After : {A : Type 0} → Result A × Vault → Type 0
  After x = P x.1

  with_session-kept :
      (session : Session) (x : Result (Unit {0}) × Vault) → After x → After (with_session session x)
  with_session-kept session (ok u, after) h = h
  with_session-kept session (err e, after) h = h

  then_pair-kept :
      (plaintext now : ℕ) (x : Result ℕ × Vault) → After x → After (then_pair s plaintext now x)
  then_pair-kept plaintext now (err e, after) h = h
  then_pair-kept plaintext now (ok user, after) h =
      result-intro After (account_by_id after user) _ _ (λ e. h) λ a k. h

  with_reset_token-kept :
      (plaintext user : ℕ) (x : Result (Unit {0}) × Vault)
      → After x
      → After (with_reset_token plaintext user x)
  with_reset_token-kept plaintext user (err e, after) h = h
  with_reset_token-kept plaintext user (ok u, after) h =
      result-intro After (account_by_id after user) _ _ (λ e. h) λ a k. h

  then_update-kept :
      (hash db_now : ℕ) (x : Result ℕ × Vault) → After x → After (then_update hash db_now x)
  then_update-kept hash db_now (err e, after) h = h
  then_update-kept hash db_now (ok user, after) h = stable.password after user hash db_now h

  module _ (db : Vault) (kept : P db) where
    issue_session-kept :
        (user plaintext id now db_now : ℕ)
        → Drawn (s.hash_refresh_token plaintext)
        → After (issue_session s user plaintext id now db_now db)
    unfolding issue_session
    issue_session-kept user plaintext id now db_now other =
        with_session-kept (session_of s user plaintext now) _
          (stable.store db user _ _ id db_now kept other)

  module _ (db : Vault) (kept : P db) where
    upgrade-kept :
        (a : Account) (password : Text) (salt db_now : ℕ) → P (upgrade s a password salt db_now db)
    unfolding upgrade
    upgrade-kept a password salt db_now =
        if-intro P (s.needs_rehash a.password_hash) _ _ (λ h. stable.password db a.id _ db_now kept)
          λ h. kept

    login_found-kept :
        (a : Account) (password : Text) (salt plaintext id now db_now : ℕ)
        → Drawn (s.hash_refresh_token plaintext)
        → After (login_found s a password salt plaintext id now db_now db)
    unfolding login_found
    login_found-kept a password salt plaintext id now db_now other =
        check-intro After (s.verify_password password a.password_hash) _ _ _
          (result-intro After (account_by_id db a.id) _ _ (λ e. kept)
            λ u h.
              issue_session-kept (upgrade s a password salt db_now db)
                (upgrade-kept a password salt db_now) u.id plaintext id now db_now other)
          kept kept

    login-kept :
        (email : ℕ) (password : Text) (salt plaintext id now db_now : ℕ)
        → Drawn (s.hash_refresh_token plaintext)
        → After (login s email password salt plaintext id now db_now db)
    unfolding login
    login-kept email password salt plaintext id now db_now other =
        result-intro After (credentials_by_email db email) _ _ (λ e. kept)
          λ a h. login_found-kept a password salt plaintext id now db_now other

    refresh-kept :
        (token plaintext id now db_now : ℕ)
        → Drawn (s.hash_refresh_token plaintext)
        → After (refresh s token plaintext id now db_now db)
    unfolding refresh
    refresh-kept token plaintext id now db_now other =
        if-intro After (token == 0) _ _ (λ h. kept)
          λ h. then_pair-kept plaintext now _ (stable.rotate db _ _ _ id now db_now kept other)

    logout-kept : (token db_now : ℕ) → P (logout s token db_now db)
    unfolding logout
    logout-kept token db_now =
        if-intro P (token == 0) _ _ (λ h. kept) λ h. stable.revoke db _ db_now kept

    begin_password_reset-kept :
        (email plaintext now db_now : ℕ)
        → Mailed (s.hash_refresh_token plaintext)
        → After (begin_password_reset s email plaintext now db_now db)
    unfolding begin_password_reset
    begin_password_reset-kept email plaintext now db_now other =
        result-intro After (credentials_by_email db email) _ _ (λ e. kept)
          λ a h. with_reset_token-kept plaintext a.id _ (stable.mail db a.id _ _ db_now kept other)

    complete_password_reset-kept :
        (token : ℕ) (password : Text) (salt db_now : ℕ)
        → After (complete_password_reset s token password salt db_now db)
    unfolding complete_password_reset
    complete_password_reset-kept token password salt db_now =
        option-intro After (validate_password password) _ _
          (then_update-kept _ db_now _ (stable.redeem db _ db_now kept)) λ e h. kept

    change_password-kept :
        (user : ℕ) (current password : Text) (salt db_now : ℕ)
        → After (change_password s user current password salt db_now db)
    unfolding change_password
    change_password-kept user current password salt db_now =
        result-intro After (proven s user current password db) _ _ (λ e. kept)
          λ u h. stable.password db user _ db_now kept

  AuthStep-kept : {db after : Vault} → AuthStep s Drawn Mailed db after → P db → P after
  AuthStep-kept (logs_in {db} email password salt plaintext id now db_now other) kept =
      login-kept db kept email password salt plaintext id now db_now other
  AuthStep-kept (refreshes {db} token plaintext id now db_now other) kept =
      refresh-kept db kept token plaintext id now db_now other
  AuthStep-kept (logs_out {db} token db_now) kept = logout-kept db kept token db_now
  AuthStep-kept (forgets {db} email plaintext now db_now other) kept =
      begin_password_reset-kept db kept email plaintext now db_now other
  AuthStep-kept (resets {db} token password salt db_now) kept =
      complete_password_reset-kept db kept token password salt db_now
  AuthStep-kept (changes {db} user current password salt db_now) kept =
      change_password-kept db kept user current password salt db_now
  AuthStep-kept (sweeps {db} retain db_now) kept = stable.sweep db retain db_now kept

  pub AuthReach-kept : {db after : Vault} → AuthReach s Drawn Mailed db after → P db → P after
  AuthReach-kept at_once kept = kept
  AuthReach-kept (then_step run step) kept = AuthStep-kept step (AuthReach-kept run kept)
