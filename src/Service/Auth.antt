-- ===== src/Service/Auth.antt =====
-- AuthService of internal/service/auth.go. What internal/platform/token computes with the libraries
-- for Argon2, SHA-256 and JWT is a field of the service; random tokens, salts and identifiers are
-- arguments. A refresh token and a reset token are numbers that are only digested, and 0 is the empty
-- one. The random source and the signing do not fail in the model.
pub mod Steps
pub mod Spent
pub mod Runs
pub mod Reset
use khel_arena.Prelude.{ℕ, ◌+◌, Bool, true, false, ◌&&◌, Option, none, some, ◌==◌, if◌then◌else◌}
use khel_arena.Domain.Errors.{
  Error, Result, ok, err, ◌>>=◌, ◌>>◌, refuse, invalid, unauthenticated, internal,
}
use khel_arena.Domain.Text.{Text}
use khel_arena.Domain.User.{validate_password}
use khel_arena.Domain.Slot.Clock.{hour}
use khel_arena.Store.Sessions.{
  Account, Purpose, Vault, VaultTx, store_refresh_token, rotate_refresh_token, revoke_refresh_token,
  session_expired,
}
use khel_arena.Store.Accounts.{
  credentials_by_email, account_by_id, update_password, store_verification_token,
  consume_verification_token,
}

-- What VerifyPassword says: nil, ErrMismatch, or that the stored hash cannot be read.
pub data PasswordCheck : Type 0 where
  matches mismatch unreadable : PasswordCheck

pub record AuthService : Type 0 where
  pub refresh_ttl : ℕ
  pub verify_password : Text → ℕ → PasswordCheck
  pub needs_rehash : ℕ → Bool
  pub hash_password : Text → ℕ → ℕ
  pub hash_refresh_token : ℕ → ℕ
  pub access_token : ℕ → ℕ → ℕ

-- What a sign-in hands back.
pub record Session : Type 0 where
  pub user_id : ℕ
  pub access_token : ℕ
  pub refresh_token : ℕ
  pub refresh_expires_at : ℕ

abbrev pub session_of : AuthService → ℕ → ℕ → ℕ → Session
session_of s user plaintext now = record {
  user_id = user;
  access_token = s.access_token user now;
  refresh_token = plaintext;
  refresh_expires_at = now + s.refresh_ttl;
}

abbrev pub with_session : Session → Result (Unit {0}) × Vault → Result Session × Vault
with_session session (ok u, db) = (ok session, db)
with_session session (err e, db) = (err e, db)

-- issueSession: `plaintext` is the random refresh token.
unfoldable pub issue_session : AuthService → ℕ → ℕ → ℕ → ℕ → ℕ → VaultTx Session
issue_session s user plaintext id now db_now db =
    with_session (session_of s user plaintext now)
      (store_refresh_token user (s.hash_refresh_token plaintext) (now + s.refresh_ttl) id db_now db)

-- The hash of a known password is upgraded if it can be; a failure is passed over.
unfoldable pub upgrade : AuthService → Account → Text → ℕ → ℕ → Vault → Vault
upgrade s a password salt db_now db =
    if s.needs_rehash a.password_hash
    then (update_password a.id (s.hash_password password salt) db_now db).1
    else db

abbrev pub rejection : Error
rejection = unauthenticated "That email and password don't match."

-- Login, where the address is known.
unfoldable pub login_found : AuthService → Account → Text → ℕ → ℕ → ℕ → ℕ → ℕ → VaultTx Session
unfolding upgrade issue_session
login_found s a password salt plaintext id now db_now db =
    elim (s.verify_password password a.password_hash) [
      | mismatch ↦ (err rejection, db)
      | unreadable ↦ (err internal, db)
      | matches ↦ elim (account_by_id db a.id) [
        | err e ↦ (err e, db)
        | ok u ↦ issue_session s u.id plaintext id now db_now (upgrade s a password salt db_now db)
      ]
    ]

-- Login: an unknown address gets the answer that a wrong password gets.
unfoldable pub login : AuthService → ℕ → Text → ℕ → ℕ → ℕ → ℕ → ℕ → VaultTx Session
unfolding login_found
login s email password salt plaintext id now db_now db = elim (credentials_by_email db email) [
  | err e ↦ (err rejection, db)
  | ok a ↦ login_found s a password salt plaintext id now db_now db
]

-- Refresh, once the token is rotated: the account is read, and the pair handed out.
abbrev pub then_pair : AuthService → ℕ → ℕ → Result ℕ × Vault → Result Session × Vault
then_pair s plaintext now (err e, db) = (err e, db)
then_pair s plaintext now (ok user, db) = elim (account_by_id db user) [
  | err e ↦ (err e, db)
  | ok a ↦ (ok (session_of s a.id plaintext now), db)
]

unfoldable pub refresh : AuthService → ℕ → ℕ → ℕ → ℕ → ℕ → VaultTx Session
refresh s refresh_token plaintext id now db_now db =
    if refresh_token == 0
    then (session_expired, db)
    else then_pair s plaintext now (
        rotate_refresh_token (s.hash_refresh_token refresh_token) (s.hash_refresh_token plaintext)
          (now + s.refresh_ttl) id now db_now db)

unfoldable pub logout : AuthService → ℕ → ℕ → Vault → Vault
logout s refresh_token db_now db =
    if refresh_token == 0
    then db
    else revoke_refresh_token (s.hash_refresh_token refresh_token) db_now db

abbrev pub password_reset_ttl : ℕ
password_reset_ttl = hour

-- The account is read once the token is stored.
abbrev pub with_reset_token :
    ℕ → ℕ → Result (Unit {0}) × Vault → Result (Option (ℕ × Account)) × Vault
with_reset_token plaintext user (err e, db) = (err e, db)
with_reset_token plaintext user (ok u, db) = elim (account_by_id db user) [
  | err e ↦ (err e, db)
  | ok a ↦ (ok (some (plaintext, a)), db)
]

-- BeginPasswordReset: the token for the mail and whose it is, or none for an unknown address.
unfoldable pub begin_password_reset : AuthService → ℕ → ℕ → ℕ → ℕ → VaultTx (Option (ℕ × Account))
begin_password_reset s email plaintext now db_now db = elim (credentials_by_email db email) [
  | err e ↦ (ok none, db)
  | ok a ↦ with_reset_token plaintext a.id (
      store_verification_token a.id Purpose.password_reset (s.hash_refresh_token plaintext)
        (now + password_reset_ttl) db_now db)
]

-- The new password, where the token was good.
abbrev pub then_update : ℕ → ℕ → Result ℕ × Vault → Result (Unit {0}) × Vault
then_update hash db_now (ok user, db) = update_password user hash db_now db
then_update hash db_now (err e, db) = (err e, db)

unfoldable pub complete_password_reset : AuthService → ℕ → Text → ℕ → ℕ → VaultTx (Unit {0})
complete_password_reset s reset_token new_password salt db_now db =
    elim (validate_password new_password) [
      | some e ↦ (err e, db)
      | none ↦ then_update (s.hash_password new_password salt) db_now (
          consume_verification_token Purpose.password_reset (s.hash_refresh_token reset_token)
            db_now db)
    ]

-- What ChangePassword finds out about the current password.
unfoldable pub proven : AuthService → ℕ → Text → Text → Vault → Result (Unit {0})
proven s user current_password new_password db = do
  refuse (validate_password new_password)
  u ← account_by_id db user
  a ← credentials_by_email db u.email
  elim (s.verify_password current_password a.password_hash) [
    | matches ↦ ok tt
    | mismatch ↦ err (invalid "current_password" "That's not your current password.")
    | unreadable ↦ err internal
  ]

unfoldable pub change_password : AuthService → ℕ → Text → Text → ℕ → ℕ → VaultTx (Unit {0})
unfolding proven
change_password s user current_password new_password salt db_now db =
    elim (proven s user current_password new_password db) [
      | err e ↦ (err e, db)
      | ok u ↦ update_password user (s.hash_password new_password salt) db_now db
    ]
