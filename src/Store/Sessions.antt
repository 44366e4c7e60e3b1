-- ===== src/Store/Sessions.antt =====
-- SessionRepo of internal/postgres/session.go with the accounts that its tokens belong to: refresh
-- tokens, and the single-use tokens behind a password reset. `db_now` is the database's `now()`, `now`
-- the process's clock; `id` is what gen_random_uuid() returns. A digest is a number that is compared,
-- and so is an address, in the form that NormalizeEmail gives it. Where a session came from is left
-- out.
pub mod Rotation
pub mod Dead
pub mod Spent
use khel_arena.Prelude.{
  ℕ, Bool, true, false, ◌&&◌, ◌||◌, not, ◌+◌, Option, none, some, List, [], ◌∷◌, ltb, leb, ◌==◌,
  if◌then◌else◌, any, find, filter,
}
use khel_arena.Domain.Errors.{Result, ok, err, invalid, unauthenticated, not_found, internal}
use khel_arena.Store.Tables.{in_tx, update_where}

pub record RefreshToken : Type 0 where
  pub id : ℕ
  pub user_id : ℕ
  pub token_hash : ℕ
  pub issued_at : ℕ
  pub expires_at : ℕ
  pub revoked_at : Option ℕ
  pub replaced_by : Option ℕ

pub data Purpose : Type 0 where
  password_reset email_verification : Purpose

pub record VerificationToken : Type 0 where
  pub user_id : ℕ
  pub purpose : Purpose
  pub token_hash : ℕ
  pub expires_at : ℕ
  pub consumed_at : Option ℕ

-- The columns of `users` that signing in reads.
pub record Account : Type 0 where
  pub id : ℕ
  pub email : ℕ
  pub password_hash : ℕ

pub record Vault : Type 0 where
  pub accounts : List Account
  pub refresh_tokens : List RefreshToken
  pub verification_tokens : List VerificationToken

abbrev pub VaultTx : Type 0 → Type 0
VaultTx A = Vault → Result A × Vault

abbrev pub is_null : Option ℕ → Bool
is_null none = true
is_null (some x) = false

abbrev pub is_account : ℕ → Account → Bool
is_account user a = a.id == user

-- The unique column by which a token is found.
abbrev pub has_hash : ℕ → RefreshToken → Bool
has_hash digest t = t.token_hash == digest

-- The index on the digest holds each one once.
abbrev pub same_digest : RefreshToken → RefreshToken → Bool
same_digest t u = t.token_hash == u.token_hash

-- The insert into `refresh_tokens`, under refresh_token_outlives_issue, the unique digest and the
-- reference to the account.
unfoldable pub insert_token : RefreshToken → VaultTx (Unit {0})
insert_token t db =
    if not (ltb t.issued_at t.expires_at)
    then (err internal, db)
    else if any (has_hash t.token_hash) db.refresh_tokens
    then (err internal, db)
    else if not (any (is_account t.user_id) db.accounts)
    then (err internal, db)
    else (ok tt, record db { refresh_tokens = t ∷ db.refresh_tokens })

abbrev pub new_token : ℕ → ℕ → ℕ → ℕ → ℕ → RefreshToken
new_token id user digest expires_at db_now = record {
  id = id;
  user_id = user;
  token_hash = digest;
  issued_at = db_now;
  expires_at = expires_at;
  revoked_at = none;
  replaced_by = none;
}

-- StoreRefreshToken, up to the identifier that it answers with.
unfoldable pub store_refresh_token : ℕ → ℕ → ℕ → ℕ → ℕ → VaultTx (Unit {0})
unfolding insert_token
store_refresh_token user digest expires_at id db_now =
    insert_token (new_token id user digest expires_at db_now)

abbrev pub revoke : ℕ → RefreshToken → RefreshToken
revoke db_now t = record t { revoked_at = some db_now }

-- `user_id = $1 and revoked_at is null`
abbrev pub is_held_by : ℕ → RefreshToken → Bool
is_held_by user t = t.user_id == user && is_null t.revoked_at

-- RevokeAllForUser, and the statement of it in RotateRefreshToken and UpdatePassword.
unfoldable pub revoke_all_for_user : ℕ → ℕ → Vault → Vault
revoke_all_for_user user db_now db = record db {
  refresh_tokens = update_where (is_held_by user) (revoke db_now) db.refresh_tokens;
}

abbrev pub has_token_id : ℕ → RefreshToken → Bool
has_token_id id t = t.id == id

abbrev pub retire : ℕ → ℕ → RefreshToken → RefreshToken
retire replacement db_now t = record t { revoked_at = some db_now; replaced_by = some replacement }

-- `retireSQL`, where the insert before it went well.
abbrev pub then_retire : RefreshToken → ℕ → ℕ → Result (Unit {0}) × Vault → Result ℕ × Vault
then_retire t id db_now (ok u, db) = (
  ok t.user_id,
  record db {
    refresh_tokens = update_where (has_token_id t.id) (retire id db_now) db.refresh_tokens;
  },
)
then_retire t id db_now (err e, db) = (err e, db)

-- The answer to a token that is of no use.
abbrev pub session_expired {ℓ} : {A : Type ℓ} → Result A
session_expired = err (unauthenticated "Your session has expired. Please sign in again.")

-- The body of RotateRefreshToken, on the row of the old digest.
unfoldable pub rotate_found : RefreshToken → ℕ → ℕ → ℕ → ℕ → ℕ → VaultTx ℕ
unfolding revoke_all_for_user insert_token
rotate_found t new_digest expires_at id now db_now db = elim t.revoked_at [
  | some at ↦ (session_expired, revoke_all_for_user t.user_id db_now db)
  | none ↦
      if not (ltb now t.expires_at)
      then (session_expired, db)
      else then_retire t id db_now
          (insert_token (new_token id t.user_id new_digest expires_at db_now) db)
]

unfoldable pub rotate_tx : ℕ → ℕ → ℕ → ℕ → ℕ → ℕ → VaultTx ℕ
unfolding rotate_found
rotate_tx old_digest new_digest expires_at id now db_now db =
    elim (find (has_hash old_digest) db.refresh_tokens) [
      | none ↦ (session_expired, db)
      | some t ↦ rotate_found t new_digest expires_at id now db_now db
    ]

-- RotateRefreshToken
unfoldable pub rotate_refresh_token : ℕ → ℕ → ℕ → ℕ → ℕ → ℕ → VaultTx ℕ
unfolding rotate_tx
rotate_refresh_token old_digest new_digest expires_at id now db_now =
    in_tx (rotate_tx old_digest new_digest expires_at id now db_now)

-- RevokeRefreshToken
unfoldable pub revoke_refresh_token : ℕ → ℕ → Vault → Vault
revoke_refresh_token digest db_now db = record db {
  refresh_tokens =
      update_where (λ t. has_hash digest t && is_null t.revoked_at) (revoke db_now)
        db.refresh_tokens;
}

abbrev pub is_revoked_before : Option ℕ → ℕ → ℕ → Bool
is_revoked_before none retain db_now = false
is_revoked_before (some at) retain db_now = ltb (at + retain) db_now

-- The WHERE of DeleteExpiredTokens.
unfoldable pub is_deletable : ℕ → ℕ → RefreshToken → Bool
is_deletable retain db_now t =
    ltb t.expires_at db_now || is_revoked_before t.revoked_at retain db_now

abbrev pub is_replaced_by : Option ℕ → RefreshToken → Bool
is_replaced_by none t = false
is_replaced_by (some id) t = t.id == id

-- A row that stays refers to one that goes, which the reference `replaced_by` forbids.
unfoldable pub dangles : (RefreshToken → Bool) → List RefreshToken → Bool
dangles gone tokens =
    any (λ t. not (gone t) && any (λ r. gone r && is_replaced_by t.replaced_by r) tokens) tokens

-- DeleteExpiredTokens
unfoldable pub delete_expired_tokens : ℕ → ℕ → VaultTx (Unit {0})
unfolding is_deletable dangles
delete_expired_tokens retain db_now db =
    if dangles (is_deletable retain db_now) db.refresh_tokens then (err internal, db) else (
      ok tt,
      record db {
        refresh_tokens = filter (λ t. not (is_deletable retain db_now t)) db.refresh_tokens;
      },
    )
