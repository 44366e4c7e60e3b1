-- ===== src/Store/Accounts.antt =====
-- The single-use tokens of internal/postgres/session.go, and the queries of internal/postgres/user.go
-- that signing in makes.
use khel_arena.Prelude.{
  ℕ, Bool, true, false, ◌&&◌, ◌||◌, not, none, some, List, ◌∷◌, ltb, ◌==◌, if◌then◌else◌, any, find,
}
use khel_arena.Domain.Errors.{Result, ok, err, invalid, not_found, internal}
use khel_arena.Store.Tables.{in_tx, update_where}
use khel_arena.Store.Sessions.{
  Account, Purpose, VerificationToken, Vault, VaultTx, is_account, is_null, revoke_all_for_user,
}

abbrev pub same_purpose : Purpose → Purpose → Bool
same_purpose Purpose.password_reset Purpose.password_reset = true
same_purpose Purpose.email_verification Purpose.email_verification = true
same_purpose _ _ = false

-- A token that can still be redeemed as far as the column `consumed_at` goes.
abbrev pub is_unspent : ℕ → Purpose → VerificationToken → Bool
is_unspent user purpose v =
    v.user_id == user && same_purpose v.purpose purpose && is_null v.consumed_at

abbrev pub consume : ℕ → VerificationToken → VerificationToken
consume db_now v = record v { consumed_at = some db_now }

abbrev pub has_digest : ℕ → VerificationToken → Bool
has_digest digest v = v.token_hash == digest

abbrev pub superseded : ℕ → Purpose → ℕ → List VerificationToken → List VerificationToken
superseded user purpose db_now vs = update_where (is_unspent user purpose) (consume db_now) vs

-- StoreVerificationToken: the earlier token of the same purpose is of no use any more.
unfoldable pub store_verification_tx : ℕ → Purpose → ℕ → ℕ → ℕ → VaultTx (Unit {0})
store_verification_tx user purpose digest expires_at db_now db =
    if any (has_digest digest) db.verification_tokens || not (any (is_account user) db.accounts)
    then (err internal, db)
    else (
      ok tt,
      record db {
        verification_tokens =
            record {
              user_id = user;
              purpose = purpose;
              token_hash = digest;
              expires_at = expires_at;
              consumed_at = none;
            }
            ∷ superseded user purpose db_now db.verification_tokens;
      },
    )

unfoldable pub store_verification_token : ℕ → Purpose → ℕ → ℕ → ℕ → VaultTx (Unit {0})
unfolding store_verification_tx
store_verification_token user purpose digest expires_at db_now =
    in_tx (store_verification_tx user purpose digest expires_at db_now)

-- The WHERE of ConsumeVerificationToken.
unfoldable pub is_redeemable : Purpose → ℕ → ℕ → VerificationToken → Bool
is_redeemable purpose digest db_now v =
    has_digest digest v
    && same_purpose v.purpose purpose
    && is_null v.consumed_at
    && ltb db_now v.expires_at

-- ConsumeVerificationToken
unfoldable pub consume_verification_token : Purpose → ℕ → ℕ → VaultTx ℕ
unfolding is_redeemable
consume_verification_token purpose digest db_now db =
    elim (find (is_redeemable purpose digest db_now) db.verification_tokens) [
      | none ↦ (err (invalid "token" "That link has expired or has already been used."), db)
      | some v ↦ (
        ok v.user_id,
        record db {
          verification_tokens =
              update_where (is_redeemable purpose digest db_now) (consume db_now)
                db.verification_tokens;
        },
      )
    ]

abbrev pub has_email : ℕ → Account → Bool
has_email email a = a.email == email

-- CredentialsByEmail, and ByID.
unfoldable pub credentials_by_email : Vault → ℕ → Result Account
credentials_by_email db email = elim (find (has_email email) db.accounts) [
  | none ↦ err (not_found "No account with that email.")
  | some a ↦ ok a
]

unfoldable pub account_by_id : Vault → ℕ → Result Account
account_by_id db id = elim (find (is_account id) db.accounts) [
  | none ↦ err (not_found "That account doesn't exist.")
  | some a ↦ ok a
]

abbrev pub with_password : ℕ → Account → Account
with_password hash a = record a { password_hash = hash }

-- UpdatePassword
unfoldable pub update_password_tx : ℕ → ℕ → ℕ → VaultTx (Unit {0})
unfolding revoke_all_for_user
update_password_tx user hash db_now db =
    if not (any (is_account user) db.accounts)
    then (err (not_found "That account doesn't exist."), db)
    else (
      ok tt,
      revoke_all_for_user user db_now (record db {
        accounts = update_where (is_account user) (with_password hash) db.accounts;
      }),
    )

unfoldable pub update_password : ℕ → ℕ → ℕ → VaultTx (Unit {0})
unfolding update_password_tx
update_password user hash db_now = in_tx (update_password_tx user hash db_now)
