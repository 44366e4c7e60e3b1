-- ===== src/Tests/Accounts.antt =====
-- A session that is refreshed and ended, and a password that is reset.
use khel_arena.Prelude.{
  ◌+◌, ◌≡◌, refl, arith, true, false, none, some, [], ◌∷◌, any, find, length, ◌==◌, if◌then◌else◌,
}
use khel_arena.Domain.Errors.{ok, err, invalid}
use khel_arena.Domain.Text.{Text}
use khel_arena.Domain.User.{validate_password}
use khel_arena.Store.Sessions.{
  RefreshToken, Purpose, VerificationToken, Vault, is_held_by, new_token, retire,
  rotate_refresh_token, session_expired,
}
use khel_arena.Store.Sessions.Rotation.{IsExchangeable, IsExchanged, rotate-exchanges}
use khel_arena.Store.Accounts.{is_redeemable, consume_verification_token, update_password}
use khel_arena.Service.Auth.{
  AuthService, PasswordCheck, login, refresh, logout, session_of, begin_password_reset,
  complete_password_reset,
}
use khel_arena.Service.Auth.Steps.{at_once, then_step, logs_in, forgets}
use khel_arena.Service.Auth.Runs.{logout_ends, refresh-once}
use khel_arena.Service.Auth.Reset.{complete_password_reset-once}

abbrev phone : RefreshToken
phone = record {
  id = 1;
  user_id = 5;
  token_hash = 101;
  issued_at = 10;
  expires_at = 900;
  revoked_at = none;
  replaced_by = none;
}

abbrev link : VerificationToken
link = record {
  user_id = 5;
  purpose = Purpose.password_reset;
  token_hash = 107;
  expires_at = 80;
  consumed_at = none;
}

abbrev vault : Vault
vault = record {
  accounts = record { id = 5; email = 33; password_hash = 10 } ∷ [];
  refresh_tokens = phone ∷ [];
  verification_tokens = link ∷ [];
}

-- Passwords of one length have one hash.
abbrev auth : AuthService
auth = record {
  refresh_ttl = 1000;
  verify_password = λ password hash.
      if length password == hash then PasswordCheck.matches else PasswordCheck.mismatch;
  needs_rehash = λ hash. false;
  hash_password = λ password salt. length password;
  hash_refresh_token = λ token. token + 100;
  access_token = λ user now. user;
}

abbrev known_password : Text
known_password = 97 ∷ 98 ∷ 99 ∷ 100 ∷ 101 ∷ 102 ∷ 103 ∷ 104 ∷ 105 ∷ 106 ∷ []

exchangeable : IsExchangeable vault phone 101 102 1020 2 20 20
exchangeable = record {
  known = refl;
  unrevoked = refl;
  unexpired = omega arith;
  unused = refl;
  fresh = refl;
  lasting = omega arith;
  owned = refl;
}

rotate-exchanges_example :
    (db' : Vault) × (rotate_refresh_token 101 102 1020 2 20 20 vault ≡ (ok 5, db'))
    × IsExchanged vault db' phone 101 102 1020 2 20
rotate-exchanges_example = rotate-exchanges vault phone 101 102 1020 2 20 20 exchangeable

-- The token of the phone is exchanged, and then presented by somebody else.
abbrev rotated : Vault
rotated = record vault { refresh_tokens = new_token 2 5 102 1020 20 ∷ retire 2 20 phone ∷ [] }

refreshes_once : refresh auth 1 2 2 20 20 vault ≡ (ok (session_of auth 5 2 20), rotated)
unfolding refresh rotate_refresh_token khel_arena.Store.Accounts.account_by_id
refreshes_once = refl

refresh-once_example :
    refresh auth 1 4 4 60 60 (login auth 33 known_password 0 3 3 40 40 rotated).1
    ≡ (session_expired, (login auth 33 known_password 0 3 3 40 40 rotated).1)
refresh-once_example =
    refresh-once auth 1 2 2 20 20 vault (refl, tt) refreshes_once
      (then_step at_once (logs_in 33 known_password 0 3 3 40 40 refl)) 4 4 60 60

-- The session that the thief has been given stays live.
still_live : any (is_held_by 5) rotated.refresh_tokens ≡ true
still_live = refl

-- The phone signs out, and its owner signs in again with another token.
logout_ends_example :
    refresh auth 1 4 4 60 60 (login auth 33 known_password 0 3 3 40 40 (logout auth 1 30 vault)).1
    ≡ (session_expired, (login auth 33 known_password 0 3 3 40 40 (logout auth 1 30 vault)).1)
logout_ends_example =
    logout_ends auth 1 30 vault refl
      (then_step at_once (logs_in 33 known_password 0 3 3 40 40 refl)) 4 4 60 60

acceptable : validate_password known_password ≡ none
unfolding validate_password
acceptable = refl

abbrev reset_vault : Vault
reset_vault = record {
  accounts = record { id = 5; email = 33; password_hash = 10 } ∷ [];
  refresh_tokens = record phone { revoked_at = some 50 } ∷ [];
  verification_tokens = record link { consumed_at = some 50 } ∷ [];
}

resets : complete_password_reset auth 7 known_password 0 50 vault ≡ (ok tt, reset_vault)
unfolding complete_password_reset validate_password consume_verification_token update_password
resets = refl

-- The owner signs in with the new password, asks for another link, and the first one is tried again.
abbrev signed_in_again : Vault
signed_in_again = (login auth 33 known_password 0 3 3 55 55 reset_vault).1

abbrev mailed_again : Vault
mailed_again = (begin_password_reset auth 33 8 57 57 signed_in_again).1

complete_password_reset-once_example :
    (v : VerificationToken) × (find
        (is_redeemable Purpose.password_reset 107 50)
        vault.verification_tokens
      ≡ some v)
    × (any (is_held_by v.user_id) reset_vault.refresh_tokens ≡ false)
    × (complete_password_reset auth 7 known_password 1 60 mailed_again
        ≡ (err (invalid "token" "That link has expired or has already been used."), mailed_again))
complete_password_reset-once_example =
    complete_password_reset-once auth 7 known_password known_password 0 50 1 60 vault resets
      (then_step (then_step at_once (logs_in 33 known_password 0 3 3 55 55 tt))
        (forgets 33 8 57 57 refl))
      (omega arith) acceptable
