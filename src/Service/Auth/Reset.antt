-- ===== src/Service/Auth/Reset.antt =====
-- What a completed password reset leaves behind.
use khel_arena.Prelude.{
  ℕ, ◌≤◌, ◌≡◌, refl, ap, subst, ◌∙◌, any-find, arith, false, not, some, none, List, [], ◌∷◌, any,
  find, option-intro, if-intro, Bool-cases, inl, inr,
}
use khel_arena.Domain.Errors.{Result, ok, err, invalid}
use khel_arena.Domain.Text.{Text}
use khel_arena.Domain.User.{validate_password}
use khel_arena.Store.Tables.{update_where, commit}
use khel_arena.Store.Updates.{any-update_where_self}
use khel_arena.Store.Sessions.{
  Purpose, VerificationToken, Vault, is_account, is_held_by, revoke, revoke_all_for_user,
}
use khel_arena.Store.Accounts.{
  update_password, update_password_tx, consume_verification_token, is_redeemable, consume,
}
use khel_arena.Service.Auth.{AuthService, complete_password_reset, then_update}
use khel_arena.Service.Auth.Steps.{AuthReach, Other, Whichever, AuthReach-kept}
use khel_arena.Service.Auth.Spent.{IsSpent, IsSpent-IsStable}

-- Nothing that is redeemed can be redeemed again.
redeemed :
    (purpose : Purpose) (digest db_now later : ℕ) (vs : List VerificationToken)
    → db_now ≤ later
    → any
        (is_redeemable purpose digest later)
        (update_where (is_redeemable purpose digest db_now) (consume db_now) vs)
      ≡ false
unfolding is_redeemable
redeemed purpose digest db_now later [] h = refl
redeemed purpose digest db_now later (v ∷ vs) h =
    let rest = redeemed purpose digest db_now later vs h in
    elim (Bool-cases (is_redeemable purpose digest db_now v)) [
      | inl hit ↦ rw hit (ground arith)
      | inr miss ↦
          let never : is_redeemable purpose digest later v ≡ false = ground arith in
          rw (miss, never) rest
    ]

revoke_all-held :
    (user db_now : ℕ) (db : Vault)
    → any (is_held_by user) (revoke_all_for_user user db_now db).refresh_tokens ≡ false
unfolding revoke_all_for_user
revoke_all-held user db_now db =
    any-update_where_self (is_held_by user) (revoke db_now) (λ t h. ground arith) db.refresh_tokens

-- The account is signed out everywhere, and its tokens for links are as they were.
abbrev SignedOut : ℕ → Vault → Result (Unit {0}) × Vault → Type 0
SignedOut user db (ok u, after) =
    (any (is_held_by user) after.refresh_tokens ≡ false)
    × (after.verification_tokens ≡ db.verification_tokens)
SignedOut user db (err e, after) = Unit

update_password-SignedOut :
    (user hash db_now : ℕ) (db : Vault) → SignedOut user db (update_password user hash db_now db)
unfolding update_password update_password_tx
update_password-SignedOut user hash db_now db =
    if-intro (λ x. SignedOut user db (commit db x)) (not (any (is_account user) db.accounts)) _ _
      (λ h. tt) λ h. (revoke_all-held user db_now db, refl)

-- What follows once the token was good.
abbrev IsReset : Purpose → ℕ → ℕ → Vault → Result (Unit {0}) × Vault → Type 0
IsReset purpose digest db_now db (err e, after) = Unit
IsReset purpose digest db_now db (ok u, after) =
    (v : VerificationToken) × (find (is_redeemable purpose digest db_now) db.verification_tokens
      ≡ some v)
    × (any (is_held_by v.user_id) after.refresh_tokens ≡ false)
    × (after.verification_tokens
        ≡ update_where (is_redeemable purpose digest db_now) (consume db_now)
            db.verification_tokens)

SignedOut-IsReset :
    (digest db_now : ℕ) (db mid : Vault) (v : VerificationToken) (x : Result (Unit {0}) × Vault)
    → find (is_redeemable Purpose.password_reset digest db_now) db.verification_tokens ≡ some v
    → mid.verification_tokens
      ≡ update_where
          (is_redeemable Purpose.password_reset digest db_now)
          (consume db_now)
          db.verification_tokens
    → SignedOut v.user_id mid x
    → IsReset Purpose.password_reset digest db_now db x
SignedOut-IsReset digest db_now db mid v (ok u, after) found spent (out, same) =
    (v, found, out, same ∙ spent)
SignedOut-IsReset digest db_now db mid v (err e, after) found spent out = tt

then_update-IsReset :
    (hash digest db_now : ℕ) (db : Vault)
    → IsReset Purpose.password_reset digest db_now db (
        then_update hash db_now
          (consume_verification_token Purpose.password_reset digest db_now db))
unfolding consume_verification_token
then_update-IsReset hash digest db_now db =
    option-intro (λ x. IsReset Purpose.password_reset digest db_now db (then_update hash db_now x))
      (find (is_redeemable Purpose.password_reset digest db_now) db.verification_tokens) _ _ tt
      λ v found.
        let mid : Vault = record db {
          verification_tokens =
              update_where (is_redeemable Purpose.password_reset digest db_now) (consume db_now)
                db.verification_tokens;
        } in
        SignedOut-IsReset digest db_now db mid v _ found refl
          (update_password-SignedOut v.user_id hash db_now mid)

complete_password_reset-IsReset :
    (s : AuthService) (token : ℕ) (password : Text) (salt db_now : ℕ) (db : Vault)
    → IsReset Purpose.password_reset
        (s.hash_refresh_token token)
        db_now
        db
        (complete_password_reset s token password salt db_now db)
unfolding complete_password_reset
complete_password_reset-IsReset s token password salt db_now db =
    option-intro (IsReset Purpose.password_reset (s.hash_refresh_token token) db_now db)
      (validate_password password) _ _
      (then_update-IsReset (s.hash_password password salt) (s.hash_refresh_token token) db_now db)
      λ e h. tt

-- A token that is not redeemable is refused.
complete_password_reset_spent :
    (s : AuthService) (token : ℕ) (password : Text) (salt db_now : ℕ) (db : Vault)
    → validate_password password ≡ none
    → any
        (is_redeemable Purpose.password_reset (s.hash_refresh_token token) db_now)
        db.verification_tokens
      ≡ false
    → complete_password_reset s token password salt db_now db
      ≡ (err (invalid "token" "That link has expired or has already been used."), db)
unfolding complete_password_reset consume_verification_token
complete_password_reset_spent s token password salt db_now db fine spent =
    let unknown = any-find _ db.verification_tokens spent in
    rw (complete_password_reset, fine, consume_verification_token, unknown) refl

-- A reset link signs the account out everywhere and is good for once: if CompletePasswordReset returns
-- without an error, then the token was redeemable, and no refresh token of its account is live on the
-- tables that it leaves; and whatever sign-ins, refreshes, sign-outs, password resets, changes and
-- sweeps follow, as long as no link with its digest is drawn again, the same token with an acceptable
-- password is refused at any later time, which changes nothing.
pub complete_password_reset-once :
    (s : AuthService) (token : ℕ) (password again : Text) (salt db_now salt' later : ℕ) (db : Vault)
    {mid after : Vault}
    → complete_password_reset s token password salt db_now db ≡ (ok tt, mid)
    → AuthReach s Whichever (Other (s.hash_refresh_token token)) mid after
    → db_now ≤ later
    → validate_password again ≡ none
    → (v : VerificationToken) × (find
          (is_redeemable Purpose.password_reset (s.hash_refresh_token token) db_now)
          db.verification_tokens
        ≡ some v)
      × (any (is_held_by v.user_id) mid.refresh_tokens ≡ false)
      × (complete_password_reset s token again salt' later after
          ≡ (err (invalid "token" "That link has expired or has already been used."), after))
complete_password_reset-once s token password again salt db_now salt' later db {mid} {after} h run
      later_on fine =
    let digest = s.hash_refresh_token token in
    let (v, found, out, spent) =
      subst (IsReset Purpose.password_reset digest db_now db) h
        (complete_password_reset-IsReset s token password salt db_now db) in
    let redone =
      redeemed Purpose.password_reset digest db_now later db.verification_tokens later_on in
    let gone : IsSpent digest later mid =
      ap (any (is_redeemable Purpose.password_reset digest later)) spent ∙ redone in
    (
      v,
      found,
      out,
      complete_password_reset_spent s token again salt' later after fine
          (AuthReach-kept s (IsSpent digest later) (IsSpent-IsStable digest later s) run gone),
    )
