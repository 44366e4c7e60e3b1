-- ===== src/Service/Auth/Spent.antt =====
-- A reset link that is of no use from some time on, and that no call brings back.
use khel_arena.Prelude.{
  ℕ, Bool, ◌≡◌, false, not, ◌||◌, ◌==◌, ltb, arith, any, find, if-intro, option-intro,
}
use khel_arena.Domain.Errors.{Result, ok, err}
use khel_arena.Store.Tables.{commit, update_where}
use khel_arena.Store.Updates.{any-update_where}
use khel_arena.Store.Sessions.{
  RefreshToken, VerificationToken, Purpose, Vault, has_hash, is_account, new_token, insert_token,
  store_refresh_token, then_retire, rotate_found, rotate_tx, rotate_refresh_token,
  revoke_all_for_user, revoke_refresh_token, delete_expired_tokens, is_deletable, dangles,
}
use khel_arena.Store.Accounts.{
  update_password, update_password_tx, store_verification_token, store_verification_tx,
  consume_verification_token, is_redeemable, is_unspent, has_digest, consume,
}
use khel_arena.Service.Auth.{AuthService}
use khel_arena.Service.Auth.Steps.{Other, Whichever, IsStable}

-- No reset token of the digest can be redeemed at the time.
abbrev pub IsSpent : ℕ → ℕ → Vault → Type 0
IsSpent digest since db =
    any (is_redeemable Purpose.password_reset digest since) db.verification_tokens ≡ false

module _ (digest since : ℕ) where
  abbrev IsSpentAfter : {A : Type 0} → Result A × Vault → Type 0
  IsSpentAfter x = IsSpent digest since x.1

  commit-IsSpent :
      {A : Type 0} (db : Vault) (x : Result A × Vault)
      → IsSpent digest since db
      → IsSpentAfter x
      → IsSpentAfter (commit db x)
  commit-IsSpent db (ok a, after) before h = h
  commit-IsSpent db (err e, after) before h = before

  module _ (db : Vault) (spent : IsSpent digest since db) where
    insert_token-IsSpent : (t : RefreshToken) → IsSpentAfter (insert_token t db)
    unfolding insert_token
    insert_token-IsSpent t =
        if-intro IsSpentAfter (not (ltb t.issued_at t.expires_at)) _ _ (λ h. spent)
          λ h.
            if-intro IsSpentAfter (any (has_hash t.token_hash) db.refresh_tokens) _ _ (λ k. spent)
              λ k.
                if-intro IsSpentAfter (not (any (is_account t.user_id) db.accounts)) _ _
                  (λ l. spent) λ l. spent

    store-IsSpent :
        (user new expires_at id db_now : ℕ)
        → IsSpentAfter (store_refresh_token user new expires_at id db_now db)
    unfolding store_refresh_token
    store-IsSpent user new expires_at id db_now =
        insert_token-IsSpent (new_token id user new expires_at db_now)

    then_retire-IsSpent :
        (id db_now : ℕ) (t : RefreshToken) (x : Result (Unit {0}) × Vault)
        → IsSpentAfter x
        → IsSpentAfter (then_retire t id db_now x)
    then_retire-IsSpent id db_now t (ok u, after) h = h
    then_retire-IsSpent id db_now t (err e, after) h = h

    rotate-IsSpent :
        (old new expires_at id now db_now : ℕ)
        → IsSpentAfter (rotate_refresh_token old new expires_at id now db_now db)
    unfolding rotate_refresh_token rotate_tx rotate_found revoke_all_for_user
    rotate-IsSpent old new expires_at id now db_now =
        commit-IsSpent db (rotate_tx old new expires_at id now db_now db) spent (
          option-intro IsSpentAfter (find (has_hash old) db.refresh_tokens) _ _ spent λ t known.
            option-intro IsSpentAfter t.revoked_at _ _
              (if-intro IsSpentAfter (not (ltb now t.expires_at)) _ _ (λ h. spent)
                λ h.
                  then_retire-IsSpent id db_now t _
                    (insert_token-IsSpent (new_token id t.user_id new expires_at db_now)))
              λ at h. spent)

    password-IsSpent : (user hash db_now : ℕ) → IsSpentAfter (update_password user hash db_now db)
    unfolding update_password update_password_tx revoke_all_for_user
    password-IsSpent user hash db_now =
        commit-IsSpent db (update_password_tx user hash db_now db) spent (
          if-intro IsSpentAfter (not (any (is_account user) db.accounts)) _ _ (λ h. spent)
            λ h. spent)

    -- A token that is consumed is not redeemable, whatever its digest.
    consumed-IsSpent :
        (p : VerificationToken → Bool) (db_now : ℕ)
        → any
            (is_redeemable Purpose.password_reset digest since)
            (update_where p (consume db_now) db.verification_tokens)
          ≡ false
    unfolding is_redeemable
    consumed-IsSpent p db_now =
        any-update_where p (consume db_now) (is_redeemable Purpose.password_reset digest since)
          (λ v h k. ground arith) db.verification_tokens spent

    mail-IsSpent :
        (user new expires_at db_now : ℕ)
        → (new == digest) ≡ false
        → IsSpentAfter
            (store_verification_token user Purpose.password_reset new expires_at db_now db)
    unfolding store_verification_token store_verification_tx is_redeemable
    mail-IsSpent user new expires_at db_now other =
        commit-IsSpent db
          (store_verification_tx user Purpose.password_reset new expires_at db_now db) spent
          (if-intro IsSpentAfter
            (any (has_digest new) db.verification_tokens || not (any (is_account user) db.accounts))
            _ _ (λ h. spent)
            λ h.
              let rest = consumed-IsSpent (is_unspent user Purpose.password_reset) db_now in
              rw other rest)

    redeem-IsSpent :
        (other db_now : ℕ)
        → IsSpentAfter (consume_verification_token Purpose.password_reset other db_now db)
    unfolding consume_verification_token
    redeem-IsSpent other db_now =
        option-intro IsSpentAfter
          (find (is_redeemable Purpose.password_reset other db_now) db.verification_tokens) _ _
          spent
          λ v found. consumed-IsSpent (is_redeemable Purpose.password_reset other db_now) db_now

    sweep-IsSpent : (retain db_now : ℕ) → IsSpentAfter (delete_expired_tokens retain db_now db)
    unfolding delete_expired_tokens
    sweep-IsSpent retain db_now =
        if-intro IsSpentAfter (dangles (is_deletable retain db_now) db.refresh_tokens) _ _
          (λ h. spent) λ h. spent

  pub IsSpent-IsStable :
      (s : AuthService) → IsStable s Whichever (Other digest) (IsSpent digest since)
  unfolding revoke_refresh_token
  IsSpent-IsStable s = record {
    store = λ db user new expires_at id db_now spent drawn.
        store-IsSpent db spent user new expires_at id db_now;
    rotate = λ db old new expires_at id now db_now spent drawn.
        rotate-IsSpent db spent old new expires_at id now db_now;
    revoke = λ db other db_now spent. spent;
    password = λ db user hash db_now spent. password-IsSpent db spent user hash db_now;
    mail = λ db user new expires_at db_now spent other.
        mail-IsSpent db spent user new expires_at db_now other;
    redeem = λ db other db_now spent. redeem-IsSpent db spent other db_now;
    sweep = λ db retain db_now spent. sweep-IsSpent db spent retain db_now;
  }
