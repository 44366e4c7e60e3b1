-- ===== src/Service/Auth/Runs.antt =====
-- What ends a session for good, whatever calls follow.
use khel_arena.Prelude.{
  ℕ, ◌≡◌, false, ◌==◌, ap, arith, not, any, AllPairs, subst, if-intro, option-intro, find,
}
use khel_arena.Domain.Errors.{Result, ok, err, result-intro}
use khel_arena.Store.Sessions.{Vault, session_expired, is_account, same_digest}
use khel_arena.Store.Accounts.{
  account_by_id, update_password, update_password_tx, store_verification_token,
  store_verification_tx, consume_verification_token,
}
use khel_arena.Store.Sessions.Dead.{
  IsDead, IsDeadAfter, commit-IsDead, revoke_all-IsDead, revoke-IsDead, revoke_refresh_token-IsDead,
  store_refresh_token-IsDead, rotate-IsDead, rotate_dead, delete_expired-IsDead,
}
use khel_arena.Store.Sessions.Spent.{IsDeadIfOk, rotate-IsDeadIfOk}
use khel_arena.Service.Auth.{AuthService, Session, refresh, then_pair, logout}
use khel_arena.Service.Auth.Steps.{AuthReach, Other, Whichever, IsStable, AuthReach-kept}

module _ (digest : ℕ) (db : Vault) (dead : IsDead digest db) where
  update_password-IsDead :
      (user hash db_now : ℕ) → IsDeadAfter digest (update_password user hash db_now db)
  unfolding update_password update_password_tx
  update_password-IsDead user hash db_now =
      commit-IsDead digest db (update_password_tx user hash db_now db) dead (
        if-intro (IsDeadAfter digest) (not (any (is_account user) db.accounts)) _ _ (λ h. dead)
          λ h. revoke_all-IsDead digest db dead user db_now)

IsDead-IsStable :
    (s : AuthService) (digest : ℕ) → IsStable s (Other digest) Whichever (IsDead digest)
unfolding store_verification_token store_verification_tx consume_verification_token
IsDead-IsStable s digest = record {
  store = λ db user new expires_at id db_now dead other.
      store_refresh_token-IsDead digest db dead user new expires_at id db_now other;
  rotate = λ db old new expires_at id now db_now dead other.
      rotate-IsDead digest db dead old new expires_at id now db_now other;
  revoke = λ db other db_now dead. revoke-IsDead digest db dead other db_now;
  password = λ db user hash db_now dead. update_password-IsDead digest db dead user hash db_now;
  mail = λ db user new expires_at db_now dead other.
      commit-IsDead digest db (store_verification_tx user _ new expires_at db_now db) dead
        (if-intro (IsDeadAfter digest) _ _ _ (λ k. dead) λ k. dead);
  redeem = λ db other db_now dead.
      option-intro (IsDeadAfter digest) (find _ db.verification_tokens) _ _ dead λ v h. dead;
  sweep = λ db retain db_now dead. delete_expired-IsDead digest db dead retain db_now;
}

refresh_dead :
    (s : AuthService) (token : ℕ) (after : Vault) (plaintext id now later : ℕ)
    → IsDead (s.hash_refresh_token token) after
    → refresh s token plaintext id now later after ≡ (session_expired, after)
unfolding refresh
refresh_dead s token after plaintext id now later dead =
    if-intro (λ x. x ≡ (session_expired, after)) (token == 0) _ _
      (λ empty. λ _. (session_expired, after))
      λ given.
        ap (then_pair s plaintext now)
          (rotate_dead after (s.hash_refresh_token token) _ _ id now later dead)

-- Signing out is for good: after Logout of a token, whatever sign-ins, refreshes, sign-outs, password
-- resets, changes and sweeps follow, as long as no token with its digest is drawn again, Refresh with
-- it is refused and changes nothing.
pub logout_ends :
    (s : AuthService) (token db_now : ℕ) (db : Vault) {after : Vault}
    → (token == 0) ≡ false
    → AuthReach s (Other (s.hash_refresh_token token)) Whichever (logout s token db_now db) after
    → (plaintext id now later : ℕ)
    → refresh s token plaintext id now later after ≡ (session_expired, after)
unfolding logout
logout_ends s token db_now db given run plaintext id now later =
    let digest = s.hash_refresh_token token in
    let start : IsDead digest (logout s token db_now db) =
      if-intro (IsDead digest) (token == 0) _ _ (λ empty. ground arith)
        λ h. revoke_refresh_token-IsDead db digest db_now in
    refresh_dead s token _ plaintext id now later
      (AuthReach-kept s (IsDead digest) (IsDead-IsStable s digest) run start)

then_pair-IsDeadIfOk :
    (s : AuthService) (digest plaintext now : ℕ) (x : Result ℕ × Vault)
    → IsDeadIfOk digest x
    → IsDeadIfOk digest (then_pair s plaintext now x)
then_pair-IsDeadIfOk s digest plaintext now (ok user, db) dead =
    result-intro (IsDeadIfOk digest) (account_by_id db user) _ _ (λ e. tt) λ a h. dead
then_pair-IsDeadIfOk s digest plaintext now (err e, db) dead = tt

refresh-IsDeadIfOk :
    (s : AuthService) (token plaintext id now db_now : ℕ) (db : Vault)
    → AllPairs same_digest db.refresh_tokens
    → IsDeadIfOk (s.hash_refresh_token token) (refresh s token plaintext id now db_now db)
unfolding refresh
refresh-IsDeadIfOk s token plaintext id now db_now db unique =
    let digest = s.hash_refresh_token token in
    if-intro (IsDeadIfOk digest) (token == 0) _ _ (λ empty. tt)
      λ given.
        then_pair-IsDeadIfOk s digest plaintext now _
          (rotate-IsDeadIfOk db digest _ _ id now db_now unique)

-- A refresh token is good for one exchange: on tables where no two refresh tokens have one digest, once
-- Refresh with a token has returned a session, whatever sign-ins, refreshes, sign-outs, password
-- resets, changes and sweeps follow, as long as no token with its digest is drawn again, every later
-- Refresh with it is refused and changes nothing, so that it revokes no session of the account.
pub refresh-once :
    (s : AuthService) (token plaintext id now db_now : ℕ) (db : Vault) {session : Session}
    {mid after : Vault}
    → AllPairs same_digest db.refresh_tokens
    → refresh s token plaintext id now db_now db ≡ (ok session, mid)
    → AuthReach s (Other (s.hash_refresh_token token)) Whichever mid after
    → (other_plaintext other_id later later_db_now : ℕ)
    → refresh s token other_plaintext other_id later later_db_now after ≡ (session_expired, after)
refresh-once s token plaintext id now db_now db {mid = mid} {after = after} unique done run
      other_plaintext other_id later later_db_now =
    let digest = s.hash_refresh_token token in
    let dead : IsDead digest mid =
      subst (IsDeadIfOk digest) done
        (refresh-IsDeadIfOk s token plaintext id now db_now db unique) in
    refresh_dead s token after other_plaintext other_id later later_db_now
      (AuthReach-kept s (IsDead digest) (IsDead-IsStable s digest) run dead)
