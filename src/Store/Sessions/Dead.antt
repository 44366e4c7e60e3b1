-- ===== src/Store/Sessions/Dead.antt =====
-- A digest by which no live token is found, and that no statement on the tokens brings it back.
use khel_arena.Prelude.{
  ℕ, ◌≡◌, refl, ap, Bool, false, ◌&&◌, not, none, arith, ◌==◌, ltb, any, find, any-filter,
  find-some, any-member, Option-cases, inl, inr, if-intro, option-intro,
}
use khel_arena.Domain.Errors.{Result, ok, err}
use khel_arena.Store.Tables.{commit}
use khel_arena.Store.Updates.{any-update_where, any-update_where_self}
use khel_arena.Store.Sessions.{
  RefreshToken, Vault, has_hash, has_token_id, is_null, is_held_by, new_token, retire, revoke,
  insert_token, then_retire, rotate_found, rotate_tx, rotate_refresh_token, session_expired,
  revoke_all_for_user, revoke_refresh_token, delete_expired_tokens, is_deletable, dangles,
  store_refresh_token,
}
use khel_arena.Store.Sessions.Rotation.{rotate-revoked}

abbrev pub is_live_token : ℕ → RefreshToken → Bool
is_live_token digest t = has_hash digest t && is_null t.revoked_at

abbrev pub IsDead : ℕ → Vault → Type 0
IsDead digest db = any (is_live_token digest) db.refresh_tokens ≡ false

abbrev pub IsDeadAfter : {A : Type 0} → ℕ → Result A × Vault → Type 0
IsDeadAfter digest x = IsDead digest x.1

pub commit-IsDead :
    {A : Type 0} (digest : ℕ) (db : Vault) (x : Result A × Vault)
    → IsDead digest db
    → IsDeadAfter digest x
    → IsDeadAfter digest (commit db x)
commit-IsDead digest db (ok a, db') before after = after
commit-IsDead digest db (err e, db') before after = before

module _ (digest : ℕ) (db : Vault) (dead : IsDead digest db) where
  insert_token-IsDead :
      (t : RefreshToken) → (t.token_hash == digest) ≡ false → IsDeadAfter digest (insert_token t db)
  unfolding insert_token
  insert_token-IsDead t other = ground arith

  pub revoke_all-IsDead : (user db_now : ℕ) → IsDead digest (revoke_all_for_user user db_now db)
  unfolding revoke_all_for_user
  revoke_all-IsDead user db_now =
      any-update_where (is_held_by user) (revoke db_now) (is_live_token digest)
        (λ t h e. ground arith) db.refresh_tokens dead

  pub revoke-IsDead : (other db_now : ℕ) → IsDead digest (revoke_refresh_token other db_now db)
  unfolding revoke_refresh_token
  revoke-IsDead other db_now =
      any-update_where _ (revoke db_now) (is_live_token digest) (λ t h e. ground arith)
        db.refresh_tokens dead

  pub store_refresh_token-IsDead :
      (user new_digest expires_at id db_now : ℕ)
      → (new_digest == digest) ≡ false
      → IsDeadAfter digest (store_refresh_token user new_digest expires_at id db_now db)
  unfolding store_refresh_token
  store_refresh_token-IsDead user new_digest expires_at id db_now other =
      insert_token-IsDead (new_token id user new_digest expires_at db_now) other

  then_retire-IsDead :
      (t : RefreshToken) (id db_now : ℕ) (x : Result (Unit {0}) × Vault)
      → IsDeadAfter digest x
      → IsDeadAfter digest (then_retire t id db_now x)
  then_retire-IsDead t id db_now (ok u, after) h =
      any-update_where (has_token_id t.id) (retire id db_now) (is_live_token digest)
        (λ t h e. ground arith) after.refresh_tokens h
  then_retire-IsDead t id db_now (err e, after) h = h

  rotate_found-IsDead :
      (t : RefreshToken) (new_digest expires_at id now db_now : ℕ)
      → (new_digest == digest) ≡ false
      → IsDeadAfter digest (rotate_found t new_digest expires_at id now db_now db)
  unfolding rotate_found
  rotate_found-IsDead t new_digest expires_at id now db_now other =
      option-intro (IsDeadAfter digest) t.revoked_at _ _
        (if-intro (IsDeadAfter digest) (not (ltb now t.expires_at)) _ _ (λ h. dead)
          λ h.
            then_retire-IsDead t id db_now
              (insert_token (new_token id t.user_id new_digest expires_at db_now) db)
              (insert_token-IsDead (new_token id t.user_id new_digest expires_at db_now) other))
        λ at h. revoke_all-IsDead t.user_id db_now

  rotate_tx-IsDead :
      (old_digest new_digest expires_at id now db_now : ℕ)
      → (new_digest == digest) ≡ false
      → IsDeadAfter digest (rotate_tx old_digest new_digest expires_at id now db_now db)
  unfolding rotate_tx
  rotate_tx-IsDead old_digest new_digest expires_at id now db_now other =
      option-intro (IsDeadAfter digest) (find (has_hash old_digest) db.refresh_tokens) _ _ dead
        λ t h. rotate_found-IsDead t new_digest expires_at id now db_now other

  pub rotate-IsDead :
      (old_digest new_digest expires_at id now db_now : ℕ)
      → (new_digest == digest) ≡ false
      → IsDeadAfter digest (rotate_refresh_token old_digest new_digest expires_at id now db_now db)
  unfolding rotate_refresh_token
  rotate-IsDead old_digest new_digest expires_at id now db_now other =
      commit-IsDead digest db (rotate_tx old_digest new_digest expires_at id now db_now db) dead
        (rotate_tx-IsDead old_digest new_digest expires_at id now db_now other)

  pub delete_expired-IsDead :
      (retain db_now : ℕ) → IsDeadAfter digest (delete_expired_tokens retain db_now db)
  unfolding delete_expired_tokens
  delete_expired-IsDead retain db_now =
      if-intro (IsDeadAfter digest) (dangles (is_deletable retain db_now) db.refresh_tokens) _ _
        (λ h. dead) λ h. any-filter (is_live_token digest) _ db.refresh_tokens dead

rotate_tx_unknown :
    (db : Vault) (old_digest new_digest expires_at id now db_now : ℕ)
    → find (has_hash old_digest) db.refresh_tokens ≡ none
    → rotate_tx old_digest new_digest expires_at id now db_now db ≡ (session_expired, db)
unfolding rotate_tx
rotate_tx_unknown db old_digest new_digest expires_at id now db_now unknown =
    rw (rotate_tx, unknown) refl

-- A dead token is refused, whether it is revoked or unknown.
pub rotate_dead :
    (db : Vault) (old_digest new_digest expires_at id now db_now : ℕ)
    → IsDead old_digest db
    → rotate_refresh_token old_digest new_digest expires_at id now db_now db ≡ (session_expired, db)
unfolding rotate_refresh_token
rotate_dead db old_digest new_digest expires_at id now db_now dead =
    elim (Option-cases (find (has_hash old_digest) db.refresh_tokens)) [
      | inl unknown ↦
          ap (commit db)
            (rotate_tx_unknown db old_digest new_digest expires_at id now db_now unknown)
      | inr (t, known) ↦
          let (hash, member) = find-some (has_hash old_digest) db.refresh_tokens known in
          let spent = any-member (is_live_token old_digest) db.refresh_tokens dead member in
          elim (Option-cases t.revoked_at) [
            | inl unrevoked ↦ ground arith
            | inr (at, revoked) ↦
                rotate-revoked db t old_digest new_digest expires_at id now db_now at known revoked
          ]
    ]

-- A token that is revoked by its digest is dead from then on.
pub revoke_refresh_token-IsDead :
    (db : Vault) (digest db_now : ℕ) → IsDead digest (revoke_refresh_token digest db_now db)
unfolding revoke_refresh_token
revoke_refresh_token-IsDead db digest db_now =
    any-update_where_self _ (revoke db_now) (λ t h. ground arith) db.refresh_tokens
