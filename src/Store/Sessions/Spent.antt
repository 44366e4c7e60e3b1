-- ===== src/Store/Sessions/Spent.antt =====
-- An exchange that goes well leaves no live token of the digest that was exchanged.
use khel_arena.Prelude.{
  ℕ, ◌≡◌, refl, false, true, not, some, List, [], ◌∷◌, inl, inr, arith, ◌==◌, ltb, any, find,
  AllPairs, Bool-cases, any-weaken, if-intro, option-intro,
}
use khel_arena.Domain.Errors.{Result, ok, err}
use khel_arena.Store.Tables.{update_where, commit}
use khel_arena.Store.Updates.{any-update_where}
use khel_arena.Store.Sessions.{
  RefreshToken, Vault, has_hash, has_token_id, is_account, new_token, retire, insert_token,
  then_retire, rotate_found, rotate_tx, rotate_refresh_token, same_digest,
}
use khel_arena.Store.Sessions.Rotation.{unused-apart}
use khel_arena.Store.Sessions.Dead.{IsDead, is_live_token}

-- If the transaction goes well, the digest is dead after it.
abbrev pub IsDeadIfOk : {A : Type 0} → ℕ → Result A × Vault → Type 0
IsDeadIfOk digest (err e, db) = Unit
IsDeadIfOk digest (ok u, db) = IsDead digest db

-- With unique digests, the token that is retired is the only one of its digest.
retire-dead :
    (digest id db_now : ℕ) (tokens : List RefreshToken) {t : RefreshToken}
    → AllPairs same_digest tokens
    → find (has_hash digest) tokens ≡ some t
    → any (is_live_token digest) (update_where (has_token_id t.id) (retire id db_now) tokens)
      ≡ false
retire-dead digest id db_now [] {t} unique known = ground arith
retire-dead digest id db_now (x ∷ tokens) {t} unique known = elim (Bool-cases (has_hash digest x)) [
  | inl hit ↦
      let same : x ≡ t = ground arith in
      let self : has_token_id t.id x ≡ true = ground arith in
      let others : any (is_live_token digest) tokens ≡ false =
        any-weaken (same_digest x) (is_live_token digest) (λ y h. ground arith) tokens unique.0 in
      let rest =
        any-update_where (has_token_id t.id) (retire id db_now) (is_live_token digest)
          (λ y h e. ground arith) tokens others in
      rw (self, rest) (ground arith)
  | inr miss ↦
      let rest = retire-dead digest id db_now tokens {t = t} unique.1 (ground arith) in
      elim (Bool-cases (has_token_id t.id x)) [
        | inl self ↦ rw (self, rest) (ground arith)
        | inr other ↦ rw (other, rest) (ground arith)
      ]
]

then_retire-IsDeadIfOk :
    (db : Vault) (t : RefreshToken) (old_digest new_digest expires_at id db_now : ℕ)
    → AllPairs same_digest db.refresh_tokens
    → find (has_hash old_digest) db.refresh_tokens ≡ some t
    → IsDeadIfOk old_digest (
        then_retire t id db_now
          (insert_token (new_token id t.user_id new_digest expires_at db_now) db))
unfolding insert_token
then_retire-IsDeadIfOk db t old_digest new_digest expires_at id db_now unique known =
    if-intro After (not (ltb db_now expires_at)) _ _ (λ h. tt)
      λ lasting.
        if-intro After (any (has_hash new_digest) db.refresh_tokens) _ _ (λ h. tt)
          λ unused.
            if-intro After (not (any (is_account t.user_id) db.accounts)) _ _ (λ h. tt)
              λ owned.
                let apart = unused-apart old_digest new_digest db.refresh_tokens known unused in
                let rest = retire-dead old_digest id db_now db.refresh_tokens unique known in
                elim (Bool-cases (id == t.id)) [
                  | inl same ↦ rw (same, apart, rest) refl
                  | inr other ↦ rw (other, apart, rest) refl
                ]
  where
    After : Result (Unit {0}) × Vault → Type 0
    After x = IsDeadIfOk old_digest (then_retire t id db_now x)

rotate_tx-IsDeadIfOk :
    (db : Vault) (old_digest new_digest expires_at id now db_now : ℕ)
    → AllPairs same_digest db.refresh_tokens
    → IsDeadIfOk old_digest (rotate_tx old_digest new_digest expires_at id now db_now db)
unfolding rotate_tx rotate_found
rotate_tx-IsDeadIfOk db old_digest new_digest expires_at id now db_now unique =
    option-intro (IsDeadIfOk old_digest) (find (has_hash old_digest) db.refresh_tokens) _ _ tt
      λ t known.
        option-intro (IsDeadIfOk old_digest) t.revoked_at _ _
          (if-intro (IsDeadIfOk old_digest) (not (ltb now t.expires_at)) _ _ (λ h. tt)
            λ h.
              then_retire-IsDeadIfOk db t old_digest new_digest expires_at id db_now unique known)
          λ at h. tt

commit-IsDeadIfOk :
    (digest : ℕ) (db : Vault) (x : Result ℕ × Vault)
    → IsDeadIfOk digest x
    → IsDeadIfOk digest (commit db x)
commit-IsDeadIfOk digest db (ok u, after) dead = dead
commit-IsDeadIfOk digest db (err e, after) dead = tt

-- RotateRefreshToken, if it answers with an account.
pub rotate-IsDeadIfOk :
    (db : Vault) (old_digest new_digest expires_at id now db_now : ℕ)
    → AllPairs same_digest db.refresh_tokens
    → IsDeadIfOk old_digest (rotate_refresh_token old_digest new_digest expires_at id now db_now db)
unfolding rotate_refresh_token
rotate-IsDeadIfOk db old_digest new_digest expires_at id now db_now unique =
    commit-IsDeadIfOk old_digest db (rotate_tx old_digest new_digest expires_at id now db_now db)
      (rotate_tx-IsDeadIfOk db old_digest new_digest expires_at id now db_now unique)
