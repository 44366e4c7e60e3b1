-- ===== src/Store/Sessions/Rotation.antt =====
-- What the exchange of a refresh token does, and what happens to one that is presented again.
use khel_arena.Prelude.{
  ℕ, ◌<◌, ◌≡◌, refl, ap, true, false, not, some, none, List, ◌∷◌, length, suc, filter, arith, ◌==◌,
  ltb, lt→ltb, any, find, find-some, any-member,
}
use khel_arena.Domain.Errors.{ok}
use khel_arena.Store.Tables.{update_where, commit}
use khel_arena.Store.Updates.{find-update_where, length-update_where, filter-update_where}
use khel_arena.Store.Sessions.{
  RefreshToken, Vault, has_hash, has_token_id, is_account, new_token, retire, insert_token,
  rotate_found, rotate_tx, rotate_refresh_token, session_expired, revoke_all_for_user,
}

-- A token that can be exchanged: known, not revoked, and not expired; and a replacement that the
-- tables take.
pub record IsExchangeable (db : Vault) (t : RefreshToken)
    (old_digest new_digest expires_at id now db_now : ℕ) : Type 0 where
  pub known : find (has_hash old_digest) db.refresh_tokens ≡ some t
  pub unrevoked : t.revoked_at ≡ none
  pub unexpired : now < t.expires_at
  pub unused : any (has_hash new_digest) db.refresh_tokens ≡ false
  pub fresh : any (has_token_id id) db.refresh_tokens ≡ false
  pub lasting : db_now < expires_at
  pub owned : any (is_account t.user_id) db.accounts ≡ true

insert_token-ok :
    (t : RefreshToken) (db : Vault)
    → t.issued_at < t.expires_at
    → any (has_hash t.token_hash) db.refresh_tokens ≡ false
    → any (is_account t.user_id) db.accounts ≡ true
    → insert_token t db ≡ (ok tt, record db { refresh_tokens = t ∷ db.refresh_tokens })
unfolding insert_token
insert_token-ok t db lasting unused owned =
    let lasts : ltb t.issued_at t.expires_at ≡ true = ground arith in rw (lasts, unused, owned) refl

-- A digest that no token has is not the digest of a token that is found.
pub unused-apart :
    (old_digest new_digest : ℕ) (tokens : List RefreshToken) {t : RefreshToken}
    → find (has_hash old_digest) tokens ≡ some t
    → any (has_hash new_digest) tokens ≡ false
    → (new_digest == old_digest) ≡ false
unused-apart old_digest new_digest tokens {t} known unused =
    let (at, member) = find-some (has_hash old_digest) tokens known in
    let apart : (t.token_hash == new_digest) ≡ false =
      any-member (has_hash new_digest) tokens unused member in
    ground arith

module _ (db : Vault) (t : RefreshToken) (old_digest new_digest expires_at id now db_now : ℕ)
    (h : IsExchangeable db t old_digest new_digest expires_at id now db_now) where
  other_id : (id == t.id) ≡ false
  other_id =
      let (at, member) = find-some (has_hash old_digest) db.refresh_tokens h.known in
      let apart : (t.id == id) ≡ false =
        any-member (has_token_id id) db.refresh_tokens h.fresh member in
      ground arith

  -- The tables after the exchange.
  exchanged : Vault
  exchanged = record db {
    refresh_tokens =
        new_token id t.user_id new_digest expires_at db_now
        ∷ update_where (has_token_id t.id) (retire id db_now) db.refresh_tokens;
  }

  rotate_found-exchanged :
      rotate_found t new_digest expires_at id now db_now db ≡ (ok t.user_id, exchanged)
  unfolding rotate_found exchanged
  rotate_found-exchanged =
      let lasts : ltb now t.expires_at ≡ true = lt→ltb _ _ h.unexpired in
      rw
        (
          h.unrevoked,
          lasts,
          insert_token-ok (new_token id t.user_id new_digest expires_at db_now) db h.lasting
              h.unused h.owned,
          other_id,
        )
        refl

  rotate_tx-exchanged :
      rotate_tx old_digest new_digest expires_at id now db_now db ≡ (ok t.user_id, exchanged)
  unfolding rotate_tx
  rotate_tx-exchanged = rw (rotate_tx, h.known) rotate_found-exchanged

  rotate-exchanged :
      rotate_refresh_token old_digest new_digest expires_at id now db_now db
      ≡ (ok t.user_id, exchanged)
  unfolding rotate_refresh_token
  rotate-exchanged = ap (commit db) rotate_tx-exchanged

  find-exchanged : find (has_hash old_digest) exchanged.refresh_tokens ≡ some (retire id db_now t)
  unfolding exchanged
  find-exchanged =
      let found =
        find-update_where (has_token_id t.id) (retire id db_now) (has_hash old_digest) (λ x. refl)
          db.refresh_tokens h.known in
      let self : (t.id == t.id) ≡ true = ground arith in
      rw (unused-apart old_digest new_digest db.refresh_tokens h.known h.unused, found, self) refl

  -- The new token is found under its digest.
  fresh-exchanged :
      find (has_hash new_digest) exchanged.refresh_tokens
      ≡ some (new_token id t.user_id new_digest expires_at db_now)
  unfolding exchanged
  fresh-exchanged = let self : (new_digest == new_digest) ≡ true = ground arith in rw self refl

  -- The tokens with another identifier are the ones that were there, and the new one.
  others-exchanged :
      filter (λ u. not (has_token_id t.id u)) exchanged.refresh_tokens
      ≡ new_token id t.user_id new_digest expires_at db_now
        ∷ filter (λ u. not (has_token_id t.id u)) db.refresh_tokens
  unfolding exchanged
  others-exchanged =
      let rest =
        filter-update_where (has_token_id t.id) (retire id db_now) (λ u hit. hit)
          db.refresh_tokens in
      rw (other_id, rest) refl

-- What an exchange of t, at db_now, has made of the tables.
pub record IsExchanged (db db' : Vault) (t : RefreshToken)
    (old_digest new_digest expires_at id db_now : ℕ) : Type 0 where
  pub old : RefreshToken
  pub old_found : find (has_hash old_digest) db'.refresh_tokens ≡ some old
  pub old_revoked : old.revoked_at ≡ some db_now
  pub old_replaced : old.replaced_by ≡ some id
  pub old_same : (old.id ≡ t.id) × (old.user_id ≡ t.user_id) × (old.expires_at ≡ t.expires_at)
  pub fresh : RefreshToken
  pub fresh_found : find (has_hash new_digest) db'.refresh_tokens ≡ some fresh
  pub fresh_id : fresh.id ≡ id
  pub fresh_owner : fresh.user_id ≡ t.user_id
  pub fresh_live : fresh.revoked_at ≡ none
  pub fresh_until : fresh.expires_at ≡ expires_at
  pub others :
      filter (λ u. not (has_token_id t.id u)) db'.refresh_tokens
      ≡ fresh ∷ filter (λ u. not (has_token_id t.id u)) db.refresh_tokens
  pub one_more : length db'.refresh_tokens ≡ suc (length db.refresh_tokens)
  pub same_accounts : db'.accounts ≡ db.accounts
  pub same_links : db'.verification_tokens ≡ db.verification_tokens

-- An exchange of a token that is known, not revoked and not expired, whose account exists, for a digest
-- and an identifier that no token has and an expiry after now, answers with the account of the token.
-- The old token is then revoked as of now and replaced by the new one, with the owner and expiry that
-- it had; the new one belongs to the same account, is not revoked and expires when it was asked to;
-- the rows with another identifier than the old token's are those that there were and the new one;
-- there is one row more; and the accounts and the tokens for links are the same.
pub rotate-exchanges :
    (db : Vault) (t : RefreshToken) (old_digest new_digest expires_at id now db_now : ℕ)
    → IsExchangeable db t old_digest new_digest expires_at id now db_now
    → (db' : Vault) × (rotate_refresh_token old_digest new_digest expires_at id now db_now db
        ≡ (ok t.user_id, db'))
      × IsExchanged db db' t old_digest new_digest expires_at id db_now
unfolding exchanged
rotate-exchanges db t old_digest new_digest expires_at id now db_now h = (
  exchanged db t old_digest new_digest expires_at id now db_now h,
  rotate-exchanged db t old_digest new_digest expires_at id now db_now h,
  record {
    old = retire id db_now t;
    old_found = find-exchanged db t old_digest new_digest expires_at id now db_now h;
    old_revoked = refl;
    old_replaced = refl;
    old_same = (refl, refl, refl);
    fresh = new_token id t.user_id new_digest expires_at db_now;
    fresh_found = fresh-exchanged db t old_digest new_digest expires_at id now db_now h;
    fresh_id = refl;
    fresh_owner = refl;
    fresh_live = refl;
    fresh_until = refl;
    others = others-exchanged db t old_digest new_digest expires_at id now db_now h;
    one_more =
        omega (arith, length-update_where (has_token_id t.id) (retire id db_now) db.refresh_tokens);
    same_accounts = refl;
    same_links = refl;
  },
)

rotate_tx-revoked :
    (db : Vault) (t : RefreshToken) (old_digest new_digest expires_at id now db_now at : ℕ)
    → find (has_hash old_digest) db.refresh_tokens ≡ some t
    → t.revoked_at ≡ some at
    → rotate_tx old_digest new_digest expires_at id now db_now db
      ≡ (session_expired, revoke_all_for_user t.user_id db_now db)
unfolding rotate_tx rotate_found
rotate_tx-revoked db t old_digest new_digest expires_at id now db_now at known revoked =
    rw (rotate_tx, known, rotate_found, revoked) refl

-- A token that is revoked is refused, and the refusal is rolled back with all that it revoked.
pub rotate-revoked :
    (db : Vault) (t : RefreshToken) (old_digest new_digest expires_at id now db_now at : ℕ)
    → find (has_hash old_digest) db.refresh_tokens ≡ some t
    → t.revoked_at ≡ some at
    → rotate_refresh_token old_digest new_digest expires_at id now db_now db ≡ (session_expired, db)
unfolding rotate_refresh_token
rotate-revoked db t old_digest new_digest expires_at id now db_now at known revoked =
    ap (commit db)
      (rotate_tx-revoked db t old_digest new_digest expires_at id now db_now at known revoked)
