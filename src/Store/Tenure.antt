-- ===== src/Store/Tenure.antt =====
-- A booking that has the court: confirmed or played, under its own number, court, player and slot; and
-- what the transactions of internal/postgres/booking.go leave of it.
pub mod Payments
use khel_arena.Prelude.{
  ℕ, ◌≡◌, refl, Bool, true, false, not, Option, List, arith, any, find, if-intro, option-intro,
  ◌&&◌, ◌||◌, ◌==◌,
}
use khel_arena.Domain.Errors.{Result, ok, err}
use khel_arena.Domain.Enums.{BookingStatus, is_pending, is_confirmed, is_completed}
use khel_arena.Domain.Text.{Text}
use khel_arena.Domain.Booking.{Booking}
use khel_arena.Store.Tables.{BookingRow, Db, Tx, commit, in_tx, update_where, clash, passes_checks}
use khel_arena.Store.Updates.{any-update_where_kept}
use khel_arena.Store.Bookings.{
  with_status, new_row, is_stale, stale_at, blocks_at, release_at, insert_row, create_hold,
  create_hold_tx, find_user, has_court, has_user,
}
use khel_arena.Store.Cancellation.{
  is_target, cancel_row, cancel, cancel_tx, cancel_found, cancelled_db, is_restorable,
  restore_penalty, restore_penalty_tx,
}
use khel_arena.Store.Sweeps.{
  release_stale_holds, mark_played, expire_stale, sweep, confirm, is_hold_of, is_played, complete,
}

-- The row is the booking b, confirmed or played.
abbrev pub has_tenure : BookingRow → BookingRow → Bool
has_tenure b r =
    r.id == b.id
    && r.court_id == b.court_id
    && r.user_id == b.user_id
    && r.slot.start == b.slot.start
    && r.slot.end == b.slot.end
    && (is_confirmed r.status || is_completed r.status)

abbrev pub IsKept : BookingRow → Db → Type 0
IsKept b db = any (has_tenure b) db.bookings ≡ true

abbrev pub IsKeptAfter : {A : Type 0} → BookingRow → Result A × Db → Type 0
IsKeptAfter b x = IsKept b x.1

pub in_tx-IsKept :
    {A : Type 0} (b : BookingRow) (m : Tx A) (db : Db)
    → IsKept b db
    → IsKeptAfter b (m db)
    → IsKeptAfter b (in_tx m db)
in_tx-IsKept {A} b m db kept h = go (m db) h
  where
    go : (x : Result A × Db) → IsKeptAfter b x → IsKeptAfter b (commit db x)
    go (ok a, db') k = k
    go (err e, db') k = kept

-- A change of the holds that a statement names leaves the bookings that are no holds.
pub pending-kept :
    (b : BookingRow) (p : BookingRow → Bool) (status : BookingStatus) (rows : List BookingRow)
    → ((r : BookingRow) → p r ≡ true → is_pending r.status ≡ true)
    → any (has_tenure b) rows ≡ true
    → any (has_tenure b) (update_where p (with_status status) rows) ≡ true
pending-kept b p status rows held kept =
    any-update_where_kept p (with_status status) (has_tenure b)
      (λ r hit h. let pending = held r hit in ground arith) rows kept

module _ (b : BookingRow) (db : Db) (kept : IsKept b db) where
  insert_row-IsKept : (r : BookingRow) → IsKeptAfter b (insert_row r db)
  unfolding insert_row
  insert_row-IsKept r =
      if-intro (IsKeptAfter b) (not (passes_checks r)) _ _ (λ h. kept)
        λ checks.
          if-intro (IsKeptAfter b) (any (clash r) db.bookings) _ _ (λ h. kept)
            λ apart.
              if-intro (IsKeptAfter b)
                (not (has_court db.courts r.court_id && has_user db.users r.user_id)) _ _
                (λ h. kept) λ known. ground arith

  pub cancel-IsKept :
      (ban_end : ℕ → ℕ) (booking user : ℕ) (reason : Text) (now : ℕ)
      → (booking == b.id && user == b.user_id) ≡ false
      → IsKeptAfter b (cancel ban_end booking user reason now db)
  unfolding cancel cancel_tx cancel_found cancelled_db is_target
  cancel-IsKept ban_end booking user reason now other =
      let after =
        any-update_where_kept (is_target db booking user) (cancel_row reason now) (has_tenure b)
          (λ r hit h. ground arith) db.bookings kept in
      in_tx-IsKept b (cancel_tx ban_end booking user reason now) db kept (
        option-intro (IsKeptAfter b) (find (is_target db booking user) db.bookings) _ _ kept
          λ r found. option-intro (IsKeptAfter b) (find_user _ user) _ _ after λ u known. after)

  pub restore_penalty-IsKept :
      (booking owner now : ℕ) → IsKeptAfter b (restore_penalty booking owner now db)
  unfolding restore_penalty restore_penalty_tx
  restore_penalty-IsKept booking owner now =
      in_tx-IsKept b (restore_penalty_tx booking owner now) db kept (
        option-intro (IsKeptAfter b) (find (is_restorable db booking owner) db.bookings) _ _ kept
          λ r found.
            any-update_where_kept (is_restorable db booking owner) _ (has_tenure b)
              (λ x hit h. ground arith) db.bookings kept)

  -- A pass of the janitor: the holds that are stale end, and a game that was played keeps its hour.
  pub sweep-IsKept : (now : ℕ) → IsKept b (sweep now db)
  unfolding sweep expire_stale mark_played release_stale_holds is_stale
  sweep-IsKept now =
      any-update_where_kept (is_played now) complete (has_tenure b) (λ r hit h. ground arith)
        (release_stale_holds now db).1.bookings
        (pending-kept b (is_stale db.payments now) _ db.bookings (λ r hit. ground arith) kept)

  pub confirm-IsKept : (booking : ℕ) → IsKeptAfter b (confirm booking db)
  unfolding confirm
  confirm-IsKept booking =
      if-intro (IsKeptAfter b) (any (is_hold_of booking) db.bookings) _ _
        (λ held. pending-kept b (is_hold_of booking) _ db.bookings (λ r hit. ground arith) kept)
        λ missing. kept

module _ (b : BookingRow) (db : Db) (kept : IsKept b db) where
  pub create_hold-IsKept : (a : Booking) (id now : ℕ) → IsKeptAfter b (create_hold a id now db)
  unfolding create_hold create_hold_tx release_at stale_at is_stale
  create_hold-IsKept a id now =
      let after : IsKept b (release_at a now db) =
        pending-kept b (stale_at db.payments now a.court_id a.slot) _ db.bookings
          (λ r hit. ground arith) kept in
      in_tx-IsKept b (create_hold_tx a id now) db kept (
        if-intro (IsKeptAfter b)
          (any (blocks_at now a.court_id a.slot) (release_at a now db).bookings) _ _ (λ h. after)
          λ free. insert_row-IsKept b (release_at a now db) after (new_row a id now))
