-- ===== src/Store/Soundness/Bookings.antt =====
-- Cancel, RestorePenaltyOwnerScoped, Confirm and the janitor's sweeps keep the tables sound.
use khel_arena.Prelude.{ℕ, ◌≡◌, refl, Bool, true, Option, List, [], ◌∷◌, arith, any, find, All}
use khel_arena.Domain.Enums.{BookingStatus, PaymentStatus, is_pending, is_live}
use khel_arena.Domain.Text.{Text}
use khel_arena.Domain.Payment.{Payment}
use khel_arena.Domain.Call.{Call}
use khel_arena.Store.Tables.{BookingRow, UserRow, Db, update_where}
use khel_arena.Store.Bookings.{with_status, is_stale, find_user}
use khel_arena.Store.Cancellation.{
  is_target, cancel_row, cancel, cancel_tx, cancel_found, is_restorable, restore_penalty,
  restore_penalty_tx, cancelled_db,
}
use khel_arena.Store.Sweeps.{
  release_stale_holds, mark_played, expire_stale, sweep, confirm, is_hold_of, is_played, complete,
}
use khel_arena.Store.Invariant.{IsSound, Safe, Safe-if, Safe-option, Safe-same, in_tx-IsSound}
use khel_arena.Store.Changes.{IsMild, Quiet, bookings-IsSound, payments-IsSound}

-- Posts and users are no part of what is sound.
pub reframe :
    {db : Db} (posts : List Call) (users : List UserRow)
    → IsSound db
    → IsSound (record db { posts = posts; users = users })
reframe posts users sound = record {
  disjoint = sound.disjoint;
  fused = sound.fused;
  unpaid = sound.unpaid;
  booking_ids = sound.booking_ids;
  payment_ids = sound.payment_ids;
}

-- A payment that is failed becomes no verified one.
pub fail-Quiet :
    (p : Payment → Bool) (rows : List BookingRow) (payments : List Payment)
    → All (Quiet p (λ q. record q { status = PaymentStatus.failed }) rows) payments
fail-Quiet p rows [] = tt
fail-Quiet p rows (q ∷ qs) = (
  (λ h. record { same_id = refl; same_booking = refl; verified_before = λ e. cc }),
  fail-Quiet p rows qs,
)

pub cancelled-IsMild : (r : BookingRow) → IsMild r (with_status BookingStatus.cancelled r)
unfolding is_live
cancelled-IsMild r = ground arith

pub confirmed-IsMild :
    (r : BookingRow) → is_pending r.status ≡ true → IsMild r (with_status BookingStatus.confirmed r)
unfolding is_live
confirmed-IsMild r h = ground arith

pub cancel_row-IsMild :
    (reason : Text) (now : ℕ) (r : BookingRow) → IsMild r (cancel_row reason now r)
unfolding is_live cancel_row
cancel_row-IsMild reason now r = ground arith

pub same_booking-IsMild :
    (r : BookingRow) (at : Option ℕ) → IsMild r (record r { penalty_restored_at = at })
same_booking-IsMild r at = record {
  same_id = refl;
  same_court = refl;
  same_slot = refl;
  not_revived = λ h. h;
  still_fused = λ h. h;
  not_rehung = λ h. h;
}

pub played-IsMild : (now : ℕ) (r : BookingRow) → is_played now r ≡ true → IsMild r (complete r)
unfolding is_live
played-IsMild now r h = ground arith

module _ (ban_end : ℕ → ℕ) where
  cancelled_db-IsSound :
      (booking user : ℕ) (reason : Text) (now : ℕ) (late : Bool) (db : Db)
      → IsSound db
      → IsSound (cancelled_db ban_end booking user reason now late db)
  unfolding cancelled_db
  cancelled_db-IsSound booking user reason now late db sound =
      let target = is_target db booking user in
      let db₁ : Db = record db {
        bookings = update_where target (cancel_row reason now) db.bookings;
      } in
      let sound₁ : IsSound db₁ =
        bookings-IsSound db target (cancel_row reason now) (λ r h. cancel_row-IsMild reason now r)
          sound in
      reframe _ _
        (payments-IsSound db₁ _ _ (fail-Quiet _ db₁.bookings db₁.payments) (λ q. refl) sound₁)

  -- Cancel keeps the tables sound, whatever it answers.
  pub cancel-IsSound :
      (booking user : ℕ) (reason : Text) (now : ℕ) (db : Db)
      → IsSound db
      → IsSound (cancel ban_end booking user reason now db).1
  unfolding cancel cancel_tx cancel_found
  cancel-IsSound booking user reason now db sound =
      in_tx-IsSound (cancel_tx ban_end booking user reason now) db sound (
        Safe-option (find (is_target db booking user) db.bookings) _ _ tt λ r found.
          Safe-option (find_user _ user) _ _ tt
            λ u known. cancelled_db-IsSound booking user reason now _ db sound)

-- RestorePenaltyOwnerScoped writes nothing that soundness is about.
pub restore_penalty-IsSound :
    (booking owner now : ℕ) (db : Db)
    → IsSound db
    → IsSound (restore_penalty booking owner now db).1
unfolding restore_penalty restore_penalty_tx
restore_penalty-IsSound booking owner now db sound =
    in_tx-IsSound (restore_penalty_tx booking owner now) db sound (
      Safe-option (find (is_restorable db booking owner) db.bookings) _ _ tt λ r found.
        reframe db.posts _ (
          bookings-IsSound db (is_restorable db booking owner) _ (λ x h. same_booking-IsMild x _)
            sound))

pub release_stale_holds-IsSound :
    (now : ℕ) (db : Db) → IsSound db → IsSound (release_stale_holds now db).1
unfolding release_stale_holds
release_stale_holds-IsSound now db sound =
    let stale = is_stale db.payments now in
    let sound₁ = bookings-IsSound db stale _ (λ r h. cancelled-IsMild r) sound in
    reframe _ _ (payments-IsSound _ _ _ (fail-Quiet _ _ db.payments) (λ q. refl) sound₁)

mark_played-IsSound : (now : ℕ) (db : Db) → IsSound db → IsSound (mark_played now db).1
unfolding mark_played
mark_played-IsSound now db sound = bookings-IsSound db _ _ (λ r h. played-IsMild now r h) sound

-- A pass of the janitor keeps the tables sound.
pub sweep-IsSound : (now : ℕ) (db : Db) → IsSound db → IsSound (sweep now db)
unfolding sweep expire_stale
sweep-IsSound now db sound = reframe _ _ (
    mark_played-IsSound now (release_stale_holds now db).1
      (release_stale_holds-IsSound now db sound))

pub confirm_hold-IsSound :
    (booking : ℕ) (db : Db)
    → IsSound db
    → IsSound (record db {
      bookings =
          update_where (is_hold_of booking) (with_status BookingStatus.confirmed) db.bookings;
    })
confirm_hold-IsSound booking db sound =
    bookings-IsSound db (is_hold_of booking) _ (λ r h. confirmed-IsMild r (ground arith)) sound

-- Confirm keeps the tables sound.
pub confirm-Safe : (booking : ℕ) (db : Db) → IsSound db → Safe (confirm booking db)
unfolding confirm
confirm-Safe booking db sound =
    Safe-if (any (is_hold_of booking) db.bookings) _ _
      (λ held. confirm_hold-IsSound booking db sound) λ missing. Safe-same _ db sound
