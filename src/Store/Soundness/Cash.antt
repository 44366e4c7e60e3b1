-- ===== src/Store/Soundness/Cash.antt =====
-- The cash transactions of PaymentRepo keep the tables sound.
use khel_arena.Prelude.{
  ℕ, ◌≡◌, refl, inl, inr, true, false, ◌&&◌, ◌||◌, not, some, List, [], ◌∷◌, arith, ◌==◌, any, Any,
  find, All, subst, sym, AllPairs, any-weaken, any-member, find-some, Bool-cases, if-intro,
  option-intro,
}
use khel_arena.Domain.Errors.{Result, ok, err}
use khel_arena.Domain.Enums.{
  BookingStatus, is_pending, is_confirmed, is_completed, is_verified, is_initiated, is_failed,
  is_settled, is_cash,
}
use khel_arena.Domain.Booking.{is_after}
use khel_arena.Domain.Payment.{Payment}
use khel_arena.Store.Tables.{BookingRow, Db, update_where}
use khel_arena.Store.Bookings.{with_status, find_booking}
use khel_arena.Store.Updates.{any-update_where}
use khel_arena.Store.Sweeps.{is_hold_of}
use khel_arena.Store.Payments.{already_paid, find_payment, owns_payment}
use khel_arena.Store.Cash.{
  is_live_hold, standing, excluded, confirm_cash_booking, confirm_with, answer, latest,
  is_owed_cash, book_cash, book_cash_tx, refused_cash, book_cash_new, lock_owned_cash_payment,
  approve_cash, approve_cash_tx, decline_cash, decline_cash_tx, collect, collected, then_collect,
  mark_cash_received, mark_cash_received_tx,
}
use khel_arena.Store.Invariant.{
  IsSound, Safe, Safe-if, Safe-option, Safe-result, in_tx-IsSound, same_booking_id,
}
use khel_arena.Store.Changes.{Quiet, bookings-IsSound, payments-IsSound}
use khel_arena.Store.Soundness.Bookings.{confirmed-IsMild, cancelled-IsMild, fail-Quiet, reframe}
use khel_arena.Store.Soundness.Payments.{
  Agrees, member-Agrees, add_payment-IsSound, find_booking-no_hold,
}

-- With unique identifiers, confirming the live hold leaves no hold of its booking.
confirm_live-no_hold :
    (rows : List BookingRow) (booking now : ℕ) {r : BookingRow}
    → AllPairs same_booking_id rows
    → find (is_live_hold booking now) rows ≡ some r
    → any
        (is_hold_of booking)
        (update_where (is_live_hold booking now) (with_status BookingStatus.confirmed) rows)
      ≡ false
confirm_live-no_hold [] booking now unique found = refl
confirm_live-no_hold (x ∷ xs) booking now {r} unique found =
    elim (Bool-cases (is_live_hold booking now x)) [
      | inl live ↦
          let others : any (is_hold_of booking) xs ≡ false =
            any-weaken (same_booking_id x) (is_hold_of booking) (λ y h. ground arith) xs unique.0 in
          let after =
            any-update_where (is_live_hold booking now) (with_status BookingStatus.confirmed)
              (is_hold_of booking) (λ y h k. ground arith) xs others in
          rw live (ground arith)
      | inr dead ↦
          let rest = confirm_live-no_hold xs booking now unique.1 (rw dead at found) in
          let (live, m) = find-some (is_live_hold booking now) xs (rw dead at found) in
          let other : same_booking_id x r ≡ false = any-member (same_booking_id x) xs unique.0 m in
          let not_x : is_hold_of booking x ≡ false = ground arith in rw (dead, not_x) rest
    ]

-- What confirmCashBooking leaves when it succeeds: no hold of the booking, and the payments.
abbrev Cleared : ℕ → List Payment → Result (Unit {0}) × Db → Type 0
Cleared booking payments (ok u, db) =
    IsSound db × (any (is_hold_of booking) db.bookings ≡ false) × (db.payments ≡ payments)
Cleared booking payments (err e, db) = Unit

-- The status of a booking that is approved already.
standing-Cleared :
    (booking : ℕ) (db : Db) → IsSound db → Cleared booking db.payments (standing db booking, db)
unfolding standing
standing-Cleared booking db sound =
    option-intro (λ x. Cleared booking db.payments (x, db)) (find_booking db.bookings booking) _ _
      tt
      λ r found.
        if-intro (λ x. Cleared booking db.payments (x, db))
          (is_confirmed r.status || is_completed r.status) _ _
          (λ stands. (
            sound,
            find_booking-no_hold db.bookings booking sound.booking_ids found (ground arith),
            refl,
          ))
          λ open_still.
            if-intro (λ x. Cleared booking db.payments (x, db)) (is_pending r.status) _ _ (λ h. tt)
              λ h. tt

confirm_cash_booking-Cleared :
    (booking now : ℕ) (db : Db)
    → IsSound db
    → Cleared booking db.payments (confirm_cash_booking booking now db)
unfolding confirm_cash_booking
confirm_cash_booking-Cleared booking now db sound =
    option-intro (Cleared booking db.payments) (find (is_live_hold booking now) db.bookings) _ _
      (standing-Cleared booking db sound)
      λ r found.
        if-intro (Cleared booking db.payments) (excluded db.bookings r) _ _ (λ h. tt)
          λ apart. (
            bookings-IsSound db (is_live_hold booking now) _
                (λ x h. confirmed-IsMild x (ground arith)) sound,
            confirm_live-no_hold db.bookings booking now sound.booking_ids found,
            refl,
          )

answer-Safe :
    (p : Payment) (booking : ℕ) (payments : List Payment) (x : Result (Unit {0}) × Db)
    → Cleared booking payments x
    → Safe (answer p x)
answer-Safe p booking payments (ok u, db) h = h.0
answer-Safe p booking payments (err e, db) h = tt

confirm_with-Safe :
    (p : Payment) (booking now : ℕ) (db : Db) → IsSound db → Safe (confirm_with p booking now db)
unfolding confirm_with
confirm_with-Safe p booking now db sound =
    answer-Safe p booking db.payments _ (confirm_cash_booking-Cleared booking now db sound)

-- An owed payment that BookCash records.
book_cash_new-Safe :
    (p : Payment) (id now : ℕ) (db : Db)
    → IsSound db
    → is_verified p.status ≡ false
    → any (λ q. id == q.id) db.payments ≡ false
    → Safe (book_cash_new p id now db)
unfolding book_cash_new
book_cash_new-Safe p id now db sound intent fresh =
    Safe-if (refused_cash p db.payments) _ _ (λ h. tt)
      λ accepted.
        confirm_with-Safe _ p.booking_id now _
          (add_payment-IsSound (record p { id = id; created_at = now }) db sound intent fresh)

-- BookCash keeps the tables sound, if it is given an intent and an unused identifier.
pub book_cash-IsSound :
    (p : Payment) (id now : ℕ) (db : Db)
    → IsSound db
    → is_verified p.status ≡ false
    → any (λ q. id == q.id) db.payments ≡ false
    → IsSound (book_cash p id now db).1
unfolding book_cash book_cash_tx
book_cash-IsSound p id now db sound intent fresh = in_tx-IsSound (book_cash_tx p id now) db sound (
    Safe-option (find_booking db.bookings p.booking_id) _ _ tt λ r found.
      Safe-option (latest (is_owed_cash p.booking_id) db.payments) _ _
        (Safe-if (not (is_pending r.status && is_after r.hold_expires_at now)) _ _ (λ h. tt)
          λ live. book_cash_new-Safe p id now db sound intent fresh)
        λ existing owed.
          Safe-if (is_confirmed r.status) _ _ (λ h. sound)
            λ h.
              Safe-if (not (is_pending r.status && is_after r.hold_expires_at now)) _ _ (λ h. tt)
                λ live. confirm_with-Safe existing p.booking_id now db sound)

-- ApproveCashOwnerScoped keeps the tables sound.
pub approve_cash-IsSound :
    (id owner now : ℕ) (db : Db) → IsSound db → IsSound (approve_cash id owner now db).1
unfolding approve_cash approve_cash_tx
approve_cash-IsSound id owner now db sound = in_tx-IsSound (approve_cash_tx id owner now) db sound (
    Safe-result (lock_owned_cash_payment db id owner) _ _ (λ e. tt)
      λ p locked.
        Safe-if (not (is_initiated p.status) && not (is_verified p.status)) _ _ (λ h. tt)
          λ h. confirm_with-Safe p p.booking_id now db sound)

-- DeclineCashOwnerScoped keeps the tables sound.
pub decline_cash-IsSound :
    (id owner : ℕ) (db : Db) → IsSound db → IsSound (decline_cash id owner db).1
unfolding decline_cash decline_cash_tx
decline_cash-IsSound id owner db sound = in_tx-IsSound (decline_cash_tx id owner) db sound (
    Safe-result (lock_owned_cash_payment db id owner) _ _ (λ e. tt)
      λ p locked.
        Safe-if (is_failed p.status) _ _ (λ h. sound)
          λ h₁.
            Safe-if (not (is_initiated p.status)) _ _ (λ h. tt)
              λ h₂.
                Safe-if (not (any (is_hold_of p.booking_id) db.bookings)) _ _ (λ h. tt)
                  λ h₃. reframe _ db.users (
                    payments-IsSound _ (λ q. q.id == p.id) _ (fail-Quiet _ _ db.payments)
                      (λ q. refl)
                      (bookings-IsSound db (is_hold_of p.booking_id) _ (λ r h. cancelled-IsMild r)
                        sound)))

collected-Quiet :
    (p : Payment) (at : ℕ) (rows : List BookingRow) (payments : List Payment)
    → any (is_hold_of p.booking_id) rows ≡ false
    → Agrees payments p
    → All (Quiet (λ q. q.id == p.id) (collected at) rows) payments
collected-Quiet p at rows [] held agrees = tt
collected-Quiet p at rows (q ∷ qs) held agrees = (
  (λ h. record {
    same_id = refl;
    same_booking = refl;
    verified_before = λ e. inr (rw (agrees.0 h) held);
  }),
  collected-Quiet p at rows qs held agrees.1,
)

collect-Safe :
    (p : Payment) (at : ℕ) (db : Db)
    → IsSound db
    → any (is_hold_of p.booking_id) db.bookings ≡ false
    → Agrees db.payments p
    → Safe (collect p at db)
unfolding collect
collect-Safe p at db sound held agrees =
    Safe-if (already_paid db.payments p.booking_id p.id) _ _ (λ h. tt)
      λ once.
        payments-IsSound db (λ q. q.id == p.id) (collected at)
          (collected-Quiet p at db.bookings db.payments held agrees) (λ q. refl) sound

then_collect-Safe :
    (p : Payment) (at : ℕ) (payments : List Payment) (x : Result (Unit {0}) × Db)
    → Agrees payments p
    → Cleared p.booking_id payments x
    → Safe (then_collect p at x)
then_collect-Safe p at payments (ok u, db) agrees (sound, held, same) =
    collect-Safe p at db sound held (subst (λ ps. Agrees ps p) (sym same) agrees)
then_collect-Safe p at payments (err e, db) agrees h = tt

-- What lockOwnedCashPayment returns is the stored payment, a cash payment at the caller's venue.
pub lock-found :
    (db : Db) (id owner : ℕ) {p : Payment}
    → lock_owned_cash_payment db id owner ≡ ok p
    → (find_payment db.payments id ≡ some p)
      × (owns_payment db owner p ≡ true)
      × (is_cash p.provider ≡ true)
unfolding lock_owned_cash_payment
lock-found db id owner h = ground arith

lock-member :
    (db : Db) (id owner : ℕ) {p : Payment}
    → lock_owned_cash_payment db id owner ≡ ok p
    → Any (λ q. q ≡ p) db.payments
unfolding find_payment
lock-member db id owner h = (find-some (λ q. q.id == id) db.payments (lock-found db id owner h).0).1

-- MarkCashReceivedOwnerScoped keeps the tables sound.
pub mark_cash_received-IsSound :
    (id owner at now : ℕ) (db : Db) → IsSound db → IsSound (mark_cash_received id owner at now db).1
unfolding mark_cash_received mark_cash_received_tx
mark_cash_received-IsSound id owner at now db sound =
    in_tx-IsSound (mark_cash_received_tx id owner at now) db sound (
      Safe-result (lock_owned_cash_payment db id owner) _ _ (λ e. tt)
        λ p locked.
          Safe-if (is_settled p.status) _ _ (λ h. sound)
            λ due.
              then_collect-Safe p at db.payments _
                (member-Agrees db.payments p sound.payment_ids (lock-member db id owner locked))
                (confirm_cash_booking-Cleared p.booking_id now db sound))
