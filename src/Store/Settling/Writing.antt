-- ===== src/Store/Settling/Writing.antt =====
-- The writes of PaymentRepo.Settle and of Confirm, where the rows that they need are found.
use khel_arena.Prelude.{
  ℕ, ◌≡◌, refl, ◌⊎◌, Bool, true, false, ◌&&◌, ◌||◌, not, Option, none, some, String, List, arith,
  ◌==◌, find, find-some, if◌then◌else◌,
}
use khel_arena.Domain.Errors.{Result, ok, err}
use khel_arena.Domain.Enums.{BookingStatus, PaymentStatus, is_pending, is_confirmed, is_completed}
use khel_arena.Domain.Payment.{Payment}
use khel_arena.Store.Tables.{BookingRow, Db, update_where}
use khel_arena.Store.Bookings.{find_booking, with_status}
use khel_arena.Store.Sweeps.{confirm, is_hold_of}
use khel_arena.Store.Updates.{find-update_where, find-any, any-update_where, any-update_where_same}
use khel_arena.Store.Payments.{
  already_paid, pays, pays_besides, pays_twice, write_verified, reread, find_payment, ref_taken,
  record_verified, has_id, is_open_cash, fail, same_ref,
}

-- The booking takes the money: no other payment pays for it, and it is a hold, confirmed or played.
unfoldable pub takes : List Payment → Payment → BookingRow → Bool
takes payments p r =
    not (already_paid payments p.booking_id p.id)
    && (is_pending r.status || is_confirmed r.status || is_completed r.status)

-- The payment is stored as verified. If its booking takes it, no refund is due, and the booking is
-- confirmed or played; if not, a refund is due, and no booking has changed.
abbrev pub Settled : Payment → BookingRow → ℕ → Db → Result Payment × Db → Type 0
Settled p r now db (ok q, db') =
    (q.status ≡ PaymentStatus.verified)
    × (q.provider_ref ≡ p.provider_ref)
    × (find_payment db'.payments p.id ≡ some q)
    × ((takes db.payments p r ≡ true)
          × (q.refund_due_at ≡ none)
          × ((s : BookingRow) × (find_booking db'.bookings p.booking_id ≡ some s)
              × ((is_confirmed s.status || is_completed s.status) ≡ true))
        ⊎ (takes db.payments p r ≡ false)
          × (q.refund_due_at ≡ some now)
          × (db'.bookings ≡ db.bookings))
Settled p r now db (err e, db') = ⊥

pub reread-ok :
    (id : ℕ) (db : Db) {q : Payment}
    → find_payment db.payments id ≡ some q
    → reread id db ≡ (ok q, db)
unfolding reread
reread-ok id db h = rw (reread, h) refl

pub find_payment-updated :
    (id : ℕ) (f : Payment → Payment) (payments : List Payment) {current : Payment}
    → ((q : Payment) → (f q).id ≡ q.id)
    → find_payment payments id ≡ some current
    → find_payment (update_where (has_id id) f payments) id ≡ some (f current)
unfolding find_payment
find_payment-updated id f payments {current} same found =
    let hit : has_id id current ≡ true = (find-some (has_id id) payments found).0 in
    let after : find (has_id id) (update_where (has_id id) f payments)
        ≡ some (if has_id id current then f current else current) =
      find-update_where (has_id id) f (has_id id) (λ q. rw (same q) refl) payments found in
    rw hit at after

-- A payment that the closing of cash requests does not reach is found as it was.
pub find_payment-kept :
    (closed : Payment → Bool) (id : ℕ) (payments : List Payment) {current : Payment}
    → find_payment payments id ≡ some current
    → closed current ≡ false
    → find_payment (update_where closed fail payments) id ≡ some current
unfolding find_payment
find_payment-kept closed id payments {current} found missed =
    let after : find (has_id id) (update_where closed fail payments)
        ≡ some (if closed current then fail current else current) =
      find-update_where closed fail (has_id id) (λ q. refl) payments found in
    rw missed at after

module _ (p : Payment) (now : ℕ) where
  -- The write that keeps the money, where neither index stands against it.
  pub write_verified-ok :
      (reason : Option String) (db : Db) {current : Payment}
      → find_payment db.payments p.id ≡ some current
      → ref_taken db.payments p.id p.provider p.provider_ref ≡ false
      → pays_twice p reason db.payments ≡ false
      → (db' : Db) × (write_verified p reason now db
          ≡ (ok (record_verified p reason now current), db'))
        × (find_payment db'.payments p.id ≡ some (record_verified p reason now current))
        × (db'.bookings ≡ db.bookings)
  unfolding write_verified
  write_verified-ok reason db {current} found free once =
      let db' : Db = record db {
        payments = update_where (has_id p.id) (record_verified p reason now) db.payments;
      } in
      let again : find_payment db'.payments p.id ≡ some (record_verified p reason now current) =
        find_payment-updated p.id (record_verified p reason now) db.payments (λ q. refl) found in
      (db', rw (free, once) (reread-ok p.id db' again), again, refl)

-- What closes the other cash requests leaves the indexes free.
pub close_cash-free :
    (p : Payment) (payments : List Payment)
    → ref_taken payments p.id p.provider p.provider_ref ≡ false
    → ref_taken
        (update_where (is_open_cash p.booking_id) fail payments)
        p.id
        p.provider
        p.provider_ref
      ≡ false
unfolding ref_taken
close_cash-free p payments h =
    rw
      (any-update_where_same (is_open_cash p.booking_id) fail
        (same_ref p.id p.provider p.provider_ref) (λ q hit. refl) payments)
      h

pub close_cash-unpaid :
    (p : Payment) (payments : List Payment)
    → already_paid payments p.booking_id p.id ≡ false
    → already_paid (update_where (is_open_cash p.booking_id) fail payments) p.booking_id p.id
      ≡ false
unfolding already_paid pays
close_cash-unpaid p payments h =
    any-update_where (is_open_cash p.booking_id) fail (pays_besides p.booking_id p.id)
      (λ q hit k. ground arith) payments h

-- A hold that is found becomes the confirmed booking that is found.
pub confirm-found :
    (db : Db) (booking : ℕ) {r : BookingRow}
    → find_booking db.bookings booking ≡ some r
    → is_pending r.status ≡ true
    → (db' : Db) × (confirm booking db ≡ (ok tt, db'))
      × (db'.payments ≡ db.payments)
      × (find_booking db'.bookings booking ≡ some (with_status BookingStatus.confirmed r))
unfolding confirm find_booking
confirm-found db booking {r} found hold =
    let named : (r.id == booking) ≡ true = (find-some (λ x. x.id == booking) db.bookings found).0 in
    let hit : is_hold_of booking r ≡ true = ground arith in
    let after : find (λ (x : BookingRow). x.id == booking)
          (update_where (is_hold_of booking) (with_status BookingStatus.confirmed) db.bookings)
        ≡ some (if is_hold_of booking r then with_status BookingStatus.confirmed r else r) =
      find-update_where (is_hold_of booking) (with_status BookingStatus.confirmed)
        (λ x. x.id == booking) (λ x. refl) db.bookings found in
    (
      record db {
        bookings =
            update_where (is_hold_of booking) (with_status BookingStatus.confirmed) db.bookings;
      },
      rw (find-any (λ x. x.id == booking) (is_hold_of booking) db.bookings found hit) refl,
      refl,
      rw hit at after,
    )
