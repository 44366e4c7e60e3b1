-- ===== src/Store/Bookings.antt =====
-- BookingRepo of internal/postgres/booking.go. `now` is the database's `now()`, which stands still in
-- a transaction; `id` is what gen_random_uuid() returns; `ban_end` adds the interval of
-- BookingBanLength, one calendar month, to an instant.
use khel_arena.Prelude.{
  ℕ, Bool, ◌&&◌, not, Option, none, some, List, [], ◌∷◌, ◌==◌, if◌then◌else◌, any, find,
}
use khel_arena.Domain.Errors.{Error, Result, ok, err, invalid, not_found, conflict}
use khel_arena.Domain.Enums.{BookingStatus, is_pending}
use khel_arena.Domain.Slot.Interval.{Slot, overlaps}
use khel_arena.Domain.Booking.{Booking, BookingStanding, is_reached, is_after, user_score_after_ban}
use khel_arena.Domain.Payment.{Payment}
use khel_arena.Store.Tables.{
  BookingRow, UserRow, CourtRow, Db, Tx, in_tx, update_where, clash, booking_blocks_slot,
  passes_checks, has_verified,
}

abbrev pub with_status : BookingStatus → BookingRow → BookingRow
with_status status r = record r {
  booking = record r.booking { status = status; hold_expires_at = none };
}

-- A stored booking as it is inserted.
abbrev pub new_row : Booking → ℕ → ℕ → BookingRow
new_row b id now = record {
  booking = record b { id = id; created_at = now; updated_at = now };
  cancel_reason = [];
  cancelled_at = none;
  cancel_penalty = 0;
  penalty_restored_at = none;
}

-- An unpaid hold whose window has passed.
unfoldable pub is_stale : List Payment → ℕ → BookingRow → Bool
unfolding has_verified
is_stale payments now r =
    is_pending r.status && is_reached r.hold_expires_at now && not (has_verified payments r.id)

-- `releaseSQL` of CreateHold, on the rows of one court that overlap the slot.
unfoldable pub stale_at : List Payment → ℕ → ℕ → Slot → BookingRow → Bool
unfolding is_stale overlaps
stale_at payments now court slot r =
    r.court_id == court && overlaps r.slot slot && is_stale payments now r

-- `conflictSQL` of CreateHold.
unfoldable pub blocks_at : ℕ → ℕ → Slot → BookingRow → Bool
unfolding overlaps booking_blocks_slot
blocks_at now court slot r =
    r.court_id == court
    && overlaps r.slot slot
    && booking_blocks_slot r.status r.hold_expires_at now

unfoldable pub has_court : List CourtRow → ℕ → Bool
has_court courts id = any (λ c. c.id == id) courts

unfoldable pub has_user : List UserRow → ℕ → Bool
has_user users id = any (λ u. u.id == id) users

abbrev pub taken : Error
taken = conflict "Someone took this slot moments before you. Please pick another time."

-- The insert, under the CHECK constraints, `no_double_booking`, and the references to the
-- court and the player.
unfoldable pub insert_row : BookingRow → Tx Booking
unfolding passes_checks clash has_court has_user
insert_row r db =
    if not (passes_checks r)
    then (err (invalid "slot" "That booking isn't valid for this court."), db)
    else if any (clash r) db.bookings
    then (err taken, db)
    else if not (has_court db.courts r.court_id && has_user db.users r.user_id)
    then (err (not_found "That court is no longer available."), db)
    else (ok r.booking, record db { bookings = r ∷ db.bookings })

unfoldable pub release_at : Booking → ℕ → Db → Db
unfolding stale_at
release_at b now db = record db {
  bookings =
      update_where (stale_at db.payments now b.court_id b.slot)
        (with_status BookingStatus.cancelled) db.bookings;
}

unfoldable pub create_hold_tx : Booking → ℕ → ℕ → Tx Booking
create_hold_tx b id now db =
    let db₁ = release_at b now db in
    if any (blocks_at now b.court_id b.slot) db₁.bookings
    then (err taken, db₁)
    else insert_row (new_row b id now) db₁

unfoldable pub create_hold : Booking → ℕ → ℕ → Tx Booking
unfolding create_hold_tx
create_hold b id now = in_tx (create_hold_tx b id now)

unfoldable pub find_booking : List BookingRow → ℕ → Option BookingRow
find_booking rows id = find (λ r. r.id == id) rows

-- `ByID`
unfoldable pub by_id : Db → ℕ → Result Booking
unfolding find_booking
by_id db id = elim (find_booking db.bookings id) [
  | none ↦ err (not_found "That booking doesn't exist.")
  | some r ↦ ok r.booking
]

unfoldable pub find_user : List UserRow → ℕ → Option UserRow
find_user users id = find (λ u. u.id == id) users

-- `effectiveUserScore` and `activeBookingBan` of user.go.
unfoldable pub effective_user_score : UserRow → ℕ → ℕ
effective_user_score u now =
    if is_reached u.booking_banned_until now then user_score_after_ban else u.user_score

unfoldable pub active_booking_ban : UserRow → ℕ → Option ℕ
active_booking_ban u now =
    if is_after u.booking_banned_until now then u.booking_banned_until else none

unfoldable pub booking_standing : Db → ℕ → ℕ → Result BookingStanding
unfolding find_user effective_user_score active_booking_ban
booking_standing db user now = elim (find_user db.users user) [
  | none ↦ err (not_found "No such player.")
  | some u ↦ ok (record {
    user_score = effective_user_score u now;
    booking_banned_until = active_booking_ban u now;
  })
]
