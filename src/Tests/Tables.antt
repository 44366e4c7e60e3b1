-- ===== src/Tests/Tables.antt =====
-- The statements on the tables of a small venue.
use khel_arena.Prelude.{
  ℕ, ◌+◌, ◌*◌, ◌≡◌, ◌⊎◌, refl, arith, true, false, none, some, [], ◌∷◌, any, find,
}
use khel_arena.Domain.Errors.{ok, err}
use khel_arena.Domain.Enums.{is_final}
use khel_arena.Domain.Slot.Clock.{hour, day}
use khel_arena.Domain.Slot.Interval.{Slot}
use khel_arena.Domain.Booking.{CancelOutcome, late_cancel_penalty}
use khel_arena.Domain.Grid.{overlaps_any}
use khel_arena.Store.Tables.{Db, passes_checks}
use khel_arena.Store.Bookings.{
  blocks_at, create_hold, new_row, has_court, has_user, taken, booking_standing,
  effective_user_score, find_user, find_booking,
}
use khel_arena.Store.Payments.{settle, find_payment, ref_taken, already_paid}
use khel_arena.Store.Cancellation.{is_target, is_late, cancel, charge, give_back}
use khel_arena.Store.Holds.{IsStorable, stored, create_hold_iff_free}
use khel_arena.Store.Settling.{takes, Settled, CanSettle, settle-Settled}
use khel_arena.Store.Ranges.{booked_ranges, booked_ranges-blocks}
use khel_arena.Store.Standing.{standing_of, told, cancel-booking_standing, give_back-charge}
use khel_arena.Tests.Data.{
  today, morning, evening, player, empty_db, empty_db-IsSound, hold, row_of, stored_hold, held_db,
  confirmed, intent, paid, paying_db,
}

hold-IsStorable : IsStorable empty_db hold
unfolding passes_checks has_court has_user
hold-IsStorable = (refl, refl, refl)

create_hold_iff_free_example :
    (any (blocks_at morning 1 evening) [] ≡ false)
      × (create_hold hold 7 morning empty_db
          ≡ (ok (new_row hold 7 morning).booking, stored hold 7 morning empty_db))
    ⊎ (any (blocks_at morning 1 evening) [] ≡ true)
      × (create_hold hold 7 morning empty_db ≡ (err taken, empty_db))
create_hold_iff_free_example =
    create_hold_iff_free empty_db hold 7 morning empty_db-IsSound hold-IsStorable

-- The hold is found and nothing else is paid.
paying-CanSettle : CanSettle paid intent (row_of stored_hold) paying_db
unfolding find_payment find_booking ref_taken is_final
paying-CanSettle = record {
  kept = refl;
  placed = refl;
  free = refl;
  online = refl;
  open_still = refl;
}

settle-Settled_example :
    Settled paid (row_of stored_hold) morning paying_db (settle paid morning paying_db)
settle-Settled_example =
    settle-Settled paid intent (row_of stored_hold) morning paying_db paying-CanSettle refl

-- It takes the money, so that the booking is confirmed.
hold_takes : takes paying_db.payments paid (row_of stored_hold) ≡ true
unfolding takes already_paid
hold_takes = refl

-- A month is thirty days here.
abbrev month_later : ℕ → ℕ
month_later now = now + 30 * day

abbrev confirmed_db : Db
confirmed_db = record empty_db { bookings = row_of confirmed ∷ [] }

-- Three hours before the start.
abbrev late : ℕ
late = today + 15 * hour

found : find (is_target confirmed_db 7 5) confirmed_db.bookings ≡ some (row_of confirmed)
unfolding is_target
found = refl

known : find_user confirmed_db.users 5 ≡ some player
unfolding find_user
known = refl

cancel-booking_standing_example :
    (o : CancelOutcome) × (db' : Db) × (cancel month_later 7 5 [] late confirmed_db ≡ (ok o, db'))
    × (o.late ≡ is_late late (row_of confirmed))
    × (booking_standing db' 5 late ≡ ok (told o))
cancel-booking_standing_example =
    cancel-booking_standing month_later late (omega arith) confirmed_db 7 5 [] found known

full : effective_user_score player late ≡ 100
unfolding effective_user_score
full = refl

give_back-charge_example :
    standing_of
      (give_back late_cancel_penalty (late + hour) (charge month_later late player))
      (late + hour)
    ≡ record { user_score = effective_user_score player late; booking_banned_until = none }
give_back-charge_example =
    give_back-charge month_later late (late + hour) player (omega arith) (rw full (omega arith))
      (rw full (omega arith))

abbrev whole_day : Slot
whole_day = record { start = today; end = today + day }

booked_ranges-blocks_example :
    overlaps_any evening (booked_ranges held_db 1 whole_day morning)
    ≡ any (blocks_at morning 1 evening) held_db.bookings
booked_ranges-blocks_example =
    booked_ranges-blocks 1 morning whole_day evening (omega arith) (omega arith) held_db
