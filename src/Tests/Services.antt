-- ===== src/Tests/Services.antt =====
-- Whole requests, and runs of them.
use khel_arena.Prelude.{◌≡◌, inl, inr, refl, subst, arith, true, none, pos, Any, any, []}
use khel_arena.Domain.Errors.{Result, ok}
use khel_arena.Domain.Enums.{PaymentProvider, is_live, is_final}
use khel_arena.Domain.Slot.Clock.{weekday_of, day_of}
use khel_arena.Domain.Slot.DayTime.{minutes}
use khel_arena.Domain.Slot.Interval.{new_slot, is_past, hours}
use khel_arena.Domain.Slot.Opening.{within_operating_hours}
use khel_arena.Domain.Pricing.{resolve_price, pick_rule, covers, contains_weekday}
use khel_arena.Domain.Booking.{Booking, BookingStanding, new_hold, banned}
use khel_arena.Domain.Grid.{GridSlot, available, cell, cell_slot, midnight, grid_window, build_grid}
use khel_arena.Domain.Grid.Cells.{build_grid-cells}
use khel_arena.Domain.Payment.{Payment, GatewayResult, verify}
use khel_arena.Store.Tables.{CourtRow, Db, is_bookable, has_verified, passes_checks}
use khel_arena.Store.Bookings.{
  create_hold, create_hold_tx, release_at, insert_row, new_row, booking_standing, has_court,
  has_user, find_booking,
}
use khel_arena.Store.Sweeps.{confirm, sweep}
use khel_arena.Store.Payments
use khel_arena.Store.Payments.{
  find_payment, settle_verified, apply_to_booking, apply_to_row, already_paid, write_verified,
  ref_taken, pays_twice, reread, settle_tx, pays, by_transaction_uuid,
}
use khel_arena.Store.Settling.{Settled, CanSettle}
use khel_arena.Domain.Payment.Verdict.{IsProof}
use khel_arena.Service.Payments.Callback.{IsCalledBack, callback-Settled}
use khel_arena.Store.Ranges.{booked_ranges}
use khel_arena.Store.Invariant.{IsSound, IsFreshBooking}
use khel_arena.Store.Holds.{IsStorable, stored}
use khel_arena.Service.Bookings.{plan, create, cancel, load_court_context}
use khel_arena.Service.Bookings.Accepted.{IsAccepted, plan-IsAccepted}
use khel_arena.Service.Payments.{settle, settle_found, ask_gateway, record_answer}
use khel_arena.Service.Availability.{availability, request_for}
use khel_arena.Service.Availability.Promise.{IsOrdinaryDay, availability-create_hold}
use khel_arena.Service.Runs.{
  create_booking, gateway_callback, Reach, here, later, Reach-IsSound, no_double_booking, janitor,
  cancel_booking,
}
use khel_arena.Store.Tenure.{has_tenure}
use khel_arena.Service.Tenure.{paid_booking-IsKept}
use khel_arena.Tests.Data.{
  service, request, court, morning, evening, empty_db, empty_db-IsSound, hold, row_of, stored_hold,
  held_db, paying_db, confirmed, paid_db, paid, intent, offset, kathmandu-IsFixed, receipt,
}

planned : plan service request morning morning empty_db ≡ ok hold
unfolding plan new_slot is_past booking_standing banned load_court_context is_bookable
    within_operating_hours new_hold resolve_price pick_rule covers contains_weekday weekday_of hours
planned = refl

plan-IsAccepted_example :
    (c : CourtRow) × (standing : BookingStanding) × IsAccepted service request morning morning
      empty_db hold c standing
plan-IsAccepted_example = plan-IsAccepted service request morning morning empty_db planned

fresh : IsFreshBooking empty_db 7
unfolding has_verified
fresh = record { unused = refl; unnamed = refl }

held : (create_hold hold 7 morning empty_db).1 ≡ held_db
unfolding create_hold create_hold_tx release_at insert_row
held = refl

created : (create service request 7 morning morning empty_db).1 ≡ held_db
unfolding create
created = rw (create, planned) held

-- The player asks, and the hold stands.
run : Reach empty_db held_db
run =
    subst (Reach empty_db) created
      (later here (create_booking service request 7 morning morning fresh))

Reach-IsSound_example : IsSound held_db
Reach-IsSound_example = Reach-IsSound run empty_db-IsSound

no_double_booking_example : row_of stored_hold ≡ row_of stored_hold
unfolding is_live
no_double_booking_example =
    no_double_booking (row_of stored_hold) (row_of stored_hold) evening.start empty_db-IsSound run
      (inl refl) (inl refl) refl refl refl (omega arith, omega arith) (omega arith, omega arith)

abbrev ask : Payment → Result GatewayResult
ask p = ok receipt

paying-IsSound : IsSound paying_db
unfolding has_verified
paying-IsSound = record {
  disjoint = (refl, tt);
  fused = refl;
  unpaid = refl;
  booking_ids = (refl, tt);
  payment_ids = (refl, tt);
}

stored_paid : Payments.settle paid morning paying_db ≡ (ok paid, paid_db)
unfolding Payments.settle find_payment is_final settle_verified apply_to_booking find_booking
    apply_to_row already_paid confirm write_verified ref_taken pays_twice reread settle_tx pays
stored_paid = refl

settled : (settle ask PaymentProvider.esewa 41 morning morning paying_db).1 ≡ paid_db
unfolding settle by_transaction_uuid settle_found ask_gateway record_answer
settled = rw stored_paid refl

called_back : IsCalledBack paying_db PaymentProvider.esewa 41 intent
unfolding by_transaction_uuid is_final
called_back = record {
  named = refl;
  stored = refl;
  matching = refl;
  open_still = refl;
  online = refl;
}

receipt-IsProof : IsProof intent receipt
receipt-IsProof = record { named = inr refl; moved = refl; exact = refl }

settleable : CanSettle (verify intent receipt morning).0 intent (row_of stored_hold) paying_db
unfolding verify is_final find_payment find_booking ref_taken
settleable = record { kept = refl; placed = refl; free = refl; online = refl; open_still = refl }

callback-Settled_example :
    (stored : Payment) × (db' : Db) × (settle ask PaymentProvider.esewa 41 morning morning paying_db
      ≡ (ok (stored, none), db'))
    × Settled
        (verify intent receipt morning).0
        (row_of stored_hold)
        morning
        paying_db
        (ok stored, db')
callback-Settled_example =
    callback-Settled ask PaymentProvider.esewa 41 morning morning paying_db intent receipt
      (row_of stored_hold) called_back refl receipt-IsProof settleable

-- The gateway confirms, and the booking stands.
paying_run : Reach paying_db paid_db
paying_run =
    subst (Reach paying_db) settled
      (later here (gateway_callback ask PaymentProvider.esewa 41 morning morning))

paid_up : has_verified paid_db.payments 7 ≡ true
unfolding has_verified
paid_up = refl

-- The janitor passes after the game, and somebody else tries to cancel.
abbrev stranger_db : Db
stranger_db = (cancel (λ now. now) 7 99 [] evening.end (sweep evening.end paid_db)).1

paid_booking-IsKept_example : any (has_tenure (row_of confirmed)) stranger_db.bookings ≡ true
unfolding is_live
paid_booking-IsKept_example =
    paid_booking-IsKept (row_of confirmed) (Reach-IsSound paying_run paying-IsSound) (inl refl) refl
      paid_up
      (later (later here (janitor evening.end)) (cancel_booking (λ now. now) 7 99 [] evening.end))
      ((tt, tt), refl)

-- Ten to eleven.
abbrev ten_to_eleven : GridSlot
ten_to_eleven = cell (request_for service court 1 morning morning morning held_db) (pos 600)

opens_at_six : minutes court.opens_at ≡ pos 360
unfolding minutes
opens_at_six = refl

closes_at_ten : minutes court.closes_at ≡ pos 1320
unfolding minutes
closes_at_ten = refl

ordinary : IsOrdinaryDay service.loc court morning
unfolding day_of
ordinary = record {
  offset = offset;
  opens = 360;
  closes = 1320;
  fixed = kathmandu-IsFixed;
  dated = omega arith;
  opening = opens_at_six;
  closing = closes_at_ten;
  one_day = omega arith;
}

found : load_court_context held_db 1 ≡ ok court
unfolding load_court_context
found = refl

shown :
    availability service 1 morning morning morning held_db
    ≡ ok (build_grid (request_for service court 1 morning morning morning held_db))
unfolding availability is_bookable
shown = rw found refl

free_hour :
    Any
      (λ x. x ≡ ten_to_eleven)
      (build_grid (request_for service court 1 morning morning morning held_db))
unfolding request_for
free_hour =
    rw
      (build_grid-cells (request_for service court 1 morning morning morning held_db) 360 1320
        opens_at_six closes_at_ten)
      (inr (inr (inr (inr (inl refl)))))

free : available ten_to_eleven ≡ true
unfolding available cell request_for booked_ranges grid_window midnight cell_slot
free = refl

abbrev second_hold : Booking
second_hold = record hold { slot = ten_to_eleven.slot }

second_hold-IsStorable : IsStorable held_db second_hold
unfolding passes_checks has_court has_user cell request_for cell_slot midnight
second_hold-IsStorable = (refl, refl, refl)

held-IsSound : IsSound held_db
held-IsSound = Reach-IsSound run empty_db-IsSound

availability-create_hold_example :
    create_hold second_hold 8 morning held_db
    ≡ (ok (new_row second_hold 8 morning).booking, stored second_hold 8 morning held_db)
availability-create_hold_example =
    availability-create_hold service court 1 morning morning morning held_db ten_to_eleven
      second_hold 8 held-IsSound ordinary found shown free_hour free second_hold-IsStorable refl
      refl
