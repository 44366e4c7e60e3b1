-- ===== src/Service/Bookings/Accepted.antt =====
-- What a player's request must satisfy to become a hold.
use khel_arena.Prelude.{ℕ, ℤ, ◌≡◌, refl, Bool, true, false, not, some, arith, ◌==◌}
use khel_arena.Domain.Errors.{Error, ok, >>=-eq-ok}
use khel_arena.Domain.Enums.{BookingStatus}
use khel_arena.Domain.Slot.Clock.{add}
use khel_arena.Domain.Slot.Interval.{Slot, new_slot, is_past}
use khel_arena.Domain.Slot.Interval.Laws.{IsBookable, new_slot-IsBookable}
use khel_arena.Domain.Slot.Opening.{within_operating_hours}
use khel_arena.Domain.Pricing.{Price, resolve_price}
use khel_arena.Domain.Booking.{Booking, BookingStanding, new_hold, banned}
use khel_arena.Store.Tables.{CourtRow, Db, is_bookable}
use khel_arena.Store.Bookings.{booking_standing}
use khel_arena.Service.Bookings.{
  BookingService, CreateBookingInput, plan, load_court_context, refuse_if,
}

-- The hold that `plan` lets through, with the court and the standing that it was judged by.
pub record IsAccepted (s : BookingService) (input : CreateBookingInput) (now db_now : ℕ) (db : Db)
    (b : Booking) (court : CourtRow) (standing : BookingStanding) : Type 0 where
  pub bookable_slot : IsBookable b.slot
  pub asked : (b.slot.start ≡ input.start) × (b.slot.end ≡ input.end)
  pub known : booking_standing db input.user_id db_now ≡ ok standing
  pub not_banned : banned standing now ≡ false
  pub found : load_court_context db input.court_id ≡ ok court
  pub bookable : is_bookable court ≡ true
  pub within : within_operating_hours b.slot court.opens_at court.closes_at s.loc ≡ true
  pub priced :
      b.price_npr ≡ (resolve_price court.base_price_npr court.pricing_rules b.slot s.loc).total_npr
  pub held : b.status ≡ BookingStatus.pending
  pub expires : b.hold_expires_at ≡ some (add now s.hold_window)
  pub owned : (b.user_id ≡ input.user_id) × (b.court_id ≡ input.court_id)

passed : (c : Bool) (e : Error) {u : Unit {0}} → refuse_if c e ≡ ok u → c ≡ false
passed true e h = cc
passed false e h = refl

-- What NewHold fills in.
record IsHoldFor (input : CreateBookingInput) (slot : Slot) (price : Price) (expires : ℕ)
    (b : Booking) : Type 0 where
  same_slot : b.slot ≡ slot
  total : b.price_npr ≡ price.total_npr
  pending : b.status ≡ BookingStatus.pending
  expiry : b.hold_expires_at ≡ some expires
  player : b.user_id ≡ input.user_id
  court : b.court_id ≡ input.court_id

new_hold-IsHoldFor :
    (input : CreateBookingInput) (slot : Slot) (price : Price) (now : ℕ) (hold_window : ℤ)
    {b : Booking}
    → new_hold input.court_id input.user_id slot price input.team_id input.note now hold_window
      ≡ ok b
    → IsHoldFor input slot price (add now hold_window) b
unfolding new_hold
new_hold-IsHoldFor input slot price now hold_window h = ground arith

module _ (s : BookingService) (input : CreateBookingInput) (now db_now : ℕ) (db : Db) where
  -- The last step, on a slot, a standing and a court that passed the checks.
  hold-IsAccepted :
      (slot : Slot) (standing : BookingStanding) (court : CourtRow) {b : Booking}
      → new_slot input.start input.end ≡ ok slot
      → booking_standing db input.user_id db_now ≡ ok standing
      → banned standing now ≡ false
      → load_court_context db input.court_id ≡ ok court
      → not (is_bookable court) ≡ false
      → not (within_operating_hours slot court.opens_at court.closes_at s.loc) ≡ false
      → IsHoldFor input slot
          (resolve_price court.base_price_npr court.pricing_rules slot s.loc)
          (add now s.hold_window)
          b
      → IsAccepted s input now db_now db b court standing
  hold-IsAccepted slot standing court dated known free found open_court open_hours hold =
      let (bookable, starts, ends) = new_slot-IsBookable input.start input.end dated in
      record {
        bookable_slot = rw hold.same_slot bookable;
        asked = (rw hold.same_slot starts, rw hold.same_slot ends);
        known = known;
        not_banned = free;
        found = found;
        bookable = ground arith;
        within = rw hold.same_slot (ground arith);
        priced = rw hold.same_slot (hold.total);
        held = hold.pending;
        expires = hold.expiry;
        owned = (hold.player, hold.court);
      }

  -- A request that passes every check becomes a pending hold for the player, the court and the
  -- instants of the request. The slot lasts from 30 minutes to 4 hours; the player exists and is not
  -- banned; the court exists, and it and its arena are active; the slot is within the opening hours;
  -- the price is what the court's own rules give for it; and the hold ends one hold window from now.
  pub plan-IsAccepted :
      {b : Booking}
      → plan s input now db_now db ≡ ok b
      → (court : CourtRow) × (standing : BookingStanding) × IsAccepted s input now db_now db b court
          standing
  unfolding plan
  plan-IsAccepted h =
      let (slot, h₀, k₀) = >>=-eq-ok (new_slot input.start input.end) _ h in
      let (_, h₁, k₁) = >>=-eq-ok (refuse_if (is_past slot now) _) _ k₀ in
      let (_, h₂, k₂) = >>=-eq-ok (refuse_if (input.user_id == 0) _) _ k₁ in
      let (standing, h₃, k₃) = >>=-eq-ok (booking_standing db input.user_id db_now) _ k₂ in
      let (_, h₄, k₄) = >>=-eq-ok (refuse_if (banned standing now) _) _ k₃ in
      let (court, h₅, k₅) = >>=-eq-ok (load_court_context db input.court_id) _ k₄ in
      let (_, h₆, k₆) = >>=-eq-ok (refuse_if (not (is_bookable court)) _) _ k₅ in
      let (_, h₇, k₇) =
        >>=-eq-ok
          (refuse_if (not (within_operating_hours slot court.opens_at court.closes_at s.loc)) _) _
          k₆ in
      (
        court,
        standing,
        hold-IsAccepted slot standing court h₀ h₃ (passed (banned standing now) _ h₄) h₅
            (passed (not (is_bookable court)) _ h₆)
            (passed (not (within_operating_hours slot court.opens_at court.closes_at s.loc)) _ h₇)
            (new_hold-IsHoldFor input slot
              (resolve_price court.base_price_npr court.pricing_rules slot s.loc) now s.hold_window
              k₇),
      )
