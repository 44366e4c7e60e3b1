-- ===== src/Tests/Data.antt =====
-- A small venue: one court, two players, an owner, and a day in Kathmandu.
use khel_arena.Prelude.{ℕ, ◌+◌, ◌-◌, ◌*◌, refl, true, none, some, [], ◌∷◌, arith, pos}
use khel_arena.Domain.Enums.{BookingStatus, PaymentProvider, PaymentStatus}
use khel_arena.Domain.Slot.Clock.{Location, IsFixed, day, hour}
use khel_arena.Domain.Slot.Interval.{Slot}
use khel_arena.Domain.Pricing.{PricingRule}
use khel_arena.Domain.Booking.{Booking}
use khel_arena.Domain.Payment.{Payment, GatewayResult}
use khel_arena.Store.Tables.{BookingRow, CourtRow, UserRow, Db}
use khel_arena.Store.Invariant.{IsSound}
use khel_arena.Service.Bookings.{BookingService, CreateBookingInput}

-- Five hours and forty-five minutes.
abbrev pub offset : ℕ
offset = 20_700_000_000_000

abbrev pub kathmandu : Location
kathmandu = record { wall = λ t. t + offset; midnight = λ d. d * day - offset }

pub kathmandu-IsFixed : IsFixed kathmandu offset
kathmandu-IsFixed = record { wall_offset = λ t. refl; midnight_offset = λ d h. ground arith }

-- Midnight of the day that the examples play on.
abbrev pub today : ℕ
today = 1000 * day - offset

abbrev pub evening_rule : PricingRule
evening_rule = record {
  id = 31;
  court_id = 1;
  label = "Evening Peak";
  days = 0 ∷ 1 ∷ 2 ∷ 3 ∷ 4 ∷ 5 ∷ 6 ∷ [];
  start_hour = pos 17;
  end_hour = pos 21;
  price_npr = pos 1800;
  is_peak = true;
  priority = pos 1;
}

abbrev pub court : CourtRow
court = record {
  id = 1;
  owner_id = 9;
  base_price_npr = pos 1200;
  is_active = true;
  opens_at = record { hour = pos 6; minute = pos 0 };
  closes_at = record { hour = pos 22; minute = pos 0 };
  arena_active = true;
  pricing_rules = evening_rule ∷ [];
}

abbrev pub player : UserRow
player = record { id = 5; user_score = 100; booking_banned_until = none }

abbrev pub empty_db : Db
empty_db = record {
  bookings = [];
  payments = [];
  posts = [];
  users = player ∷ [];
  courts = court ∷ [];
}

pub empty_db-IsSound : IsSound empty_db
empty_db-IsSound = record {
  disjoint = tt;
  fused = refl;
  unpaid = refl;
  booking_ids = tt;
  payment_ids = tt;
}

-- Six to half past seven in the evening.
abbrev pub evening : Slot
evening = record { start = today + 18 * hour; end = today + 19 * hour + 1_800_000_000_000 }

abbrev pub morning : ℕ
morning = today + 8 * hour

abbrev pub service : BookingService
service = record { loc = kathmandu; hold_window = pos 900_000_000_000 }

abbrev pub request : CreateBookingInput
request = record {
  user_id = 5;
  court_id = 1;
  start = evening.start;
  end = evening.end;
  team_id = none;
  note = [];
}

-- The hold that the request becomes: two hours at 1800.
abbrev pub hold : Booking
hold = record {
  id = 0;
  court_id = 1;
  user_id = 5;
  team_id = none;
  slot = evening;
  price_npr = pos 3600;
  is_peak = true;
  status = BookingStatus.pending;
  note = [];
  hold_expires_at = some (morning + 900_000_000_000);
  created_at = 0;
  updated_at = 0;
}

abbrev pub row_of : Booking → BookingRow
row_of b = record {
  booking = b;
  cancel_reason = [];
  cancelled_at = none;
  cancel_penalty = 0;
  penalty_restored_at = none;
}

abbrev pub stored_hold : Booking
stored_hold = record hold { id = 7; created_at = morning; updated_at = morning }

abbrev pub held_db : Db
held_db = record empty_db { bookings = row_of stored_hold ∷ [] }

-- What the player starts with eSewa, and eSewa's answer.
abbrev pub intent : Payment
intent = record {
  id = 3;
  booking_id = 7;
  provider = PaymentProvider.esewa;
  amount_npr = pos 3600;
  status = PaymentStatus.initiated;
  transaction_uuid = 41;
  provider_ref = 0;
  raw_response = 0;
  created_at = morning;
  verified_at = none;
  refund_due_at = none;
  refund_reason = none;
  refunded_at = none;
}

abbrev pub receipt : GatewayResult
receipt = record {
  verified = true;
  transaction_uuid = 41;
  provider_ref = 55;
  amount_npr = pos 3600;
  raw = 66;
}

abbrev pub paying_db : Db
paying_db = record held_db { payments = intent ∷ [] }

-- The payment as the answer leaves it.
abbrev pub paid : Payment
paid = record intent {
  status = PaymentStatus.verified;
  provider_ref = 55;
  raw_response = 66;
  verified_at = some morning;
}

-- The booking paid for and confirmed.
abbrev pub confirmed : Booking
confirmed = record stored_hold { status = BookingStatus.confirmed; hold_expires_at = none }

abbrev pub paid_db : Db
paid_db = record empty_db { bookings = row_of confirmed ∷ []; payments = paid ∷ [] }
