-- ===== src/Service/Availability.antt =====
-- Availability of BookingService, internal/service/booking.go.
pub mod Promise
use khel_arena.Prelude.{ℕ, Bool, not, List}
use khel_arena.Domain.Errors.{Result, ok, ◌>>=◌, ◌>>◌, not_found}
use khel_arena.Domain.Grid.{GridRequest, GridSlot, build_grid, grid_window}
use khel_arena.Store.Tables.{CourtRow, Db, is_bookable}
use khel_arena.Store.Ranges.{booked_ranges}
use khel_arena.Service.Bookings.{BookingService, load_court_context, refuse_if}

-- What BuildGrid is asked, for a court that was found.
unfoldable pub request_for : BookingService → CourtRow → ℕ → ℕ → ℕ → ℕ → Db → GridRequest
request_for s court id date now db_now db = record {
  date = date;
  opens_at = court.opens_at;
  closes_at = court.closes_at;
  location = s.loc;
  base_price_npr = court.base_price_npr;
  rules = court.pricing_rules;
  booked = booked_ranges db id (grid_window date s.loc) db_now;
  now = now;
}

unfoldable pub availability : BookingService → ℕ → ℕ → ℕ → ℕ → Db → Result (List GridSlot)
unfolding is_bookable request_for
availability s id date now db_now db = do
  court ← load_court_context db id
  refuse_if (not (is_bookable court)) (not_found "That court is no longer available.")
  ok (build_grid (request_for s court id date now db_now db))
