-- ===== src/Service/Availability/Promise.antt =====
-- What the grid promises: an hour that it shows as free is one that will book.
use khel_arena.Prelude.{
  ℕ, zero, suc, ◌+◌, ◌-◌, ◌*◌, ◌/◌, ◌≤◌, ◌<◌, ◌≡◌, sym, ap, ◌∙◌, true, false, not, List, inl, inr,
  arith, pos, pos-mul, Any, any,
}
use khel_arena.Domain.Errors.{ok, >>=-eq-ok, ok-eq}
use khel_arena.Domain.Slot.Clock.{Location, IsFixed, day, minute, add, day_of}
use khel_arena.Domain.Slot.DayTime.{minutes}
use khel_arena.Domain.Booking.{Booking}
use khel_arena.Domain.Grid.{
  GridRequest, GridSlot, available, cell, cell_slot, midnight, grid_window, build_grid,
  overlaps_any,
}
use khel_arena.Domain.Grid.Cells.{cells, build_grid-cells}
use khel_arena.Store.Tables.{CourtRow, Db, is_bookable}
use khel_arena.Store.Bookings.{blocks_at, create_hold, new_row}
use khel_arena.Store.Ranges.{booked_ranges, booked_ranges-blocks}
use khel_arena.Store.Invariant.{IsSound}
use khel_arena.Store.Holds.{IsStorable, stored, create_hold_free}
use khel_arena.Service.Bookings.{BookingService, load_court_context, refuse_if}
use khel_arena.Service.Availability.{availability, request_for}

-- A cell of a grid is the cell of some offset.
cells-member :
    (req : GridRequest) (n offset : ℕ) {g : GridSlot}
    → Any (λ x. x ≡ g) (cells req offset n)
    → (k : ℕ) × (offset ≤ k) × (k + 60 ≤ offset + 60 * n) × (cell req (pos k) ≡ g)
cells-member req zero offset m = elim m [ ]
cells-member req (suc n) offset (inl e) = (offset, omega arith, omega arith, e)
cells-member req (suc n) offset (inr m) =
    let (k, low, high, e) = cells-member req n (offset + 60) m in (k, omega arith, omega arith, e)

-- In a zone of fixed offset, a cell lies within the day that bookings are looked up for.
cell-within :
    (loc : Location) (offset date k : ℕ)
    → IsFixed loc offset
    → offset < day_of loc date * day
    → k + 60 ≤ 1440
    → ((grid_window date loc).start ≤ (cell_slot loc date (pos k)).start)
      × ((cell_slot loc date (pos k)).end ≤ (grid_window date loc).end)
unfolding grid_window cell_slot midnight add
cell-within loc offset date k fixed dated fits =
    let today : loc.midnight (day_of loc date) + offset ≡ day_of loc date * day =
      fixed.midnight_offset _ dated in
    let tomorrow : loc.midnight (day_of loc date + 1) + offset ≡ (day_of loc date + 1) * day =
      fixed.midnight_offset _ (omega arith) in
    rw (pos-mul k minute) (omega arith, omega arith)

-- The zone has a fixed offset that the date is past, and the court's hours lie within one day.
pub record IsOrdinaryDay (loc : Location) (court : CourtRow) (date : ℕ) : Type 0 where
  pub offset : ℕ
  pub opens : ℕ
  pub closes : ℕ
  pub fixed : IsFixed loc offset
  pub dated : offset < day_of loc date * day
  pub opening : minutes court.opens_at ≡ pos opens
  pub closing : minutes court.closes_at ≡ pos closes
  pub one_day : closes ≤ 1440

-- A cell of the grid that is not booked is not blocked at the instant that the grid was made.
cell-free :
    (s : BookingService) (court : CourtRow) (id date now db_now : ℕ) (db : Db) (g : GridSlot)
    → IsOrdinaryDay s.loc court date
    → Any (λ x. x ≡ g) (build_grid (request_for s court id date now db_now db))
    → available g ≡ true
    → any (blocks_at db_now id g.slot) db.bookings ≡ false
unfolding request_for cell available
cell-free s court id date now db_now db g ordinary shown free =
    let req = request_for s court id date now db_now db in
    let grid : build_grid req ≡ cells req ordinary.opens ((ordinary.closes - ordinary.opens) / 60) =
      build_grid-cells req ordinary.opens ordinary.closes ordinary.opening ordinary.closing in
    let (k, low, high, e) =
      cells-member req ((ordinary.closes - ordinary.opens) / 60) ordinary.opens
        (rw grid at shown) in
    let slot : cell_slot s.loc date (pos k) ≡ g.slot = ap (λ (x : GridSlot). x.slot) e in
    let booked : overlaps_any (cell_slot s.loc date (pos k))
          (booked_ranges db id (grid_window date s.loc) db_now)
        ≡ g.is_booked =
      ap (λ (x : GridSlot). x.is_booked) e in
    let (from, to) =
      cell-within s.loc ordinary.offset date k ordinary.fixed ordinary.dated
        (omega (arith, ordinary.one_day)) in
    let agree =
      booked_ranges-blocks id db_now (grid_window date s.loc) (cell_slot s.loc date (pos k)) from to
        db in
    let unbooked : g.is_booked ≡ false = ground arith in rw (← slot) (sym agree ∙ booked ∙ unbooked)

available_grid :
    (s : BookingService) (court : CourtRow) (id date now db_now : ℕ) (db : Db)
    {grid : List GridSlot}
    → availability s id date now db_now db ≡ ok grid
    → load_court_context db id ≡ ok court
    → build_grid (request_for s court id date now db_now db) ≡ grid
unfolding availability
available_grid s court id date now db_now db shown found =
    let (court', h₀, k₀) = >>=-eq-ok (load_court_context db id) _ shown in
    let (_, h₁, k₁) = >>=-eq-ok (refuse_if (not (is_bookable court')) _) _ k₀ in
    let same : court' ≡ court = ok-eq (sym h₀ ∙ found) in rw same at (ok-eq k₁)

-- An hour that Availability shows as free is booked if a player asks for it at the same instant, on
-- sound tables and for a booking that the constraints let in, on an ordinary day. The hold is stored,
-- and nothing else changes but that stale holds are released.
pub availability-create_hold :
    (s : BookingService) (court : CourtRow) (id date now db_now : ℕ) (db : Db)
    {grid : List GridSlot} (g : GridSlot) (b : Booking) (new_id : ℕ)
    → IsSound db
    → IsOrdinaryDay s.loc court date
    → load_court_context db id ≡ ok court
    → availability s id date now db_now db ≡ ok grid
    → Any (λ x. x ≡ g) grid
    → available g ≡ true
    → IsStorable db b
    → b.court_id ≡ id
    → b.slot ≡ g.slot
    → create_hold b new_id db_now db
      ≡ (ok (new_row b new_id db_now).booking, stored b new_id db_now db)
availability-create_hold s court id date now db_now db g b new_id sound ordinary found shown
      cell_shown free storable at_court at_slot =
    let grid_e = available_grid s court id date now db_now db shown found in
    let unblocked =
      cell-free s court id date now db_now db g ordinary (rw grid_e cell_shown) free in
    create_hold_free db b new_id db_now sound storable (rw (at_court, at_slot) unblocked)
