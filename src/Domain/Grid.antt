-- ===== src/Domain/Grid.antt =====
-- internal/domain/availability.go and the GridSlot of arena.go: the bookable hours of a court on a
-- date. The location is never nil here.
pub mod Cells
use khel_arena.Prelude.{
  ℕ, zero, suc, ◌+◌, ◌/◌, Bool, false, ◌&&◌, ◌||◌, not, List, [], ◌∷◌, String, ℤ, pos, pos_part,
  ◌+ℤ◌, ◌-ℤ◌, ◌*ℤ◌, leb_ℤ, ltb, any, if◌then◌else◌,
}
use khel_arena.Domain.Slot.Clock.{Location, hour, minute, add, day_of}
use khel_arena.Domain.Slot.Interval.{Slot, overlaps, slot_granularity}
use khel_arena.Domain.Slot.DayTime.{DayTime, minutes}
use khel_arena.Domain.Pricing.{PricingRule, Price, resolve_price}

pub record GridSlot : Type 0 where
  pub slot : Slot
  pub price_npr : ℤ
  pub is_peak : Bool
  pub rule_label : String
  pub is_booked : Bool
  pub is_past : Bool

unfoldable pub available : GridSlot → Bool
available g = not g.is_booked && not g.is_past

pub record GridRequest : Type 0 where
  pub date : ℕ
  pub opens_at : DayTime
  pub closes_at : DayTime
  pub location : Location
  pub base_price_npr : ℤ
  pub rules : List PricingRule
  pub booked : List Slot
  pub now : ℕ

unfoldable pub overlaps_any : Slot → List Slot → Bool
unfolding overlaps
overlaps_any slot taken = any (overlaps slot) taken

-- `midnight` of BuildGrid
unfoldable pub midnight : Location → ℕ → ℕ
unfolding day_of
midnight loc date = loc.midnight (day_of loc date)

unfoldable pub cell_slot : Location → ℕ → ℤ → Slot
unfolding midnight add ◌*ℤ◌
cell_slot loc date offset =
    let start : ℕ = add (midnight loc date) (offset *ℤ pos minute) in
    record { start = start; end = start + slot_granularity }

-- The cell of one turn of the loop, by its offset in minutes.
unfoldable pub cell : GridRequest → ℤ → GridSlot
unfolding overlaps_any cell_slot
cell req offset =
    let slot : Slot = cell_slot req.location req.date offset in
    let price : Price = resolve_price req.base_price_npr req.rules slot req.location in
    record {
      slot = slot;
      price_npr = price.total_npr;
      is_peak = price.is_peak;
      rule_label = price.rule_label;
      is_booked = overlaps_any slot req.booked;
      is_past = ltb slot.start req.now;
    }

-- The loop, on fuel.
unfoldable pub grid_from : ℕ → GridRequest → ℤ → ℤ → List GridSlot
unfolding cell ◌+ℤ◌
grid_from zero req offset closes = []
grid_from (suc n) req offset closes =
    let rest = grid_from n req (offset +ℤ pos 60) closes in
    if leb_ℤ (offset +ℤ pos 60) closes then cell req offset ∷ rest else []

-- `capacity`, which is enough fuel.
unfoldable pub capacity : ℤ → ℤ → ℕ
unfolding ◌-ℤ◌
capacity opens closes = pos_part (closes -ℤ opens) / 60

unfoldable pub build_grid : GridRequest → List GridSlot
build_grid req =
    let opens : ℤ = minutes req.opens_at in
    let closes : ℤ = minutes req.closes_at in
    if leb_ℤ closes opens then [] else grid_from (capacity opens closes) req opens closes

-- `GridWindow`: the whole local day.
unfoldable pub grid_window : ℕ → Location → Slot
unfolding day_of midnight
grid_window date loc = record {
  start = midnight loc date;
  end = loc.midnight (day_of loc date + 1);
}
