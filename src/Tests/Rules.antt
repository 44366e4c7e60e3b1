-- ===== src/Tests/Rules.antt =====
-- The domain's rules on concrete slots, rules, answers and grids.
use khel_arena.Prelude.{
  ◌%◌, ◌<◌, ◌⊎◌, ℕ, ◌+◌, ◌*◌, ◌/◌, ◌-◌, ◌≤◌, ◌<◌, ◌≡◌, ◌↔◌, ◌⊎◌, refl, arith, true, false, none,
  some, [], ◌∷◌, pos, ◌*ℤ◌, ◌≤ℤ◌, All, Any,
}
use khel_arena.Domain.Enums.{PaymentStatus, is_final, is_verified}
use khel_arena.Domain.Slot.Clock.{day, second, hour}
use khel_arena.Domain.Slot.Interval.{Slot, hours, overlaps}
use khel_arena.Domain.Slot.Interval.Laws.{IsBookable, Contains, overlaps_iff, hours_cover}
use khel_arena.Domain.Slot.DayTime.{DayTime, minutes}
use khel_arena.Domain.Slot.Opening.{same_local_day, within_operating_hours}
use khel_arena.Domain.Slot.Opening.Laws.{minute_of_day, within_same_day, within_to_midnight}
use khel_arena.Domain.Pricing.{covers, beats, resolve_price}
use khel_arena.Domain.Pricing.Laws.{resolve_price_best}
use khel_arena.Domain.Payment.{verify}
use khel_arena.Domain.Payment.Verdict.{IsProof, verify_confirms_iff, verify_safe}
use khel_arena.Domain.Grid.{GridRequest, build_grid}
use khel_arena.Domain.Grid.Cells.{cells, build_grid-cells}
use khel_arena.Tests.Data.{
  kathmandu-IsFixed, offset, kathmandu, today, evening, evening_rule, intent, receipt, morning,
}

abbrev late_evening : Slot
late_evening = record { start = today + 19 * hour; end = today + 20 * hour }

-- From eight in the evening to midnight.
abbrev to_midnight : Slot
to_midnight = record { start = today + 20 * hour; end = today + 24 * hour }

evening-IsBookable : IsBookable evening
evening-IsBookable = record { dated = omega arith; shortest = omega arith; longest = omega arith }

overlaps_iff_example :
    (overlaps evening late_evening ≡ true)
    ↔ ((t : ℕ) × Contains evening t × Contains late_evening t)
overlaps_iff_example = overlaps_iff evening late_evening (omega arith) (omega arith)

hours_cover_example :
    (h : ℕ) × (hours evening ≡ pos (h + 1))
    × (evening.start + h * hour < evening.end)
    × (evening.end ≤ evening.start + (h + 1) * hour)
    × (h < 4)
hours_cover_example = hours_cover evening evening-IsBookable

abbrev six : DayTime
six = record { hour = pos 6; minute = pos 0 }

abbrev ten : DayTime
ten = record { hour = pos 22; minute = pos 0 }

abbrev midnight : DayTime
midnight = record { hour = pos 24; minute = pos 0 }

one_day : same_local_day kathmandu evening.start evening.end ≡ true
unfolding same_local_day
one_day = refl

within_same_day_example : (within_operating_hours evening six ten kathmandu ≡ true) ↔ (
    (minutes six ≤ℤ pos (minute_of_day kathmandu evening.start))
    × (pos (minute_of_day kathmandu evening.end) ≤ℤ minutes ten))
within_same_day_example = within_same_day evening six ten kathmandu one_day

two_days : same_local_day kathmandu to_midnight.start to_midnight.end ≡ false
unfolding same_local_day
two_days = refl

to_midnight-IsBookable : IsBookable to_midnight
to_midnight-IsBookable = record {
  dated = omega arith;
  shortest = omega arith;
  longest = omega arith;
}

-- The arena opens at ten in the evening, two hours after the slot begins.
within_to_midnight_example : (within_operating_hours to_midnight ten midnight kathmandu ≡ true) ↔ (
    (kathmandu.wall to_midnight.end % day < second)
    × ((minutes midnight ≡ pos 1440) ⊎ (minutes midnight ≡ pos 0)))
within_to_midnight_example =
    within_to_midnight to_midnight ten midnight kathmandu offset to_midnight-IsBookable
      kathmandu-IsFixed two_days

let_in_before_opening : within_operating_hours to_midnight ten midnight kathmandu ≡ true
unfolding within_operating_hours
let_in_before_opening = refl

resolve_price_best_example :
    let price = resolve_price (pos 1200) (evening_rule ∷ []) evening kathmandu in
    (price.total_npr ≡ price.per_hour_npr *ℤ hours evening)
    × (All (λ r. covers r evening.start kathmandu ≡ false) (evening_rule ∷ [])
          × (price.per_hour_npr ≡ pos 1200)
          × (price.is_peak ≡ false)
          × (price.rule_id ≡ none)
        ⊎ (b : _) × (covers b evening.start kathmandu ≡ true)
          × Any (λ r. r ≡ b) (evening_rule ∷ [])
          × All
              (λ r. (covers r evening.start kathmandu ≡ true) → beats r b ≡ false)
              (evening_rule ∷ [])
          × (price.per_hour_npr ≡ b.price_npr)
          × (price.is_peak ≡ b.is_peak)
          × (price.rule_id ≡ some b.id))
resolve_price_best_example = resolve_price_best (pos 1200) (evening_rule ∷ []) evening kathmandu

verify_confirms_iff_example :
    ((verify intent receipt morning).1 ≡ true)
    ↔ ((is_final intent.status ≡ false) × IsProof intent receipt)
verify_confirms_iff_example = verify_confirms_iff intent receipt morning

verify_safe_example :
    let (q, confirm, e) = verify intent receipt morning in
    (q.booking_id ≡ 7)
    × (q.amount_npr ≡ pos 3600)
    × (q.transaction_uuid ≡ 41)
    × ((confirm ≡ true)
          × (e ≡ none)
          × (q.status ≡ PaymentStatus.verified)
          × (q.verified_at ≡ some morning)
        ⊎ (confirm ≡ false)
          × ((is_final intent.status ≡ true) × (q ≡ intent) × (e ≡ none)
              ⊎ (is_final intent.status ≡ false) × (is_verified q.status ≡ false)))
verify_safe_example = verify_safe intent receipt morning

abbrev grid_request : GridRequest
grid_request = record {
  date = morning;
  opens_at = six;
  closes_at = ten;
  location = kathmandu;
  base_price_npr = pos 1200;
  rules = evening_rule ∷ [];
  booked = evening ∷ [];
  now = morning;
}

opens_at_six : minutes six ≡ pos 360
unfolding minutes
opens_at_six = refl

closes_at_ten : minutes ten ≡ pos 1320
unfolding minutes
closes_at_ten = refl

build_grid-cells_example : build_grid grid_request ≡ cells grid_request 360 ((1320 - 360) / 60)
build_grid-cells_example = build_grid-cells grid_request 360 1320 opens_at_six closes_at_ten
