-- ===== src/Domain/Pricing/Weekday.antt =====
-- The conversion of weekdays in internal/domain/pricing.go, between Go's numbers (Sunday is 0)
-- and the ISO numbers that the database stores (Monday is 1, Sunday is 7).
use khel_arena.Prelude.{
  ℕ, ◌≤◌, ◌<◌, ◌≡◌, ◌||◌, arith, ℤ, pos, pos_part, ltb_ℤ, eq_ℤ, ◌==◌, ◌↔◌, if◌then◌else◌,
}
use khel_arena.Domain.Errors.{Result, ok, err, invalid}

unfoldable pub iso_weekday : ℕ → ℕ
iso_weekday d = if d == 0 then 7 else d

unfoldable pub weekday_from_iso : ℤ → Result ℕ
weekday_from_iso iso =
    if ltb_ℤ iso (pos 1) || ltb_ℤ (pos 7) iso
    then err
        (invalid "days" "%d is not a day of the week (expected 1 for Monday through 7 for Sunday).")
    else if eq_ℤ iso (pos 7)
    then ok 0
    else ok (pos_part iso)

-- Each weekday comes back from its ISO number, which lies from 1 to 7.
pub weekday_from_iso-iso_weekday :
    (d : ℕ)
    → d < 7
    → (weekday_from_iso (pos (iso_weekday d)) ≡ ok d) × (1 ≤ iso_weekday d) × (iso_weekday d ≤ 7)
unfolding iso_weekday weekday_from_iso
weekday_from_iso-iso_weekday d h = ground arith

-- Whatever number is accepted is the ISO number of the weekday that it gives, and is a weekday.
pub iso_weekday-weekday_from_iso :
    (iso : ℤ) {d : ℕ} → weekday_from_iso iso ≡ ok d → (pos (iso_weekday d) ≡ iso) × (d < 7)
unfolding iso_weekday weekday_from_iso
iso_weekday-weekday_from_iso iso h = ground arith

-- The two conversions are inverse: a number is accepted as a weekday exactly if it is the ISO number
-- of that weekday, and the weekday is one of Go's seven.
pub weekday_from_iso_iff :
    (iso : ℤ) (d : ℕ) → (weekday_from_iso iso ≡ ok d) ↔ ((pos (iso_weekday d) ≡ iso) × (d < 7))
weekday_from_iso_iff iso d =
    (iso_weekday-weekday_from_iso iso, λ (e, h). rw (← e) ((weekday_from_iso-iso_weekday d h).0))
