-- ===== src/Domain/Grid/Cells.antt =====
-- The cells of a grid: how many there are, and which.
use khel_arena.Prelude.{
  ℕ, zero, suc, ◌+◌, ◌-◌, ◌*◌, ◌/◌, ◌≤◌, ◌<◌, ◌≡◌, refl, List, [], ◌∷◌, arith, pos, ◌+ℤ◌, ◌-ℤ◌,
  leb_ℤ, Bool-cases, inl, inr, true, false, pos-add,
}
use khel_arena.Domain.Slot.DayTime.{minutes}
use khel_arena.Domain.Grid.{GridRequest, GridSlot, cell, grid_from, capacity, build_grid}

-- The cells at n offsets from `offset` on, an hour apart.
abbrev pub cells : GridRequest → ℕ → ℕ → List GridSlot
cells req offset zero = []
cells req offset (suc n) = cell req (pos offset) ∷ cells req (offset + 60) n

grid_from-cells :
    (n fuel : ℕ) (req : GridRequest) (offset closes : ℕ)
    → n ≤ fuel
    → offset + 60 * n ≤ closes
    → closes < offset + 60 * n + 60
    → grid_from fuel req (pos offset) (pos closes) ≡ cells req offset n
unfolding grid_from
grid_from-cells zero zero req offset closes enough fits last = refl
grid_from-cells zero (suc fuel) req offset closes enough fits last =
    let stop : leb_ℤ (pos offset +ℤ pos 60) (pos closes) ≡ false =
      rw (pos-add offset 60) (ground arith) in
    rw stop refl
grid_from-cells (suc n) zero req offset closes enough fits last = ground arith
grid_from-cells (suc n) (suc fuel) req offset closes enough fits last =
    let rest =
      grid_from-cells n fuel req (offset + 60) closes (omega arith) (omega arith) (omega arith) in
    let go_on : leb_ℤ (pos offset +ℤ pos 60) (pos closes) ≡ true =
      rw (pos-add offset 60) (ground arith) in
    rw (go_on, pos-add offset 60, rest) refl

capacity-pos :
    (opens closes : ℕ) → opens ≤ closes → capacity (pos opens) (pos closes) ≡ (closes - opens) / 60
unfolding capacity ◌-ℤ◌
capacity-pos opens closes h = ground arith

-- An arena that opens and closes at whole minutes gets a cell for each whole hour of its day, each
-- an hour after the one before, from the opening on; the last ends at closing or less than an
-- hour before. The bound on the loop's turns is never what ends it.
pub build_grid-cells :
    (req : GridRequest) (opens closes : ℕ)
    → minutes req.opens_at ≡ pos opens
    → minutes req.closes_at ≡ pos closes
    → build_grid req ≡ cells req opens ((closes - opens) / 60)
unfolding build_grid
build_grid-cells req opens closes o c =
    rw (o, c)
      (elim (Bool-cases (leb_ℤ (pos closes) (pos opens))) [
        | inl shut ↦
            let none_fit : (closes - opens) / 60 ≡ 0 = ground arith in rw (shut, none_fit) refl
        | inr open_for ↦
            let enough : capacity (pos opens) (pos closes) ≡ (closes - opens) / 60 =
              capacity-pos opens closes (ground arith) in
            rw (open_for, enough)
              (grid_from-cells ((closes - opens) / 60) ((closes - opens) / 60) req opens closes
                (omega arith) (ground arith) (ground arith))
      ])
