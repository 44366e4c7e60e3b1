-- ===== src/Domain/Tournament.antt =====
-- internal/domain/tournament.go: how a prize pool is shared, and when a tournament takes entries. The
-- record has the fields that these rules read, and Founding the others; a date is its first instant in
-- UTC, as the driver reads it. The sums and products of prizes wrap around at 64 bits.
pub mod Prizes
pub mod Entries
pub mod Founding
use khel_arena.Prelude.{
  ℕ, zero, suc, ◌+◌, ◌-◌, ◌/◌, Bool, true, false, not, ◌||◌, Option, none, some, List, [], ◌∷◌, ℤ,
  pos, negsuc, pos_part, ◌+ℤ◌, ◌-ℤ◌, ◌*ℤ◌, ltb_ℤ, leb_ℤ, eq_ℤ, ltb, if◌then◌else◌, length,
}
use khel_arena.Domain.Errors.{Error, invalid, conflict}
use khel_arena.Domain.Enums.{TournamentStatus}
use khel_arena.Domain.Slot.Clock.{day}
use khel_arena.Domain.Word.{wrap64}

pub record Tournament : Type 0 where
  pub max_teams : ℤ
  pub team_count : ℤ
  pub prize_pool_npr : ℤ
  pub prize_split : List ℤ
  pub register_by : ℕ
  pub status : TournamentStatus

-- `i > 0 && share > split[i-1]`
abbrev pub exceeds : ℤ → Option ℤ → Bool
exceeds share none = false
exceeds share (some above) = ltb_ℤ above share

-- The loop of validatePrizeSplit, with the share above and the total so far, and the check after it.
unfoldable pub check_shares : Option ℤ → ℤ → List ℤ → Option Error
unfolding wrap64
check_shares above total [] =
    if eq_ℤ total (pos 100)
    then none
    else some (invalid "prize_split" "The prize shares add up to %d%%, not 100%%.")
check_shares above total (share ∷ shares) =
    let rest = check_shares (some share) (wrap64 (total +ℤ share)) shares in
    if ltb_ℤ share (pos 0)
    then some (invalid "prize_split" "Prize shares can't be negative.")
    else if exceeds share above
    then some (invalid "prize_split" "Each place should win no more than the one above it.")
    else rest

unfoldable pub validate_prize_split : List ℤ → Option Error
unfolding check_shares
validate_prize_split [] = some (invalid "prize_split" "Say how the prize money is shared.")
validate_prize_split (share ∷ shares) =
    if ltb 8 (length (share ∷ shares))
    then some (invalid "prize_split" "Split the prize between at most 8 places.")
    else check_shares none (pos 0) (share ∷ shares)

-- `split[i]`
abbrev pub share_at : List ℤ → ℕ → ℤ
share_at [] i = pos 0
share_at (share ∷ shares) zero = share
share_at (share ∷ shares) (suc i) = share_at shares i

-- Go's `amount / 100`, which rounds toward zero.
unfoldable pub hundredth : ℤ → ℤ
unfolding ◌-ℤ◌
hundredth (pos n) = pos (n / 100)
hundredth (negsuc n) = pos 0 -ℤ pos ((n + 1) / 100)

unfoldable pub prize_for : Tournament → ℤ → ℤ
unfolding hundredth wrap64
prize_for t place =
    if ltb_ℤ place (pos 1) || ltb_ℤ (pos (length t.prize_split)) place
    then pos 0
    else hundredth (wrap64 (t.prize_pool_npr *ℤ share_at t.prize_split (pos_part place - 1)))

-- `max(0, MaxTeams - TeamCount)`
unfoldable pub slots_remaining : Tournament → ℤ
unfolding ◌-ℤ◌
slots_remaining t =
    if ltb_ℤ (t.max_teams -ℤ t.team_count) (pos 0) then pos 0 else t.max_teams -ℤ t.team_count

-- What the status alone says against an entry.
unfoldable pub status_refusal : TournamentStatus → Option Error
status_refusal TournamentStatus.cancelled = some (conflict "This tournament was cancelled.")
status_refusal TournamentStatus.ongoing = some (conflict "This tournament has already started.")
status_refusal TournamentStatus.completed = some (conflict "This tournament has already started.")
status_refusal TournamentStatus.full = some (conflict "This tournament is full.")
status_refusal TournamentStatus.open_entry = none

-- Registration is open through the end of the day `register_by`.
unfoldable pub can_accept_registration : Tournament → ℕ → Option Error
unfolding status_refusal
can_accept_registration t now = elim (status_refusal t.status) [
  | some refusal ↦ some refusal
  | none ↦
      if not (ltb now (t.register_by + day))
      then some (conflict "Registration for this tournament has closed.")
      else if leb_ℤ t.max_teams t.team_count
      then some (conflict "This tournament is full.")
      else none
]
