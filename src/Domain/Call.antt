-- ===== src/Domain/Call.antt =====
-- internal/domain/matchmaking.go: a post on the find-a-player board, and who may do what with it.
use khel_arena.Prelude.{
  ℕ, Bool, true, false, ◌&&◌, not, Option, none, some, ℤ, pos, ◌-ℤ◌, ltb_ℤ, eq_ℤ, ltb, ◌==◌,
  if◌then◌else◌,
}
use khel_arena.Domain.Errors.{Error, not_found, conflict, forbidden}
use khel_arena.Domain.Enums.{MatchmakingStatus, accepts_responses}
use khel_arena.Domain.Text.{Text}

abbrev pub max_needed_players : ℕ
max_needed_players = 15

pub record Call : Type 0 where
  pub id : ℕ
  pub author_id : ℕ
  pub booking_id : Option ℕ
  pub title : Text
  pub description : Text
  pub needed_players : ℤ
  pub filled_players : ℤ
  pub starts_at : ℕ
  pub status : MatchmakingStatus

pub record Response : Type 0 where
  pub call_id : ℕ
  pub user_id : ℕ
  pub message : Text
  pub accepted : Bool

abbrev pub is_open : MatchmakingStatus → Bool
is_open MatchmakingStatus.open_call = true
is_open _ = false

abbrev pub is_filled : MatchmakingStatus → Bool
is_filled MatchmakingStatus.filled = true
is_filled _ = false

abbrev pub is_called_off : MatchmakingStatus → Bool
is_called_off MatchmakingStatus.cancelled = true
is_called_off _ = false

abbrev pub is_over : MatchmakingStatus → Bool
is_over MatchmakingStatus.expired = true
is_over _ = false

unfoldable pub authored_by : Call → ℕ → Bool
authored_by c user = c.author_id == user

-- `max(0, needed - filled)`
unfoldable pub spots_remaining : Call → ℤ
unfolding ◌-ℤ◌
spots_remaining c =
    if ltb_ℤ (c.needed_players -ℤ c.filled_players) (pos 0)
    then pos 0
    else c.needed_players -ℤ c.filled_players

unfoldable pub is_attached_to_booking : Call → Bool
is_attached_to_booking c = elim c.booking_id [ none ↦ false | some b ↦ true ]

unfoldable pub can_be_joined_by : Call → ℕ → ℕ → Option Error
unfolding authored_by accepts_responses spots_remaining
can_be_joined_by c user now =
    if authored_by c user
    then some (conflict "You posted this game.")
    else if not (accepts_responses c.status)
    then some (
        if is_filled c.status
        then conflict "This game is already full."
        else if is_called_off c.status
        then conflict "This game was cancelled."
        else if is_over c.status
        then conflict "This game has already kicked off."
        else conflict "This game is no longer taking players.")
    else if not (ltb now c.starts_at)
    then some (conflict "This game has already kicked off.")
    else if eq_ℤ (spots_remaining c) (pos 0)
    then some (conflict "This game is already full.")
    else none

unfoldable pub can_accept_response : Call → ℕ → ℕ → Option Error
unfolding authored_by spots_remaining
can_accept_response c actor now =
    if not (authored_by c actor)
    then some (forbidden "Only the player who posted this game can accept people.")
    else if is_called_off c.status
    then some (conflict "This game was cancelled.")
    else if not (ltb now c.starts_at)
    then some (conflict "This game has already kicked off.")
    else if eq_ℤ (spots_remaining c) (pos 0)
    then some (conflict "Every spot in this game is taken.")
    else none

unfoldable pub can_be_managed_by : Call → ℕ → Option Error
unfolding authored_by
can_be_managed_by c actor =
    if not (authored_by c actor) then some (not_found "That game doesn't exist.") else none

unfoldable pub expired : Call → ℕ → Bool
expired c now = is_open c.status && not (ltb now c.starts_at)
