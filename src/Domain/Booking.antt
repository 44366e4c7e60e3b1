-- ===== src/Domain/Booking.antt =====
-- internal/domain/booking.go: a reservation of one court for one slot, the rules on who may cancel
-- it, the hold that it starts as, and a player's standing. Identifiers are only compared, and 0
-- stands for the nil UUID.
use khel_arena.Prelude.{
  ℕ, Bool, true, false, ◌&&◌, not, Option, none, some, [], ℤ, pos, ltb, leb, leb_ℤ, ◌==◌,
  if◌then◌else◌, length,
}
use khel_arena.Domain.Errors.{
  Error, Result, ok, invalid, not_found, conflict, internal, refuse, ◌>>◌, check, validation_err,
}
use khel_arena.Domain.Enums.{
  BookingStatus, is_pending, is_cancelled, is_completed, is_live, can_cancel,
}
use khel_arena.Domain.Text.{Text, trim_space}
use khel_arena.Domain.Slot.Clock.{add}
use khel_arena.Domain.Slot.Interval.{Slot, is_past}
use khel_arena.Domain.Slot.Interval
use khel_arena.Domain.Pricing.{Price}

pub record Booking : Type 0 where
  pub id : ℕ
  pub court_id : ℕ
  pub user_id : ℕ
  pub team_id : Option ℕ
  pub slot : Slot
  pub price_npr : ℤ
  pub is_peak : Bool
  pub status : BookingStatus
  pub note : Text
  pub hold_expires_at : Option ℕ
  pub created_at : ℕ
  pub updated_at : ℕ

-- `t != nil && t.After(now)`
abbrev pub is_after : Option ℕ → ℕ → Bool
is_after none now = false
is_after (some t) now = ltb now t

-- `t != nil && !t.After(now)`
abbrev pub is_reached : Option ℕ → ℕ → Bool
is_reached none now = false
is_reached (some t) now = leb t now

unfoldable pub blocks_slot : Booking → ℕ → Bool
unfolding is_live
blocks_slot b now =
    if not (is_live b.status)
    then false
    else if is_pending b.status
    then is_after b.hold_expires_at now
    else true

unfoldable pub is_held_by : Booking → ℕ → Bool
is_held_by b user = b.user_id == user

unfoldable pub hold_expired : Booking → ℕ → Bool
hold_expired b now = is_pending b.status && is_reached b.hold_expires_at now

unfoldable pub can_be_cancelled_by : Booking → ℕ → ℕ → Option Error
unfolding is_held_by can_cancel
can_be_cancelled_by b user now =
    if not (is_held_by b user)
    then some (not_found "That booking doesn't exist.")
    else if not (can_cancel b.status)
    then some (
        if is_cancelled b.status
        then conflict "This booking is already cancelled."
        else if is_completed b.status
        then conflict "This game has already been played."
        else conflict "This booking can no longer be cancelled.")
    else if ltb b.slot.start now
    then some (conflict "This slot has already started.")
    else none

unfoldable pub can_be_opened_to_community : Booking → ℕ → ℕ → Option Error
unfolding is_held_by is_live is_past
can_be_opened_to_community b user now =
    if not (is_held_by b user)
    then some (not_found "That booking doesn't exist.")
    else if not (is_live b.status)
    then some (conflict "This booking is no longer active.")
    else if is_completed b.status
    then some (conflict "This game has already been played.")
    else if is_past b.slot now
    then some (conflict "This slot has already started.")
    else none

-- `NewHold`; the identifier and the two stamps are the zero values until the row is stored.
unfoldable pub new_hold : ℕ → ℕ → Slot → Price → Option ℕ → Text → ℕ → ℤ → Result Booking
unfolding is_past add
new_hold court user slot price team note now hold_window = do
  refuse (Interval.validate slot)
  refuse (if is_past slot now then some (invalid "slot" "That slot has already started.") else none)
  refuse (
      if ltb 280 (length note)
      then some (invalid "note" "Keep the note under 280 characters.")
      else none)
  refuse (if leb_ℤ hold_window (pos 0) then some internal else none)
  ok (record {
    id = 0;
    court_id = court;
    user_id = user;
    team_id = team;
    slot = slot;
    price_npr = price.total_npr;
    is_peak = price.is_peak;
    status = BookingStatus.pending;
    note = note;
    hold_expires_at = some (add now hold_window);
    created_at = 0;
    updated_at = 0;
  })

abbrev pub max_cancel_reason_length : ℕ
max_cancel_reason_length = 300

unfoldable pub cancel_reason : Text → Result Text
cancel_reason raw = do
  let reason = trim_space raw
  let long_enough = leb 3 (length reason)
  let v = check [] long_enough "reason" "Tell the venue why you're cancelling."
  let short_enough = leb (length reason) max_cancel_reason_length
  refuse (validation_err (check v short_enough "reason" "Keep the reason under %d characters."))
  ok reason

-- The user score rules.
abbrev pub user_score_start : ℕ
user_score_start = 100

abbrev pub late_cancel_window : ℕ
late_cancel_window = 18_000_000_000_000

abbrev pub late_cancel_penalty : ℕ
late_cancel_penalty = 20

abbrev pub booking_ban_floor : ℕ
booking_ban_floor = 10

abbrev pub user_score_after_ban : ℕ
user_score_after_ban = 50

pub record CancelOutcome : Type 0 where
  pub late : Bool
  pub user_score : ℕ
  pub booking_banned_until : Option ℕ

pub record BookingStanding : Type 0 where
  pub user_score : ℕ
  pub booking_banned_until : Option ℕ

unfoldable pub banned : BookingStanding → ℕ → Bool
banned s now = is_after s.booking_banned_until now
