-- ===== src/Store/Cancellation.antt =====
-- Cancel, whyNotCancelled, RestorePenaltyOwnerScoped and whyNotRestored of
-- internal/postgres/booking.go: a player gives a booking up, and the venue may give back the points
-- that it cost.
use khel_arena.Prelude.{
  ℕ, ◌+◌, ◌-◌, Bool, false, ◌&&◌, ◌||◌, not, none, some, List, ltb, leb, min, ◌==◌, if◌then◌else◌,
  any, find,
}
use khel_arena.Domain.Errors.{Error, ok, err, not_found, conflict, internal}
use khel_arena.Domain.Enums.{
  BookingStatus, PaymentStatus, MatchmakingStatus, is_pending, is_confirmed, is_completed,
  is_cancelled, is_initiated,
}
use khel_arena.Domain.Text.{Text}
use khel_arena.Domain.Booking.{
  CancelOutcome, late_cancel_window, late_cancel_penalty, booking_ban_floor,
}
use khel_arena.Domain.Payment.{Payment, is_some}
use khel_arena.Domain.Call.{Call, is_called_off}
use khel_arena.Store.Tables.{
  BookingRow, UserRow, CourtRow, Db, Tx, in_tx, update_where, paid_online,
}
use khel_arena.Store.Bookings.{
  with_status, find_booking, find_user, effective_user_score, active_booking_ban,
}

-- The `target` of cancelSQL: the caller's own booking, still open, and not paid through a gateway.
unfoldable pub is_target : Db → ℕ → ℕ → BookingRow → Bool
unfolding paid_online
is_target db booking user r =
    r.id == booking
    && r.user_id == user
    && (is_pending r.status || is_confirmed r.status)
    && not (paid_online db.payments r.id)

-- Confirmed, and less than LateCancelWindow before its start.
unfoldable pub is_late : ℕ → BookingRow → Bool
is_late now r = is_confirmed r.status && ltb r.slot.start (now + late_cancel_window)

unfoldable pub penalty_for : ℕ → BookingRow → ℕ
unfolding is_late
penalty_for now r = if is_late now r then late_cancel_penalty else 0

unfoldable pub cancel_row : Text → ℕ → BookingRow → BookingRow
unfolding penalty_for
cancel_row reason now r = record {
  booking = (with_status BookingStatus.cancelled r).booking;
  cancel_reason = reason;
  cancelled_at = some now;
  cancel_penalty = penalty_for now r;
  penalty_restored_at = r.penalty_restored_at;
}

abbrev pub is_post_of : ℕ → Call → Bool
is_post_of booking c = elim c.booking_id [ none ↦ false | some b ↦ b == booking ]

-- `update matchmaking_posts set status = 'cancelled' where booking_id = ...`
unfoldable pub close_posts : ℕ → List Call → List Call
close_posts booking =
    update_where (λ c. is_post_of booking c && not (is_called_off c.status))
      (λ c. record c { status = MatchmakingStatus.cancelled })

-- `update payments set status = 'failed' where booking_id = ... and status = 'initiated'`
unfoldable pub fail_intents : ℕ → List Payment → List Payment
fail_intents booking =
    update_where (λ p. p.booking_id == booking && is_initiated p.status)
      (λ p. record p { status = PaymentStatus.failed })

-- `giveBackSQL`: the points go onto the score as it stands, up to 100; above the floor no ban stays.
unfoldable pub give_back : ℕ → ℕ → UserRow → UserRow
unfolding effective_user_score active_booking_ban
give_back penalty now u =
    let score : ℕ = min (effective_user_score u now + penalty) 100 in
    record u {
      user_score = score;
      booking_banned_until = if ltb booking_ban_floor score then none else active_booking_ban u now;
    }

unfoldable pub why_not_cancelled : Db → ℕ → ℕ → Error
unfolding find_booking paid_online
why_not_cancelled db booking user = elim (find_booking db.bookings booking) [
  | none ↦ not_found "That booking doesn't exist."
  | some r ↦
      if not (r.user_id == user)
      then not_found "That booking doesn't exist."
      else if is_cancelled r.status
      then conflict "This booking is already cancelled."
      else if is_completed r.status
      then conflict "This game has already been played."
      else if paid_online db.payments r.id
      then conflict
          "You paid for this online, so the venue has to refund you. Contact %s to cancel."
      else conflict "This booking can no longer be cancelled."
]

-- What the player is told: after a charge the row as it was written, otherwise the standing now.
unfoldable pub outcome_of : Bool → ℕ → UserRow → CancelOutcome
unfolding effective_user_score active_booking_ban
outcome_of late now u = record {
  late = late;
  user_score = if late then u.user_score else effective_user_score u now;
  booking_banned_until = if late then u.booking_banned_until else active_booking_ban u now;
}

module _ (ban_end : ℕ → ℕ) where
  -- `penaltySQL`: the score falls from where it stands, and reaching the floor starts a ban.
  unfoldable pub charge : ℕ → UserRow → UserRow
  unfolding effective_user_score
  charge now u =
      let score : ℕ = effective_user_score u now - late_cancel_penalty in
      record u {
        user_score = score;
        booking_banned_until = if leb score booking_ban_floor then some (ban_end now) else none;
      }

  -- The player's standing after the cancellation, charged if it was late.
  unfoldable pub settle_score : ℕ → Bool → UserRow → UserRow
  unfolding charge
  settle_score now late u = if late then charge now u else u

  -- The four statements of a cancellation that found its booking.
  unfoldable pub cancelled_db : ℕ → ℕ → Text → ℕ → Bool → Db → Db
  unfolding close_posts fail_intents settle_score
  cancelled_db booking user reason now late db = record {
    bookings = update_where (is_target db booking user) (cancel_row reason now) db.bookings;
    payments = fail_intents booking db.payments;
    posts = close_posts booking db.posts;
    users = update_where (λ u. u.id == user) (settle_score now late) db.users;
    courts = db.courts;
  }

  unfoldable pub cancel_found : ℕ → ℕ → Text → ℕ → BookingRow → Tx CancelOutcome
  cancel_found booking user reason now r db =
      let late : Bool = is_late now r in
      let db' : Db = cancelled_db booking user reason now late db in
      elim (find_user db'.users user) [
        | none ↦ (err internal, db')
        | some u ↦ (ok (outcome_of late now u), db')
      ]

  unfoldable pub cancel_tx : ℕ → ℕ → Text → ℕ → Tx CancelOutcome
  cancel_tx booking user reason now db = elim (find (is_target db booking user) db.bookings) [
    | none ↦ (err (why_not_cancelled db booking user), db)
    | some r ↦ cancel_found booking user reason now r db
  ]

  unfoldable pub cancel : ℕ → ℕ → Text → ℕ → Tx CancelOutcome
  unfolding cancel_tx
  cancel booking user reason now = in_tx (cancel_tx booking user reason now)

-- The venue of a booking is the caller's.
abbrev pub is_owned_by : ℕ → ℕ → CourtRow → Bool
is_owned_by court owner c = c.id == court && c.owner_id == owner

unfoldable pub owns : List CourtRow → ℕ → ℕ → Bool
owns courts court owner = any (is_owned_by court owner) courts

-- The WHERE of markSQL: cancelled at the caller's venue, charged, and not yet restored.
unfoldable pub is_restorable : Db → ℕ → ℕ → BookingRow → Bool
unfolding owns
is_restorable db booking owner r =
    r.id == booking
    && owns db.courts r.court_id owner
    && is_cancelled r.status
    && ltb 0 r.cancel_penalty
    && not (is_some r.penalty_restored_at)

unfoldable pub why_not_restored : Db → ℕ → ℕ → Error
unfolding find_booking owns
why_not_restored db booking owner = elim (find_booking db.bookings booking) [
  | none ↦ not_found "No cancellation at your venue with that id."
  | some r ↦
      if not (owns db.courts r.court_id owner)
      then not_found "No cancellation at your venue with that id."
      else if not (is_cancelled r.status)
      then conflict "That booking wasn't cancelled."
      else if r.cancel_penalty == 0
      then conflict "That cancellation didn't cost the player any points."
      else conflict "You've already given those points back."
]

-- RestorePenaltyOwnerScoped, up to the read of the row that it answers with.
unfoldable pub restore_penalty_tx : ℕ → ℕ → ℕ → Tx (Unit {0})
restore_penalty_tx booking owner now db = elim (find (is_restorable db booking owner) db.bookings) [
  | none ↦ (err (why_not_restored db booking owner), db)
  | some r ↦ (
    ok tt,
    record db {
      bookings =
          update_where (is_restorable db booking owner)
            (λ x. record x { penalty_restored_at = some now }) db.bookings;
      users = update_where (λ u. u.id == r.user_id) (give_back r.cancel_penalty now) db.users;
    },
  )
]

unfoldable pub restore_penalty : ℕ → ℕ → ℕ → Tx (Unit {0})
unfolding restore_penalty_tx
restore_penalty booking owner now = in_tx (restore_penalty_tx booking owner now)
