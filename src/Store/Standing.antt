-- ===== src/Store/Standing.antt =====
-- A player's standing through Cancel and RestorePenaltyOwnerScoped of internal/postgres/booking.go.
use khel_arena.Prelude.{
  ℕ, ◌≤◌, ◌<◌, ◌≡◌, refl, ◌⊎◌, ◌∙◌, ap, Bool, true, none, some, arith, ◌==◌, find, find-some,
  if◌then◌else◌,
}
use khel_arena.Domain.Errors.{ok}
use khel_arena.Domain.Text.{Text}
use khel_arena.Domain.Booking.{
  BookingStanding, CancelOutcome, late_cancel_penalty, booking_ban_floor,
}
use khel_arena.Store.Tables.{BookingRow, UserRow, Db, update_where}
use khel_arena.Store.Updates.{find-update_where, in_tx-ok}
use khel_arena.Store.Bookings.{
  find_user, effective_user_score, active_booking_ban, booking_standing,
}
use khel_arena.Store.Cancellation.{
  charge, give_back, settle_score, is_late, is_target, cancelled_db, cancel_found, cancel_tx,
  cancel, outcome_of,
}

abbrev pub told : CancelOutcome → BookingStanding
told o = record { user_score = o.user_score; booking_banned_until = o.booking_banned_until }

-- The standing of a row at an instant, as BookingStanding reads it.
abbrev pub standing_of : UserRow → ℕ → BookingStanding
standing_of u now = record {
  user_score = effective_user_score u now;
  booking_banned_until = active_booking_ban u now;
}

booking_standing-known :
    (db : Db) (user now : ℕ) {u : UserRow}
    → find_user db.users user ≡ some u
    → booking_standing db user now ≡ ok (standing_of u now)
unfolding booking_standing
booking_standing-known db user now h = rw (booking_standing, h) refl

cancel_found-ok :
    (ban_end : ℕ → ℕ) (now : ℕ) (db : Db) (booking user : ℕ) (reason : Text) (r : BookingRow)
    {u : UserRow}
    → let db' = cancelled_db ban_end booking user reason now (is_late now r) db in
      find_user db'.users user ≡ some u
      → cancel_found ban_end booking user reason now r db
        ≡ (ok (outcome_of (is_late now r) now u), db')
unfolding cancel_found
cancel_found-ok ban_end now db booking user reason r h = rw (cancel_found, h) refl

outcome_of-late : (late : Bool) (now : ℕ) (u : UserRow) → (outcome_of late now u).late ≡ late
unfolding outcome_of
outcome_of-late late now u = refl

module _ (ban_end : ℕ → ℕ) (now : ℕ) (later : now < ban_end now) where
  charged-outcome :
      (late : Bool) (u : UserRow)
      → standing_of (settle_score ban_end now late u) now
        ≡ told (outcome_of late now (settle_score ban_end now late u))
  unfolding effective_user_score active_booking_ban outcome_of settle_score
  charged-outcome late u = ground arith

  standing-charged :
      (db : Db) (booking user : ℕ) (reason : Text) (late : Bool) {u : UserRow}
      → find_user db.users user ≡ some u
      → find_user (cancelled_db ban_end booking user reason now late db).users user
        ≡ some (settle_score ban_end now late u)
  unfolding find_user cancelled_db settle_score
  standing-charged db booking user reason late {u} known =
      let named : (u.id == user) ≡ true = (find-some (λ x. x.id == user) db.users known).0 in
      let after : find (λ (x : UserRow). x.id == user)
            (update_where (λ (x : UserRow). x.id == user) (settle_score ban_end now late) db.users)
          ≡ some (if u.id == user then settle_score ban_end now late u else u) =
        find-update_where (λ (x : UserRow). x.id == user) (settle_score ban_end now late)
          (λ x. x.id == user) (λ x. ground arith) db.users known in
      rw named at after

  -- A player who cancels a booking of theirs that Cancel finds is told whether the cancellation was
  -- late, which is if the booking was confirmed and starts within five hours; and the score and the
  -- ban that they are told are the ones that BookingStanding reads afterwards, if a ban lasts any
  -- time.
  pub cancel-booking_standing :
      (db : Db) (booking user : ℕ) (reason : Text) {r : BookingRow} {u : UserRow}
      → find (is_target db booking user) db.bookings ≡ some r
      → find_user db.users user ≡ some u
      → (o : CancelOutcome) × (db' : Db) × (cancel ban_end booking user reason now db ≡ (ok o, db'))
        × (o.late ≡ is_late now r)
        × (booking_standing db' user now ≡ ok (told o))
  unfolding cancel
  cancel-booking_standing db booking user reason {r} {u} found known =
      let late : Bool = is_late now r in
      let after = standing-charged db booking user reason late known in
      let db' : Db = cancelled_db ban_end booking user reason now late db in
      let o : CancelOutcome = outcome_of late now (settle_score ban_end now late u) in
      let answers : cancel_found ban_end booking user reason now r db ≡ (ok o, db') =
        cancel_found-ok ban_end now db booking user reason r after in
      let all : cancel_tx ban_end booking user reason now db ≡ (ok o, db') =
        rw (cancel_tx, found) answers in
      (
        o,
        db',
        in_tx-ok (cancel_tx ban_end booking user reason now) db all,
        outcome_of-late late now (settle_score ban_end now late u),
        booking_standing-known db' user now after ∙ ap ok (charged-outcome late u),
      )

-- Points that a late cancellation cost come back whole: a score from 20 to 100 that is charged, and
-- given back at any instant before the ban of the charge would end, is the score as it stood, without
-- a ban.
pub give_back-charge :
    (ban_end : ℕ → ℕ) (now at : ℕ) (u : UserRow)
    → at < ban_end now
    → late_cancel_penalty ≤ effective_user_score u now
    → effective_user_score u now ≤ 100
    → standing_of (give_back late_cancel_penalty at (charge ban_end now u)) at
      ≡ record { user_score = effective_user_score u now; booking_banned_until = none }
unfolding give_back charge active_booking_ban effective_user_score
give_back-charge ban_end now at u before enough full = ground arith

-- No charge takes a score above where it stood, and none that reaches the floor is without a ban;
-- giving points back never exceeds 100, and leaves no ban above the floor.
pub score_bounds :
    (ban_end : ℕ → ℕ) (now penalty : ℕ) (u : UserRow)
    → let c = charge ban_end now u in
      let g = give_back penalty now u in
      (c.user_score ≤ effective_user_score u now)
      × ((c.booking_banned_until ≡ some (ban_end now)) × (c.user_score ≤ booking_ban_floor)
          ⊎ (c.booking_banned_until ≡ none) × (booking_ban_floor < c.user_score))
      × (g.user_score ≤ 100)
      × ((g.booking_banned_until ≡ none) ⊎ (g.user_score ≤ booking_ban_floor))
unfolding give_back charge
score_bounds ban_end now penalty u = ground arith
