-- ===== src/Store/Sweeps.antt =====
-- The statements of the janitor: ReleaseStaleHolds and MarkPlayed of internal/postgres/booking.go,
-- ExpireStale of internal/postgres/matchmaking.go; and Confirm of booking.go.
use khel_arena.Prelude.{
  ℕ, Bool, false, ◌&&◌, not, none, some, List, leb, ◌==◌, if◌then◌else◌, any, filter, length, map,
}
use khel_arena.Domain.Errors.{ok, err, not_found, conflict}
use khel_arena.Domain.Enums.{
  BookingStatus, PaymentStatus, MatchmakingStatus, is_pending, is_confirmed, is_initiated,
}
use khel_arena.Domain.Call.{Call, is_open, is_called_off}
use khel_arena.Store.Tables.{BookingRow, Db, Tx, update_where}
use khel_arena.Store.Bookings.{with_status, is_stale, find_booking}

-- `id = any(ids)`
unfoldable pub is_one_of : List ℕ → ℕ → Bool
is_one_of ids id = any (λ x. x == id) ids

abbrev is_post_of_any : List ℕ → Call → Bool
is_post_of_any ids c = elim c.booking_id [ none ↦ false | some b ↦ is_one_of ids b ]

abbrev row_id : BookingRow → ℕ
row_id r = r.id

-- ReleaseStaleHolds: the holds released, with their intents failed and their posts closed.
unfoldable pub release_stale_holds : ℕ → Db → ℕ × Db
unfolding is_stale is_one_of
release_stale_holds now db =
    let ids : List ℕ = map row_id (filter (is_stale db.payments now) db.bookings) in
    (
      length ids,
      record {
        bookings =
            update_where (is_stale db.payments now) (with_status BookingStatus.cancelled)
              db.bookings;
        payments =
            update_where (λ p. is_one_of ids p.booking_id && is_initiated p.status)
              (λ p. record p { status = PaymentStatus.failed }) db.payments;
        posts =
            update_where (λ c. is_post_of_any ids c && not (is_called_off c.status))
              (λ c. record c { status = MatchmakingStatus.cancelled }) db.posts;
        users = db.users;
        courts = db.courts;
      },
    )

abbrev pub is_played : ℕ → BookingRow → Bool
is_played now r = is_confirmed r.status && leb r.slot.end now

abbrev pub complete : BookingRow → BookingRow
complete r = record r { booking = record r.booking { status = BookingStatus.completed } }

-- MarkPlayed
unfoldable pub mark_played : ℕ → Db → ℕ × Db
mark_played now db = (
  length (filter (is_played now) db.bookings),
  record db { bookings = update_where (is_played now) complete db.bookings },
)

abbrev is_kicked_off : ℕ → Call → Bool
is_kicked_off now c = is_open c.status && leb c.starts_at now

-- ExpireStale
unfoldable pub expire_stale : ℕ → Db → ℕ × Db
expire_stale now db = (
  length (filter (is_kicked_off now) db.posts),
  record db {
    posts =
        update_where (is_kicked_off now) (λ c. record c { status = MatchmakingStatus.expired })
          db.posts;
  },
)

-- A statement of one transaction cannot fail in the model, so a sweep is its three statements in a
-- row.
unfoldable pub sweep : ℕ → Db → Db
unfolding release_stale_holds mark_played expire_stale
sweep now db = (expire_stale now (mark_played now (release_stale_holds now db).1).1).1

abbrev pub is_hold_of : ℕ → BookingRow → Bool
is_hold_of booking r = r.id == booking && is_pending r.status

-- Confirm: a hold becomes a booking; one that is confirmed already is left as it is.
unfoldable pub confirm : ℕ → Tx (Unit {0})
unfolding find_booking
confirm booking db =
    if any (is_hold_of booking) db.bookings
    then (
      ok tt,
      record db {
        bookings =
            update_where (is_hold_of booking) (with_status BookingStatus.confirmed) db.bookings;
      },
    )
    else (
      elim (find_booking db.bookings booking) [
        | none ↦ err (not_found "That booking doesn't exist.")
        | some r ↦
            if is_confirmed r.status
            then ok tt
            else err (conflict "This booking was %s before the payment completed.")
      ],
      db,
    )
