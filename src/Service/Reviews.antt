-- ===== src/Service/Reviews.antt =====
-- PostReview and DeleteReview of ReviewService (internal/service/review.go), with the check of a
-- review of internal/domain/arena.go.
pub mod Runs
use khel_arena.Prelude.{
  ℕ, Bool, not, Option, List, [], pos, leb_ℤ, leb, ◌==◌, ◌&&◌, if◌then◌else◌, length,
}
use khel_arena.Domain.Errors.{
  Error, Result, ok, err, ◌>>=◌, ◌>>◌, refuse, check, validation_err, unauthenticated, forbidden,
}
use khel_arena.Domain.Text.{Text, trim_space}
use khel_arena.Store.Tables.{BookingRow}
use khel_arena.Store.Venues.{CourtRow}
use khel_arena.Store.Reviews.{
  Review, Reviews, ReviewsTx, has_played_at, create_review, delete_review,
}
use khel_arena.Service.Bookings.{refuse_if}

-- The review as Validate leaves it.
unfoldable pub clean_review : Review → Review
unfolding trim_space
clean_review r = record r { comment = trim_space r.comment }

unfoldable pub validate_review : Review → Option Error
validate_review r =
    let v =
      check [] (leb_ℤ (pos 1) r.rating && leb_ℤ r.rating (pos 5)) "rating"
        "Rate the arena from 1 to 5 stars." in
    validation_err
      (check v (leb (length r.comment) 500) "comment" "Keep the review under 500 characters.")

-- The checks of PostReview, and the review that it stores: its author is the caller.
unfoldable pub postable : ℕ → Review → ℕ → List CourtRow → List BookingRow → Result Review
unfolding clean_review validate_review has_played_at
postable user r now courts bookings = do
  refuse_if (user == 0) (unauthenticated "Sign in to review an arena.")
  refuse (validate_review (clean_review (record r { user_id = user })))
  refuse_if (not (has_played_at r.arena_id user now courts bookings))
      (forbidden "You can review an arena once you've played there.")
  ok (clean_review (record r { user_id = user }))

abbrev pub then_store : Result Review → ℕ → ReviewsTx Review
then_store (ok r) id db = create_review id r db
then_store (err e) id db = (err e, db)

-- PostReview
unfoldable pub post_review : ℕ → ℕ → Review → ℕ → List CourtRow → List BookingRow → ReviewsTx Review
unfolding postable
post_review id user r now courts bookings = then_store (postable user r now courts bookings) id

-- DeleteReview
unfoldable pub remove_review : ℕ → ℕ → ReviewsTx (Unit {0})
remove_review id user db =
    if user == 0
    then (err (unauthenticated "Sign in to manage your reviews."), db)
    else delete_review id user db
