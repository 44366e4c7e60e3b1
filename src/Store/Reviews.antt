-- ===== src/Store/Reviews.antt =====
-- The reviews of ReviewRepo (internal/postgres/review.go), with the trigger of
-- migrations/0008_arena_reviews.sql that keeps an arena's rating. A rating is a number of tenths, and
-- `id` is what gen_random_uuid() returns.
pub mod Rated
use khel_arena.Prelude.{
  ℕ, suc, ◌+◌, ◌*◌, ◌/◌, Bool, ◌&&◌, ◌||◌, not, Option, none, some, List, [], ◌∷◌, ℤ, pos, pos_part,
  leb_ℤ, leb, ◌==◌, if◌then◌else◌, any, find, filter, length,
}
use khel_arena.Domain.Errors.{Result, ok, err, not_found, internal}
use khel_arena.Domain.Enums.{is_confirmed, is_completed}
use khel_arena.Domain.Text.{Text}
use khel_arena.Store.Tables.{BookingRow, update_where}
use khel_arena.Store.Venues.{CourtRow}

pub record Review : Type 0 where
  pub id : ℕ
  pub arena_id : ℕ
  pub user_id : ℕ
  pub rating : ℤ
  pub comment : Text

-- The columns of `arenas` that the trigger writes.
pub record Standing : Type 0 where
  pub id : ℕ
  pub rating : Option ℕ
  pub review_count : ℕ

pub record Reviews : Type 0 where
  pub arenas : List Standing
  pub reviews : List Review

abbrev pub ReviewsTx : Type 0 → Type 0
ReviewsTx A = Reviews → Result A × Reviews

abbrev pub is_court_of : ℕ → ℕ → CourtRow → Bool
is_court_of arena court c = c.court.id == court && c.court.arena_id == arena

-- The booking is of the player, at the arena, held to the end, and over.
abbrev pub is_visit : ℕ → ℕ → ℕ → List CourtRow → BookingRow → Bool
is_visit arena user now courts b =
    any (is_court_of arena b.court_id) courts
    && b.user_id == user
    && (is_confirmed b.status || is_completed b.status)
    && leb b.slot.end now

-- HasPlayedAt
unfoldable pub has_played_at : ℕ → ℕ → ℕ → List CourtRow → List BookingRow → Bool
has_played_at arena user now courts bookings = any (is_visit arena user now courts) bookings

abbrev pub is_of : ℕ → Review → Bool
is_of arena r = r.arena_id == arena

-- `count(*)` and `sum(rating)` over the reviews of an arena.
abbrev pub count_of : ℕ → List Review → ℕ
count_of arena [] = 0
count_of arena (r ∷ rs) = let rest = count_of arena rs in if is_of arena r then suc rest else rest

abbrev pub sum_of : ℕ → List Review → ℕ
sum_of arena [] = 0
sum_of arena (r ∷ rs) =
    let rest = sum_of arena rs in if is_of arena r then pos_part r.rating + rest else rest

-- `round(avg(rating)::numeric, 1)` in tenths, which rounds a half up; null without reviews.
unfoldable pub average : ℕ → ℕ → Option ℕ
average sum count = if count == 0 then none else some ((20 * sum + count) / (2 * count))

abbrev pub is_standing : ℕ → Standing → Bool
is_standing arena a = a.id == arena

unfoldable pub rated : ℕ → List Review → Standing → Standing
unfolding average
rated arena reviews a = record {
  id = a.id;
  rating = average (sum_of arena reviews) (count_of arena reviews);
  review_count = count_of arena reviews;
}

-- sync_arena_rating
unfoldable pub sync_rating : ℕ → Reviews → Reviews
unfolding rated
sync_rating arena db = record db {
  arenas = update_where (is_standing arena) (rated arena db.reviews) db.arenas;
}

-- The CHECK constraints of `arena_reviews`.
unfoldable pub passes_review : Review → Bool
passes_review r = leb_ℤ (pos 1) r.rating && leb_ℤ r.rating (pos 5) && leb (length r.comment) 500

-- CreateReview
unfoldable pub create_review : ℕ → Review → ReviewsTx Review
unfolding passes_review sync_rating
create_review id r db =
    if not (passes_review r)
    then (err internal, db)
    else if not (any (is_standing r.arena_id) db.arenas)
    then (err (not_found "No arena at that address."), db)
    else (let new = record r { id = id } in
        (ok new, sync_rating r.arena_id (record db { reviews = new ∷ db.reviews })))

abbrev pub is_own_review : ℕ → ℕ → Review → Bool
is_own_review id user r = r.id == id && r.user_id == user

-- DeleteReview
unfoldable pub delete_review : ℕ → ℕ → ReviewsTx (Unit {0})
unfolding sync_rating
delete_review id user db = elim (find (is_own_review id user) db.reviews) [
  | none ↦ (err (not_found "No review of yours with that id."), db)
  | some r ↦ (
    ok tt,
    sync_rating r.arena_id
        (record db { reviews = filter (λ x. not (is_own_review id user x)) db.reviews }),
  )
]
