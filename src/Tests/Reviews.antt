-- ===== src/Tests/Reviews.antt =====
-- A player who has played at a venue reviews it.
use khel_arena.Prelude.{ℕ, ◌≡◌, refl, ◌+◌, true, some, [], ◌∷◌, List, pos}
use khel_arena.Domain.Slot.Clock.{day}
use khel_arena.Store.Tables.{BookingRow}
use khel_arena.Store.Venues.{CourtRow}
use khel_arena.Store.Reviews.{Review, Reviews, has_played_at, average}
use khel_arena.Service.Reviews.{post_review, remove_review}
use khel_arena.Service.Reviews.Runs.{
  IsHonest, at_once, then_review, reviews, takes_back, ReviewReach-IsHonest,
}
use khel_arena.Tests.Data.{morning, row_of, confirmed}

abbrev pitch : CourtRow
pitch = record {
  court = record {
    id = 1;
    arena_id = 4;
    label = 65 ∷ [];
    sport = "futsal";
    surface = "artificial_turf";
    side_count = pos 5;
    base_price_npr = pos 1200;
    is_active = true;
  };
  format = [];
}

abbrev bookings : List BookingRow
bookings = row_of confirmed ∷ []

-- The day after the game.
abbrev next_day : ℕ
next_day = morning + day

abbrev praise : Review
praise = record { id = 0; arena_id = 4; user_id = 0; rating = pos 4; comment = [] }

abbrev earlier : Review
earlier = record { id = 30; arena_id = 4; user_id = 5; rating = pos 5; comment = [] }

abbrev shown : Reviews
shown = record {
  arenas = record { id = 4; rating = some 50; review_count = 1 } ∷ [];
  reviews = earlier ∷ [];
}

abbrev IsSeen : ℕ → ℕ → Type 0
IsSeen arena guest = has_played_at arena guest next_day (pitch ∷ []) bookings ≡ true

shown-IsHonest : IsHonest IsSeen shown
unfolding has_played_at average
shown-IsHonest = record {
  rated = record { review_ids = (refl, tt); fair = ((refl, refl), tt) };
  by_guests = (refl, tt);
}

ReviewReach-IsHonest_example :
    IsHonest IsSeen
      (remove_review 30 5 (post_review 31 5 praise next_day (pitch ∷ []) bookings shown).1).1
ReviewReach-IsHonest_example = ReviewReach-IsHonest shown-IsHonest (
    then_review
      (then_review at_once
        (reviews 31 5 praise next_day (pitch ∷ []) bookings (λ arena guest h. h) refl))
      (takes_back 30 5))
