-- ===== src/Tests/Venues.antt =====
-- Owners at each other's venues, and names that become web addresses.
use khel_arena.Prelude.{ℕ, ◌≡◌, refl, ◌⊎◌, Bool, true, none, [], ◌∷◌, pos}
use khel_arena.Domain.Errors.{Result, ok}
use khel_arena.Domain.Text.{Text}
use khel_arena.Domain.Slug.{slugify, valid_slug}
use khel_arena.Domain.Slug.Shape.{slugify-valid}
use khel_arena.Domain.Slug.Fixed.{slugify-fixed}
use khel_arena.Domain.Arena.{Arena, kathmandu_city}
use khel_arena.Domain.Pricing.{PricingRule}
use khel_arena.Store.Venues.{CourtRow, Venues, passes_arena, passes_court, passes_rule}
use khel_arena.Store.Venues.Owned.{IsOrderly, IsKept}
use khel_arena.Service.Owner.{update_arena, delete_rule}
use khel_arena.Service.Owner.Confined.{
  untouched, then_else, at_once, then_call, edits, unprices, ElseReach-IsKept, VenueReach-IsOrderly,
}

-- " Dhuku  Futsal!"
abbrev name : Text
name = 32 ∷ 68 ∷ 104 ∷ 117 ∷ 107 ∷ 117 ∷ 32 ∷ 32 ∷ 70 ∷ 117 ∷ 116 ∷ 115 ∷ 97 ∷ 108 ∷ 33 ∷ []

-- "dhuku-futsal"
abbrev slug : Text
slug = 100 ∷ 104 ∷ 117 ∷ 107 ∷ 117 ∷ 45 ∷ 102 ∷ 117 ∷ 116 ∷ 115 ∷ 97 ∷ 108 ∷ []

made : slugify name ≡ slug
unfolding slugify
made = refl

slugify-valid_example : (slugify name ≡ []) ⊎ (valid_slug (slugify name) ≡ true)
slugify-valid_example = slugify-valid name

slug_valid : valid_slug slug ≡ true
unfolding valid_slug
slug_valid = refl

slugify-fixed_example : slugify slug ≡ slug
slugify-fixed_example = slugify-fixed slug slug_valid

abbrev dhuku : Arena
dhuku = record {
  id = 5;
  owner_id = 2;
  name = name;
  slug = slug;
  area = name;
  city = kathmandu_city;
  lat = none;
  lng = none;
  description = [];
  cover_url = [];
  amenities = [];
  phone = [];
  opens_at = record { hour = pos 6; minute = pos 0 };
  closes_at = record { hour = pos 22; minute = pos 0 };
  is_active = true;
}

abbrev court_a : CourtRow
court_a = record {
  court = record {
    id = 6;
    arena_id = 5;
    label = 65 ∷ [];
    sport = "futsal";
    surface = "artificial_turf";
    side_count = pos 5;
    base_price_npr = pos 1200;
    is_active = true;
  };
  format = [];
}

abbrev peak : PricingRule
peak = record {
  id = 7;
  court_id = 6;
  label = "Evening Peak";
  days = 5 ∷ [];
  start_hour = pos 17;
  end_hour = pos 21;
  price_npr = pos 1800;
  is_peak = true;
  priority = pos 1;
}

abbrev venues : Venues
venues = record { arenas = dhuku ∷ []; courts = court_a ∷ []; rules = peak ∷ [] }

venues-IsOrderly : IsOrderly venues
unfolding passes_arena passes_court passes_rule
venues-IsOrderly = record {
  arena_ids = (refl, tt);
  court_ids = (refl, tt);
  slugs = (refl, tt);
  arenas_fit = refl;
  courts_fit = refl;
  rules_fit = refl;
}

abbrev an_owner : ℕ → Result Bool
an_owner user = ok true

-- Owner 1 edits the venue of owner 2, and then deletes its rate.
abbrev intruded : Venues
intruded = (delete_rule 7 1 (update_arena 5 1 dhuku venues).1).1

ElseReach-IsKept_example : IsKept 2 venues intruded
ElseReach-IsKept_example =
    ElseReach-IsKept venues-IsOrderly
      (then_else 1 refl (then_else 1 refl untouched (edits 5 dhuku)) (unprices 7))

-- Owner 2 does.
abbrev tidied : Venues
tidied = (delete_rule 7 2 (update_arena 5 2 dhuku venues).1).1

VenueReach-IsOrderly_example : IsOrderly tidied
VenueReach-IsOrderly_example =
    VenueReach-IsOrderly venues-IsOrderly
      (then_call 2 (then_call 2 at_once (edits 5 dhuku)) (unprices 7))
