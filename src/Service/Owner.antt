-- ===== src/Service/Owner.antt =====
-- What OwnerService of internal/service/owner.go does to venues, courts and rate cards. `account` is
-- what the user repository finds for the caller: whether it is the account of an arena owner.
pub mod Confined
pub mod Desk
use khel_arena.Prelude.{ℕ, Bool, true, not, ◌==◌, if◌then◌else◌}
use khel_arena.Domain.Errors.{Result, ok, err, ◌>>=◌, ◌>>◌, refuse, unauthenticated, forbidden}
use khel_arena.Domain.Text.{Text}
use khel_arena.Domain.User.{is_blank}
use khel_arena.Domain.Slug.{slugify}
use khel_arena.Domain.Arena.{Arena, Court, clean_arena, validate_arena, clean_court, validate_court}
use khel_arena.Domain.Pricing.{PricingRule}
use khel_arena.Domain.Pricing
use khel_arena.Store.Venues.{CourtRow, Venues, VenuesTx}
use khel_arena.Store.Venues
use khel_arena.Service.Bookings.{refuse_if}

-- What a failed check leaves, and what follows where it passed.
abbrev pub then_write : {A B : Type 0} → Result A → (A → VenuesTx B) → VenuesTx B
then_write (ok a) write db = write a db
then_write (err e) write db = (err e, db)

abbrev pub signed_in : ℕ → Result (Unit {0})
signed_in owner = refuse_if (owner == 0) (unauthenticated "Sign in to manage an arena.")

unfoldable pub require_owner_account : ℕ → (ℕ → Result Bool) → Result (Unit {0})
require_owner_account user account = do
  signed_in user
  is_arena_owner ← account user
  refuse_if (not is_arena_owner)
      (forbidden "Arena owner accounts can list a venue. Yours is a player account.")

-- The arena that CreateArena stores: the owner is the caller.
unfoldable pub new_arena : ℕ → (ℕ → Result Bool) → Arena → Result Arena
unfolding require_owner_account
new_arena owner account a = do
  require_owner_account owner account
  refuse (validate_arena (clean_arena (record a { owner_id = owner; is_active = true })))
  ok (clean_arena (record a { owner_id = owner; is_active = true }))

-- CreateArena
unfoldable pub create_arena : ℕ → ℕ → (ℕ → Result Bool) → Arena → VenuesTx Arena
unfolding new_arena
create_arena id owner account a = then_write (new_arena owner account a) (Venues.create_arena id)

-- The slug is filled as creation would fill it, for Validate to check.
abbrev pub with_slug : ℕ → Arena → Arena
with_slug owner a = record a {
  owner_id = owner;
  slug = if is_blank a.slug then slugify a.name else a.slug;
}

unfoldable pub edited_arena : ℕ → Arena → Result Arena
edited_arena owner a = do
  signed_in owner
  refuse (validate_arena (clean_arena (with_slug owner a)))
  ok (clean_arena (with_slug owner a))

-- UpdateArena
unfoldable pub update_arena : ℕ → ℕ → Arena → VenuesTx (Unit {0})
unfolding edited_arena
update_arena id owner a = then_write (edited_arena owner a) (Venues.update_arena id owner)

-- SetArenaActive
unfoldable pub set_arena_active : ℕ → ℕ → Bool → VenuesTx (Unit {0})
set_arena_active id owner active =
    then_write (signed_in owner) (λ done. Venues.set_arena_active id owner active)

unfoldable pub valid_court : ℕ → Court → Result Court
valid_court owner c = do
  signed_in owner
  refuse (validate_court (clean_court c))
  ok (clean_court c)

-- CreateCourt
unfoldable pub create_court : ℕ → ℕ → Court → Text → VenuesTx CourtRow
unfolding valid_court
create_court id owner c format =
    then_write (valid_court owner c) (λ court. Venues.create_court id owner court format)

-- UpdateCourt
unfoldable pub update_court : ℕ → ℕ → Court → Text → VenuesTx (Unit {0})
unfolding valid_court
update_court id owner c format =
    then_write (valid_court owner c) (λ court. Venues.update_court id owner court format)

-- SetCourtActive
unfoldable pub set_court_active : ℕ → ℕ → Bool → VenuesTx (Unit {0})
set_court_active id owner active =
    then_write (signed_in owner) (λ done. Venues.set_court_active id owner active)

-- The checks of CreatePricingRule.
abbrev pub valid_rule : ℕ → PricingRule → Result (Unit {0})
valid_rule owner r = do signed_in owner; refuse (Pricing.validate r)

-- CreatePricingRule
unfoldable pub create_rule : ℕ → ℕ → PricingRule → VenuesTx PricingRule
create_rule id owner r = then_write (valid_rule owner r) (λ done. Venues.create_rule id owner r)

-- CopyPricingRules
unfoldable pub copy_rules : ℕ → ℕ → ℕ → (ℕ → ℕ) → VenuesTx ℕ
copy_rules source target owner draw =
    then_write (signed_in owner) (λ done. Venues.copy_rules source target owner draw)

-- DeletePricingRule
unfoldable pub delete_rule : ℕ → ℕ → VenuesTx (Unit {0})
delete_rule id owner = then_write (signed_in owner) (λ done. Venues.delete_rule id owner)
