-- ===== src/Store/Venues.antt =====
-- The owner-facing writes of internal/postgres/arena_admin.go, under the constraints of
-- migrations/0003_arenas.sql and 0009_court_format.sql. `id` is what gen_random_uuid() returns. A
-- sport is one of the database's, as Validate makes sure. Times and the review aggregate of an arena
-- are left out.
pub mod Owned
pub mod Confined
pub mod Orderly
use khel_arena.Prelude.{
  ℕ, Bool, true, false, ◌&&◌, ◌||◌, not, Option, none, some, List, [], ◌∷◌, ◌++◌, pos, leb_ℤ, ltb_ℤ,
  leb, ◌==◌, if◌then◌else◌, any, filter, map, length,
}
use khel_arena.Domain.Errors.{Result, ok, err, invalid, not_found, conflict, internal}
use khel_arena.Domain.Text.{Text, text_eq}
use khel_arena.Domain.User.{is_blank}
use khel_arena.Domain.Slug.{matches_slug}
use khel_arena.Domain.Slot.DayTime
use khel_arena.Domain.Arena.{Arena, Court, within_degrees}
use khel_arena.Domain.Pricing.{PricingRule}
use khel_arena.Store.Tables.{update_where}

-- A court with the name of its format, which is blank where the column is null.
pub record CourtRow : Type 0 where
  pub court : Court
  pub format : Text

pub record Venues : Type 0 where
  pub arenas : List Arena
  pub courts : List CourtRow
  pub rules : List PricingRule

abbrev pub VenuesTx : Type 0 → Type 0
VenuesTx A = Venues → Result A × Venues

-- `[0-9]{7,9}`
abbrev pub is_digit : ℕ → Bool
is_digit r = leb 48 r && leb r 57

abbrev pub is_subscriber : Text → Bool
is_subscriber s = leb 7 (length s) && leb (length s) 9 && not (any (λ r. not (is_digit r)) s)

abbrev after_first : ℕ → Text → Bool
after_first a [] = false
after_first a (b ∷ s) = (a == 57 && (b == 56 || b == 55) || a == 48 && b == 49) && is_subscriber s

-- `^(98|97|0?1)[0-9]{7,9}$`
unfoldable pub matches_phone : Text → Bool
matches_phone [] = false
matches_phone (a ∷ s) = a == 49 && is_subscriber s || after_first a s

-- The CHECK constraints of `arenas`; a blank phone is null.
unfoldable pub passes_arena : Arena → Bool
unfolding matches_slug matches_phone DayTime.before
passes_arena a =
    leb 2 (length a.name)
    && leb (length a.name) 80
    && matches_slug true a.slug
    && within_degrees 90 a.lat
    && within_degrees 180 a.lng
    && leb (length a.description) 2000
    && (is_blank a.phone || matches_phone a.phone)
    && DayTime.before a.opens_at a.closes_at

-- The CHECK constraints of `courts`; a blank format is null.
unfoldable pub passes_court : CourtRow → Bool
passes_court c =
    leb 1 (length c.court.label)
    && leb (length c.court.label) 40
    && leb_ℤ (pos 3) c.court.side_count
    && leb_ℤ c.court.side_count (pos 11)
    && ltb_ℤ (pos 0) c.court.base_price_npr
    && leb (length c.format) 40

-- The CHECK constraints of `pricing_rules`: the days are Go's, whose ISO numbers lie from 1 to 7.
unfoldable pub passes_rule : PricingRule → Bool
passes_rule r =
    leb 1 (length r.days)
    && leb (length r.days) 7
    && leb_ℤ (pos 0) r.start_hour
    && leb_ℤ r.start_hour (pos 23)
    && leb_ℤ (pos 1) r.end_hour
    && leb_ℤ r.end_hour (pos 24)
    && ltb_ℤ r.start_hour r.end_hour
    && ltb_ℤ (pos 0) r.price_npr

abbrev pub is_own_arena : ℕ → ℕ → Arena → Bool
is_own_arena id owner a = a.id == id && a.owner_id == owner

-- The court is at a venue of the owner.
abbrev pub at_venue_of : List Arena → ℕ → CourtRow → Bool
at_venue_of arenas owner c = any (is_own_arena c.court.arena_id owner) arenas

abbrev pub is_own_court : Venues → ℕ → ℕ → CourtRow → Bool
is_own_court db id owner c = c.court.id == id && at_venue_of db.arenas owner c

abbrev pub owns_court : Venues → ℕ → ℕ → Bool
owns_court db id owner = any (is_own_court db id owner) db.courts

abbrev pub no_arena : {A : Type 0} → Result A
no_arena = err (not_found "No arena of yours at that address.")

abbrev pub no_court : {A : Type 0} → Result A
no_court = err (not_found "No court of yours with that id.")

-- CreateArena
unfoldable pub create_arena : ℕ → Arena → VenuesTx Arena
unfolding passes_arena
create_arena id a db =
    if not (passes_arena a)
    then (err internal, db)
    else if any (λ b. text_eq b.slug a.slug) db.arenas
    then (err (conflict "An arena already uses that web address."), db)
    else (let new = record a { id = id; is_active = true } in
        (ok new, record db { arenas = new ∷ db.arenas }))

-- What an edit writes: not the owner, the slug or whether it is open.
abbrev pub edited : Arena → Arena → Arena
edited a old = record a {
  id = old.id;
  owner_id = old.owner_id;
  slug = old.slug;
  is_active = old.is_active;
}

-- UpdateArenaOwnerScoped
unfoldable pub update_arena : ℕ → ℕ → Arena → VenuesTx (Unit {0})
unfolding passes_arena
update_arena id owner a db =
    if not (any (is_own_arena id owner) db.arenas)
    then (no_arena, db)
    else if any (λ old. is_own_arena id owner old && not (passes_arena (edited a old))) db.arenas
    then (err internal, db)
    else (ok tt, record db { arenas = update_where (is_own_arena id owner) (edited a) db.arenas })

abbrev pub opened : Bool → Arena → Arena
opened active a = record a { is_active = active }

-- SetArenaActiveOwnerScoped
unfoldable pub set_arena_active : ℕ → ℕ → Bool → VenuesTx (Unit {0})
set_arena_active id owner active db =
    if not (any (is_own_arena id owner) db.arenas) then (no_arena, db) else (
      ok tt,
      record db { arenas = update_where (is_own_arena id owner) (opened active) db.arenas },
    )

-- The unique label within an arena, of a court other than the one that is written.
abbrev pub takes_label : ℕ → ℕ → Text → CourtRow → Bool
takes_label id arena label c =
    not (c.court.id == id) && c.court.arena_id == arena && text_eq c.court.label label

-- CreateCourtOwnerScoped
unfoldable pub create_court : ℕ → ℕ → Court → Text → VenuesTx CourtRow
unfolding passes_court
create_court id owner c format db =
    let new : CourtRow = record {
      court = record c { id = id; is_active = true };
      format = format;
    } in
    if not (any (is_own_arena c.arena_id owner) db.arenas)
    then (no_arena, db)
    else if not (passes_court new)
    then (err internal, db)
    else if any (takes_label id c.arena_id c.label) db.courts
    then (err (conflict "That arena already has a court called %q."), db)
    else (ok new, record db { courts = new ∷ db.courts })

-- What an edit of a court writes: not its arena, nor whether it is in use.
abbrev pub recourt : Court → Text → CourtRow → CourtRow
recourt c format old = record {
  court = record c {
    id = old.court.id;
    arena_id = old.court.arena_id;
    is_active = old.court.is_active;
  };
  format = format;
}

abbrev pub retakes_label : List CourtRow → Text → CourtRow → Bool
retakes_label courts label old = any (takes_label old.court.id old.court.arena_id label) courts

-- UpdateCourtOwnerScoped
unfoldable pub update_court : ℕ → ℕ → Court → Text → VenuesTx (Unit {0})
unfolding passes_court
update_court id owner c format db =
    if not (owns_court db id owner)
    then (no_court, db)
    else if any (λ old. is_own_court db id owner old && not (passes_court (recourt c format old)))
        db.courts
    then (err internal, db)
    else if any (λ old. is_own_court db id owner old && retakes_label db.courts c.label old)
        db.courts
    then (err (conflict "That arena already has a court called %q."), db)
    else (
      ok tt,
      record db { courts = update_where (is_own_court db id owner) (recourt c format) db.courts },
    )

abbrev pub retired : Bool → CourtRow → CourtRow
retired active c = record c { court = record c.court { is_active = active } }

-- SetCourtActiveOwnerScoped
unfoldable pub set_court_active : ℕ → ℕ → Bool → VenuesTx (Unit {0})
set_court_active id owner active db = if not (owns_court db id owner) then (no_court, db) else (
  ok tt,
  record db { courts = update_where (is_own_court db id owner) (retired active) db.courts },
)

-- CreatePricingRuleOwnerScoped
unfoldable pub create_rule : ℕ → ℕ → PricingRule → VenuesTx PricingRule
unfolding passes_rule
create_rule id owner r db =
    if not (owns_court db r.court_id owner)
    then (no_court, db)
    else if not (passes_rule r)
    then (err internal, db)
    else (ok (record r { id = id }), record db { rules = record r { id = id } ∷ db.rules })

abbrev pub is_rule_of : ℕ → PricingRule → Bool
is_rule_of court r = r.court_id == court

abbrev pub onto : ℕ → (ℕ → ℕ) → PricingRule → PricingRule
onto court draw r = record r { id = draw r.id; court_id = court }

-- CopyPricingRulesOwnerScoped: `draw` gives the identifier of each copy.
unfoldable pub copy_rules : ℕ → ℕ → ℕ → (ℕ → ℕ) → VenuesTx ℕ
copy_rules source target owner draw db =
    if source == target
    then (err (invalid "from_court_id" "That's the same court."), db)
    else if not (owns_court db source owner && owns_court db target owner)
    then (ok 0, db)
    else (let copies = map (onto target draw) (filter (is_rule_of source) db.rules) in
        (ok (length copies), record db { rules = copies ++ db.rules }))

abbrev pub is_own_rule : Venues → ℕ → ℕ → PricingRule → Bool
is_own_rule db id owner r = r.id == id && owns_court db r.court_id owner

-- DeletePricingRuleOwnerScoped
unfoldable pub delete_rule : ℕ → ℕ → VenuesTx (Unit {0})
delete_rule id owner db =
    if not (any (is_own_rule db id owner) db.rules)
    then (err (not_found "No pricing rule of yours with that id."), db)
    else (ok tt, record db { rules = filter (λ r. not (is_own_rule db id owner r)) db.rules })
