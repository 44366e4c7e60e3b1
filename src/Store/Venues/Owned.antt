-- ===== src/Store/Venues/Owned.antt =====
-- An owner's writes leave what other owners have as it was.
use khel_arena.Prelude.{
  ℕ, ◌≡◌, refl, Bool, true, false, ◌&&◌, not, List, [], ◌∷◌, ◌++◌, arith, ◌==◌, any, filter, map,
  AllPairs, any-weaken, Bool-cases, inl, inr,
}
use khel_arena.Domain.Text.{text_eq}
use khel_arena.Domain.Arena.{Arena}
use khel_arena.Domain.Pricing.{PricingRule}
use khel_arena.Store.Tables.{update_where}
use khel_arena.Store.Venues.{
  CourtRow, Venues, is_own_arena, at_venue_of, owns_court, passes_arena, passes_court, passes_rule,
}

-- The venues of an owner, the courts at them, and the rate cards of those courts.
abbrev pub arenas_of : ℕ → Venues → List Arena
arenas_of owner db = filter (λ a. a.owner_id == owner) db.arenas

abbrev pub courts_of : ℕ → Venues → List CourtRow
courts_of owner db = filter (at_venue_of db.arenas owner) db.courts

abbrev pub rules_of : ℕ → Venues → List PricingRule
rules_of owner db = filter (λ r. owns_court db r.court_id owner) db.rules

abbrev pub same_arena_id : Arena → Arena → Bool
same_arena_id a b = a.id == b.id

abbrev pub same_court_id : CourtRow → CourtRow → Bool
same_court_id c d = c.court.id == d.court.id

abbrev pub same_slug : Arena → Arena → Bool
same_slug a b = text_eq b.slug a.slug

abbrev pub is_misfit_arena : Arena → Bool
is_misfit_arena a = not (passes_arena a)

abbrev pub is_misfit_court : CourtRow → Bool
is_misfit_court c = not (passes_court c)

abbrev pub is_misfit_rule : PricingRule → Bool
is_misfit_rule r = not (passes_rule r)

-- Identifiers and web addresses are unique, and each row meets its constraints.
pub record IsOrderly (db : Venues) : Type 0 where
  pub arena_ids : AllPairs same_arena_id db.arenas
  pub court_ids : AllPairs same_court_id db.courts
  pub slugs : AllPairs same_slug db.arenas
  pub arenas_fit : any is_misfit_arena db.arenas ≡ false
  pub courts_fit : any is_misfit_court db.courts ≡ false
  pub rules_fit : any is_misfit_rule db.rules ≡ false

-- Everything of the owner is as it was.
pub record IsKept (owner : ℕ) (db after : Venues) : Type 0 where
  pub arenas : arenas_of owner after ≡ arenas_of owner db
  pub courts : courts_of owner after ≡ courts_of owner db
  pub rules : rules_of owner after ≡ rules_of owner db

module _ {A : Type 0} (p : A → Bool) (f : A → A) (q : A → Bool) where
  pub filter-update_where :
      ((x : A) → p x ≡ true → q x ≡ false)
      → ((x : A) → p x ≡ true → q (f x) ≡ false)
      → (xs : List A) → filter q (update_where p f xs) ≡ filter q xs
  filter-update_where before after [] = refl
  filter-update_where before after (x ∷ xs) =
      let rest = filter-update_where before after xs in
      elim (Bool-cases (p x)) [
        | inl hit ↦ rw (hit, before x hit, after x hit) rest
        | inr miss ↦ rw (miss, rest) refl
      ]

module _ {A : Type 0} (p q : A → Bool) where
  pub filter-filter_apart :
      ((x : A) → p x ≡ true → q x ≡ false)
      → (xs : List A) → filter q (filter (λ x. not (p x)) xs) ≡ filter q xs
  filter-filter_apart apart [] = refl
  filter-filter_apart apart (x ∷ xs) =
      let rest = filter-filter_apart apart xs in
      elim (Bool-cases (p x)) [
        | inl hit ↦ rw (hit, apart x hit) rest
        | inr miss ↦ rw (miss, rest) refl
      ]

pub filter-prepend :
    {A B : Type 0} (q : A → Bool) (f : B → A) (ys : List B) (xs : List A)
    → ((y : B) → q (f y) ≡ false)
    → filter q (map f ys ++ xs) ≡ filter q xs
filter-prepend q f [] xs apart = refl
filter-prepend q f (y ∷ ys) xs apart = rw (apart y) (filter-prepend q f ys xs apart)

-- Of rows with unique identifiers, the one under an identifier cannot meet two tests that exclude each
-- other.
module _ {A : Type 0} (key : A → ℕ) (p q : A → Bool) (apart : (x : A) → p x ≡ true → q x ≡ false)
    (k : ℕ) where
  one_answer :
      (xs : List A)
      → AllPairs (λ x y. key x == key y) xs
      → any (λ x. key x == k && p x) xs ≡ true
      → any (λ x. key x == k && q x) xs ≡ false
  one_answer [] unique h = refl
  one_answer (x ∷ xs) unique h = elim (Bool-cases (key x == k)) [
    | inl here ↦
        let none_else : any (λ y. key y == k && p y) xs ≡ false =
          any-weaken (λ y. key x == key y) (λ y. key y == k && p y) (λ y n. ground arith) xs
            unique.0 in
        let none_other : any (λ y. key y == k && q y) xs ≡ false =
          any-weaken (λ y. key x == key y) (λ y. key y == k && q y) (λ y n. ground arith) xs
            unique.0 in
        let mine : p x ≡ true = ground arith in
        let other : q x ≡ false = apart x mine in ground arith
    | inr elsewhere ↦ let rest = one_answer xs unique.1 (rw elsewhere at h) in rw elsewhere rest
  ]

module _ (owner other : ℕ) (apart : (owner == other) ≡ false) where
  -- A venue has one owner.
  pub one_owner :
      (id : ℕ) (arenas : List Arena)
      → AllPairs same_arena_id arenas
      → any (is_own_arena id owner) arenas ≡ true
      → any (is_own_arena id other) arenas ≡ false
  one_owner id arenas unique h =
      one_answer (λ a. a.id) (λ a. a.owner_id == owner) (λ a. a.owner_id == other)
        (λ a k. ground arith) id arenas unique h

  module _ (db : Venues) (orderly : IsOrderly db) where
    pub not_at_other :
        (c : CourtRow)
        → at_venue_of db.arenas owner c ≡ true
        → at_venue_of db.arenas other c ≡ false
    not_at_other c h = one_owner c.court.arena_id db.arenas orderly.arena_ids h

    -- So has a court.
    pub one_venue : (id : ℕ) → owns_court db id owner ≡ true → owns_court db id other ≡ false
    one_venue id h =
        one_answer (λ c. c.court.id) (at_venue_of db.arenas owner) (at_venue_of db.arenas other)
          not_at_other id db.courts orderly.court_ids h
