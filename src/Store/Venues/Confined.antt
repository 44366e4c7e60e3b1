-- ===== src/Store/Venues/Confined.antt =====
-- Each owner-scoped write of internal/postgres/arena_admin.go, seen by another owner.
use khel_arena.Prelude.{
  ℕ, ◌≡◌, refl, ap, Bool, true, false, ◌&&◌, not, List, arith, ◌==◌, any, filter, if-intro,
}
use mathlib.Core.Path.{fun_ext}
use khel_arena.Domain.Errors.{Result}
use khel_arena.Domain.Text.{Text, text_eq}
use khel_arena.Domain.Arena.{Arena, Court}
use khel_arena.Domain.Pricing.{PricingRule}
use khel_arena.Store.Tables.{update_where}
use khel_arena.Store.Updates.{any-update_where_same}
use khel_arena.Store.Venues.{
  CourtRow, Venues, is_own_arena, at_venue_of, is_own_court, owns_court, create_arena, update_arena,
  set_arena_active, create_court, update_court, set_court_active, create_rule, copy_rules,
  delete_rule, passes_arena, passes_court, passes_rule, edited, opened, recourt, retired,
  takes_label, retakes_label, is_rule_of, onto, is_own_rule,
}
use khel_arena.Store.Venues.Owned.{
  IsOrderly, IsKept, filter-update_where, filter-filter_apart, filter-prepend, one_owner, one_venue,
  not_at_other,
}

pub kept : {other : ℕ} {db : Venues} → IsKept other db db
kept = record { arenas = refl; courts = refl; rules = refl }

abbrev pub IsKeptAfter : {A : Type 0} → ℕ → Venues → Result A × Venues → Type 0
IsKeptAfter other db x = IsKept other db x.1

module _ (other : ℕ) (db : Venues) where
  -- Other arenas, that are the same for the owner, and at which the owner has the same courts.
  arenas-IsKept :
      (arenas : List Arena)
      → filter (λ a. a.owner_id == other) arenas ≡ filter (λ a. a.owner_id == other) db.arenas
      → ((c : CourtRow) → at_venue_of arenas other c ≡ at_venue_of db.arenas other c)
      → IsKept other db (record db { arenas = arenas })
  arenas-IsKept arenas same at = record {
    arenas = same;
    courts = ap (λ test. filter test db.courts) (fun_ext at);
    rules =
        ap (λ test. filter (λ r. any (λ c. c.court.id == r.court_id && test c) db.courts) db.rules)
          (fun_ext at);
  }

  courts-IsKept :
      (courts : List CourtRow)
      → filter (at_venue_of db.arenas other) courts ≡ filter (at_venue_of db.arenas other) db.courts
      → ((id : ℕ)
          → any (is_own_court db id other) courts ≡ any (is_own_court db id other) db.courts)
      → IsKept other db (record db { courts = courts })
  courts-IsKept courts same at = record {
    arenas = refl;
    courts = same;
    rules = ap (λ test. filter (λ r. test r.court_id) db.rules) (fun_ext at);
  }

module _ (owner other : ℕ) (apart : (owner == other) ≡ false) (db : Venues) where
  pub create_arena-IsKept :
      (id : ℕ) (a : Arena) → a.owner_id ≡ owner → IsKept other db (create_arena id a db).1
  unfolding create_arena
  create_arena-IsKept id a mine =
      let theirs : (a.owner_id == other) ≡ false = rw mine apart in
      if-intro (IsKeptAfter other db) (not (passes_arena a)) _ _ (λ h. kept)
        λ h.
          if-intro (IsKeptAfter other db) (any (λ b. text_eq b.slug a.slug) db.arenas) _ _
            (λ k. kept) λ k. arenas-IsKept other db _ (rw theirs refl) (λ c. ground arith)

  -- A change of the owner's arenas that keeps what they are and whose.
  own_arenas-IsKept :
      (id : ℕ) (f : Arena → Arena)
      → ((a : Arena) → (f a).id ≡ a.id)
      → ((a : Arena) → (f a).owner_id ≡ a.owner_id)
      → IsKept other db (record db { arenas = update_where (is_own_arena id owner) f db.arenas })
  own_arenas-IsKept id f same_id same_owner =
      arenas-IsKept other db _
        (filter-update_where (is_own_arena id owner) f (λ a. a.owner_id == other)
          (λ a h. ground arith) (λ a h. rw (same_owner a) (ground arith)) db.arenas)
        λ c.
          any-update_where_same (is_own_arena id owner) f (is_own_arena c.court.arena_id other)
            (λ a h. rw (same_id a, same_owner a) refl) db.arenas

  pub update_arena-IsKept : (id : ℕ) (a : Arena) → IsKept other db (update_arena id owner a db).1
  unfolding update_arena
  update_arena-IsKept id a =
      if-intro (IsKeptAfter other db) (not (any (is_own_arena id owner) db.arenas)) _ _ (λ h. kept)
        λ h.
          if-intro (IsKeptAfter other db)
            (any (λ old. is_own_arena id owner old && not (passes_arena (edited a old))) db.arenas)
            _ _ (λ k. kept) λ k. own_arenas-IsKept id (edited a) (λ old. refl) λ old. refl

  pub set_arena_active-IsKept :
      (id : ℕ) (active : Bool) → IsKept other db (set_arena_active id owner active db).1
  unfolding set_arena_active
  set_arena_active-IsKept id active =
      if-intro (IsKeptAfter other db) (not (any (is_own_arena id owner) db.arenas)) _ _ (λ h. kept)
        λ h. own_arenas-IsKept id (opened active) (λ old. refl) λ old. refl

  module _ (orderly : IsOrderly db) where
    pub create_court-IsKept :
        (id : ℕ) (c : Court) (format : Text) → IsKept other db (create_court id owner c format db).1
    unfolding create_court
    create_court-IsKept id c format =
        let new : CourtRow = record {
          court = record c { id = id; is_active = true };
          format = format;
        } in
        if-intro (IsKeptAfter other db) (not (any (is_own_arena c.arena_id owner) db.arenas)) _ _
          (λ h. kept)
          λ h.
            if-intro (IsKeptAfter other db) (not (passes_court new)) _ _ (λ k. kept)
              λ k.
                if-intro (IsKeptAfter other db) (any (takes_label id c.arena_id c.label) db.courts)
                  _ _ (λ n. kept)
                  λ n.
                    let theirs : at_venue_of db.arenas other new ≡ false =
                      one_owner owner other apart c.arena_id db.arenas orderly.arena_ids
                        (ground arith) in
                    courts-IsKept other db _ (rw theirs refl) (λ k. ground arith)

    -- A change of one of the owner's courts that keeps which it is and where.
    own_courts-IsKept :
        (id : ℕ) (f : CourtRow → CourtRow)
        → ((c : CourtRow) → (f c).court.id ≡ c.court.id)
        → ((c : CourtRow) → (f c).court.arena_id ≡ c.court.arena_id)
        → IsKept other db
            (record db { courts = update_where (is_own_court db id owner) f db.courts })
    own_courts-IsKept id f same_id same_arena =
        courts-IsKept other db _
          (filter-update_where (is_own_court db id owner) f (at_venue_of db.arenas other)
            (λ c h. not_at_other owner other apart db orderly c (ground arith))
            (λ c h. rw (same_arena c) (not_at_other owner other apart db orderly c (ground arith)))
            db.courts)
          λ k.
            any-update_where_same (is_own_court db id owner) f (is_own_court db k other)
              (λ c h. rw (same_id c, same_arena c) refl) db.courts

    pub update_court-IsKept :
        (id : ℕ) (c : Court) (format : Text) → IsKept other db (update_court id owner c format db).1
    unfolding update_court
    update_court-IsKept id c format =
        if-intro (IsKeptAfter other db) (not (owns_court db id owner)) _ _ (λ h. kept)
          λ h.
            if-intro (IsKeptAfter other db)
              (any
                (λ old. is_own_court db id owner old && not (passes_court (recourt c format old)))
                db.courts)
              _ _ (λ k. kept)
              λ k.
                if-intro (IsKeptAfter other db)
                  (any (λ old. is_own_court db id owner old && retakes_label db.courts c.label old)
                    db.courts)
                  _ _ (λ n. kept)
                  λ n. own_courts-IsKept id (recourt c format) (λ old. refl) λ old. refl

    pub set_court_active-IsKept :
        (id : ℕ) (active : Bool) → IsKept other db (set_court_active id owner active db).1
    unfolding set_court_active
    set_court_active-IsKept id active =
        if-intro (IsKeptAfter other db) (not (owns_court db id owner)) _ _ (λ h. kept)
          λ h. own_courts-IsKept id (retired active) (λ old. refl) λ old. refl

    pub create_rule-IsKept :
        (id : ℕ) (r : PricingRule) → IsKept other db (create_rule id owner r db).1
    unfolding create_rule
    create_rule-IsKept id r =
        if-intro (IsKeptAfter other db) (not (owns_court db r.court_id owner)) _ _ (λ h. kept)
          λ h.
            if-intro (IsKeptAfter other db) (not (passes_rule r)) _ _ (λ k. kept)
              λ k.
                let theirs = one_venue owner other apart db orderly r.court_id (ground arith) in
                record { arenas = refl; courts = refl; rules = rw theirs refl }

    pub copy_rules-IsKept :
        (source target : ℕ) (draw : ℕ → ℕ)
        → IsKept other db (copy_rules source target owner draw db).1
    unfolding copy_rules
    copy_rules-IsKept source target draw =
        if-intro (IsKeptAfter other db) (source == target) _ _ (λ h. kept)
          λ h.
            if-intro (IsKeptAfter other db)
              (not (owns_court db source owner && owns_court db target owner)) _ _ (λ k. kept)
              λ k.
                let theirs = one_venue owner other apart db orderly target (ground arith) in
                record {
                  arenas = refl;
                  courts = refl;
                  rules =
                      filter-prepend (λ r. owns_court db r.court_id other) (onto target draw)
                        (filter (is_rule_of source) db.rules) db.rules (λ r. theirs);
                }

    pub delete_rule-IsKept : (id : ℕ) → IsKept other db (delete_rule id owner db).1
    unfolding delete_rule
    delete_rule-IsKept id =
        if-intro (IsKeptAfter other db) (not (any (is_own_rule db id owner) db.rules)) _ _
          (λ h. kept)
          λ h. record {
            arenas = refl;
            courts = refl;
            rules =
                filter-filter_apart (is_own_rule db id owner) (λ r. owns_court db r.court_id other)
                  (λ r k. one_venue owner other apart db orderly r.court_id (ground arith))
                  db.rules;
          }
