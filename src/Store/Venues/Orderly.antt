-- ===== src/Store/Venues/Orderly.antt =====
-- Each owner-scoped write of internal/postgres/arena_admin.go keeps the tables in order.
use khel_arena.Prelude.{
  ℕ, ◌≡◌, refl, Bool, true, false, ◌&&◌, ◌||◌, not, List, [], ◌∷◌, ◌++◌, arith, ◌==◌, any, filter,
  map, any-or, any-filter, if-intro,
}
use khel_arena.Domain.Errors.{Result}
use khel_arena.Domain.Text.{Text, text_eq}
use khel_arena.Domain.Arena.{Arena, Court}
use khel_arena.Domain.Pricing.{PricingRule}
use khel_arena.Store.Tables.{update_where}
use khel_arena.Store.Updates.{AllPairs-update_where, any-update_where, any-update_where_from}
use khel_arena.Store.Venues.{
  CourtRow, Venues, is_own_arena, is_own_court, owns_court, create_arena, update_arena,
  set_arena_active, create_court, update_court, set_court_active, create_rule, copy_rules,
  delete_rule, passes_arena, passes_court, passes_rule, edited, opened, recourt, retired,
  takes_label, retakes_label, is_rule_of, onto, is_own_rule,
}
use khel_arena.Store.Venues.Owned.{
  IsOrderly, same_arena_id, same_court_id, same_slug, is_misfit_arena, is_misfit_court,
  is_misfit_rule,
}

abbrev pub IsOrderlyAfter : {A : Type 0} → Result A × Venues → Type 0
IsOrderlyAfter x = IsOrderly x.1

-- An UPDATE whose result the constraints were asked about.
checked_update :
    {A : Type 0} (p : A → Bool) (f : A → A) (misfit : A → Bool) (xs : List A)
    → any (λ x. p x && misfit (f x)) xs ≡ false
    → any misfit xs ≡ false
    → any misfit (update_where p f xs) ≡ false
checked_update p f misfit xs checked fit =
    any-update_where_from p f (λ x. (p x && misfit (f x)) || misfit x) misfit
      (λ x hit h. ground arith) (λ x miss h. ground arith) xs
      (any-or (λ x. p x && misfit (f x)) misfit xs checked fit)

module _ (db : Venues) (orderly : IsOrderly db) where
  pub create_arena-IsOrderly :
      (id : ℕ) (a : Arena)
      → any (λ b. id == b.id) db.arenas ≡ false
      → IsOrderly (create_arena id a db).1
  unfolding create_arena passes_arena
  create_arena-IsOrderly id a fresh =
      if-intro IsOrderlyAfter (not (passes_arena a)) _ _ (λ h. orderly)
        λ fits.
          if-intro IsOrderlyAfter (any (λ b. text_eq b.slug a.slug) db.arenas) _ _ (λ h. orderly)
            λ new. record {
              arena_ids = (fresh, orderly.arena_ids);
              court_ids = orderly.court_ids;
              slugs = (new, orderly.slugs);
              arenas_fit = rw fits orderly.arenas_fit;
              courts_fit = orderly.courts_fit;
              rules_fit = orderly.rules_fit;
            }

  -- A change of arenas that keeps their identifiers and addresses, and that the constraints allow.
  arenas-IsOrderly :
      (p : Arena → Bool) (f : Arena → Arena)
      → ((a : Arena) → (f a).id ≡ a.id)
      → ((a : Arena) → (f a).slug ≡ a.slug)
      → any (λ a. p a && is_misfit_arena (f a)) db.arenas ≡ false
      → IsOrderly (record db { arenas = update_where p f db.arenas })
  arenas-IsOrderly p f same_id same_slugs checked = record {
    arena_ids =
        AllPairs-update_where p f same_arena_id (λ x y h e. rw (same_id x) e)
          (λ x y h e. rw (same_id y) e) db.arenas orderly.arena_ids;
    court_ids = orderly.court_ids;
    slugs =
        AllPairs-update_where p f same_slug (λ x y h e. rw (same_slugs x) e)
          (λ x y h e. rw (same_slugs y) e) db.arenas orderly.slugs;
    arenas_fit = checked_update p f is_misfit_arena db.arenas checked orderly.arenas_fit;
    courts_fit = orderly.courts_fit;
    rules_fit = orderly.rules_fit;
  }

  pub update_arena-IsOrderly : (id owner : ℕ) (a : Arena) → IsOrderly (update_arena id owner a db).1
  unfolding update_arena
  update_arena-IsOrderly id owner a =
      if-intro IsOrderlyAfter (not (any (is_own_arena id owner) db.arenas)) _ _ (λ h. orderly)
        λ h.
          if-intro IsOrderlyAfter
            (any (λ old. is_own_arena id owner old && not (passes_arena (edited a old))) db.arenas)
            _ _ (λ k. orderly)
            λ k. arenas-IsOrderly (is_own_arena id owner) (edited a) (λ old. refl) (λ old. refl) k

  pub set_arena_active-IsOrderly :
      (id owner : ℕ) (active : Bool) → IsOrderly (set_arena_active id owner active db).1
  unfolding set_arena_active passes_arena
  set_arena_active-IsOrderly id owner active =
      if-intro IsOrderlyAfter (not (any (is_own_arena id owner) db.arenas)) _ _ (λ h. orderly)
        λ h. record {
          arena_ids =
              AllPairs-update_where (is_own_arena id owner) (opened active) same_arena_id
                (λ x y h e. e) (λ x y h e. e) db.arenas orderly.arena_ids;
          court_ids = orderly.court_ids;
          slugs =
              AllPairs-update_where (is_own_arena id owner) (opened active) same_slug (λ x y h e. e)
                (λ x y h e. e) db.arenas orderly.slugs;
          arenas_fit =
              any-update_where (is_own_arena id owner) (opened active) is_misfit_arena (λ x h e. e)
                db.arenas orderly.arenas_fit;
          courts_fit = orderly.courts_fit;
          rules_fit = orderly.rules_fit;
        }

  pub create_court-IsOrderly :
      (id owner : ℕ) (c : Court) (format : Text)
      → any (λ d. id == d.court.id) db.courts ≡ false
      → IsOrderly (create_court id owner c format db).1
  unfolding create_court
  create_court-IsOrderly id owner c format fresh =
      let new : CourtRow = record {
        court = record c { id = id; is_active = true };
        format = format;
      } in
      if-intro IsOrderlyAfter (not (any (is_own_arena c.arena_id owner) db.arenas)) _ _
        (λ h. orderly)
        λ h.
          if-intro IsOrderlyAfter (not (passes_court new)) _ _ (λ k. orderly)
            λ fits.
              if-intro IsOrderlyAfter (any (takes_label id c.arena_id c.label) db.courts) _ _
                (λ n. orderly)
                λ n. record {
                  arena_ids = orderly.arena_ids;
                  court_ids = (fresh, orderly.court_ids);
                  slugs = orderly.slugs;
                  arenas_fit = orderly.arenas_fit;
                  courts_fit = rw fits orderly.courts_fit;
                  rules_fit = orderly.rules_fit;
                }

  courts-IsOrderly :
      (p : CourtRow → Bool) (f : CourtRow → CourtRow)
      → ((c : CourtRow) → (f c).court.id ≡ c.court.id)
      → any is_misfit_court (update_where p f db.courts) ≡ false
      → IsOrderly (record db { courts = update_where p f db.courts })
  courts-IsOrderly p f same_id fit = record {
    arena_ids = orderly.arena_ids;
    court_ids =
        AllPairs-update_where p f same_court_id (λ x y h e. rw (same_id x) e)
          (λ x y h e. rw (same_id y) e) db.courts orderly.court_ids;
    slugs = orderly.slugs;
    arenas_fit = orderly.arenas_fit;
    courts_fit = fit;
    rules_fit = orderly.rules_fit;
  }

  pub update_court-IsOrderly :
      (id owner : ℕ) (c : Court) (format : Text) → IsOrderly (update_court id owner c format db).1
  unfolding update_court
  update_court-IsOrderly id owner c format =
      let own = is_own_court db id owner in
      if-intro IsOrderlyAfter (not (owns_court db id owner)) _ _ (λ h. orderly)
        λ h.
          if-intro IsOrderlyAfter
            (any (λ old. own old && not (passes_court (recourt c format old))) db.courts) _ _
            (λ k. orderly)
            λ k.
              if-intro IsOrderlyAfter
                (any (λ old. own old && retakes_label db.courts c.label old) db.courts) _ _
                (λ n. orderly)
                λ n.
                  courts-IsOrderly own (recourt c format) (λ old. refl)
                    (checked_update own (recourt c format) is_misfit_court db.courts k
                      orderly.courts_fit)

  pub set_court_active-IsOrderly :
      (id owner : ℕ) (active : Bool) → IsOrderly (set_court_active id owner active db).1
  unfolding set_court_active passes_court
  set_court_active-IsOrderly id owner active =
      if-intro IsOrderlyAfter (not (owns_court db id owner)) _ _ (λ h. orderly)
        λ h.
          courts-IsOrderly (is_own_court db id owner) (retired active) (λ old. refl)
            (any-update_where (is_own_court db id owner) (retired active) is_misfit_court
              (λ x h e. e) db.courts orderly.courts_fit)

  rules-IsOrderly :
      (rules : List PricingRule)
      → any is_misfit_rule rules ≡ false
      → IsOrderly (record db { rules = rules })
  rules-IsOrderly rules fit = record {
    arena_ids = orderly.arena_ids;
    court_ids = orderly.court_ids;
    slugs = orderly.slugs;
    arenas_fit = orderly.arenas_fit;
    courts_fit = orderly.courts_fit;
    rules_fit = fit;
  }

  pub create_rule-IsOrderly :
      (id owner : ℕ) (r : PricingRule) → IsOrderly (create_rule id owner r db).1
  unfolding create_rule passes_rule
  create_rule-IsOrderly id owner r =
      if-intro IsOrderlyAfter (not (owns_court db r.court_id owner)) _ _ (λ h. orderly)
        λ h.
          if-intro IsOrderlyAfter (not (passes_rule r)) _ _ (λ k. orderly)
            λ fits. rules-IsOrderly _ (rw fits orderly.rules_fit)

  -- Copies of rules that meet the constraints meet them.
  copies_fit :
      (target : ℕ) (draw : ℕ → ℕ) (rules : List PricingRule)
      → any is_misfit_rule rules ≡ false
      → any is_misfit_rule (map (onto target draw) rules ++ db.rules) ≡ false
  unfolding passes_rule
  copies_fit target draw [] h = orderly.rules_fit
  copies_fit target draw (r ∷ rules) h =
      let rest = copies_fit target draw rules (ground arith) in
      let here : is_misfit_rule r ≡ false = ground arith in rw here rest

  pub copy_rules-IsOrderly :
      (source target owner : ℕ) (draw : ℕ → ℕ)
      → IsOrderly (copy_rules source target owner draw db).1
  unfolding copy_rules
  copy_rules-IsOrderly source target owner draw =
      if-intro IsOrderlyAfter (source == target) _ _ (λ h. orderly)
        λ h.
          if-intro IsOrderlyAfter (not (owns_court db source owner && owns_court db target owner)) _
            _ (λ k. orderly)
            λ k. rules-IsOrderly _ (
              copies_fit target draw (filter (is_rule_of source) db.rules)
                (any-filter is_misfit_rule (is_rule_of source) db.rules orderly.rules_fit))

  pub delete_rule-IsOrderly : (id owner : ℕ) → IsOrderly (delete_rule id owner db).1
  unfolding delete_rule
  delete_rule-IsOrderly id owner =
      if-intro IsOrderlyAfter (not (any (is_own_rule db id owner) db.rules)) _ _ (λ h. orderly)
        λ h. rules-IsOrderly _ (
          any-filter is_misfit_rule (λ r. not (is_own_rule db id owner r)) db.rules
            orderly.rules_fit)
