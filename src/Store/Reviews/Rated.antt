-- ===== src/Store/Reviews/Rated.antt =====
-- The trigger keeps every arena's rating that of its reviews.
use khel_arena.Prelude.{
  ℕ, ◌≡◌, refl, sym, subst, ◌∙◌, inl, inr, Bool, true, false, not, some, List, [], ◌∷◌, arith, ◌==◌,
  any, find, filter, All, AllPairs, any-All, All-map, AllPairs-filter, Bool-cases, some-eq,
  if-intro, option-intro,
}
use mathlib.Core.Path.{ap₂}
use khel_arena.Domain.Errors.{Result}
use khel_arena.Store.Tables.{update_where}
use khel_arena.Store.Updates.{All-update_where_cases}
use khel_arena.Store.Reviews.{
  Review, Standing, Reviews, is_of, count_of, sum_of, average, is_standing, rated, sync_rating,
  passes_review, create_review, is_own_review, delete_review,
}

abbrev pub same_review : Review → Review → Bool
same_review r s = r.id == s.id

-- The standing of an arena is that of its reviews.
abbrev pub IsFair : List Review → Standing → Type 0
IsFair reviews a =
    (a.review_count ≡ count_of a.id reviews)
    × (a.rating ≡ average (sum_of a.id reviews) (count_of a.id reviews))

pub record IsRated (db : Reviews) : Type 0 where
  pub review_ids : AllPairs same_review db.reviews
  pub fair : All (IsFair db.reviews) db.arenas

abbrev pub IsRatedAfter : {A : Type 0} → Result A × Reviews → Type 0
IsRatedAfter x = IsRated x.1

-- With the reviews of one arena changed, its standing follows, and no other moves.
sync_rating-IsFair :
    (arena : ℕ) (old new : List Review) (arenas : List Standing)
    → ((k : ℕ) → (k == arena) ≡ false → count_of k new ≡ count_of k old)
    → ((k : ℕ) → (k == arena) ≡ false → sum_of k new ≡ sum_of k old)
    → All (IsFair old) arenas
    → All (IsFair new) (update_where (is_standing arena) (rated arena new) arenas)
unfolding rated
sync_rating-IsFair arena old new arenas same_count same_sum =
    All-update_where_cases (is_standing arena) (rated arena new)
      (λ a hit h.
        let e : a.id ≡ arena = ground arith in
        subst
          (λ k.
            (count_of arena new ≡ count_of k new)
            × (average (sum_of arena new) (count_of arena new)
                ≡ average (sum_of k new) (count_of k new)))
          (sym e) (refl, refl))
      (λ a miss h. (
        h.0 ∙ sym (same_count a.id miss),
        h.1 ∙ sym (ap₂ average (same_sum a.id miss) (same_count a.id miss)),
      ))
      arenas

find_own :
    (id user : ℕ) (reviews : List Review) {r : Review}
    → AllPairs same_review reviews
    → find (is_own_review id user) reviews ≡ some r
    → All (λ x. is_own_review id user x ≡ true → x ≡ r) reviews
find_own id user [] unique found = tt
find_own id user (x ∷ xs) {r} unique found = elim (Bool-cases (is_own_review id user x)) [
  | inl here ↦
      let e : x ≡ r = some-eq (rw here at found) in
      ((λ h. e), All-map (λ y apart h. ground arith) xs (any-All (same_review x) xs unique.0))
  | inr elsewhere ↦ ((λ h. cc), find_own id user xs unique.1 (rw elsewhere at found))
]

module _ (id user k : ℕ) (r : Review) (other : (k == r.arena_id) ≡ false) where
  count_of-others :
      (reviews : List Review)
      → All (λ x. is_own_review id user x ≡ true → x ≡ r) reviews
      → count_of k (filter (λ x. not (is_own_review id user x)) reviews) ≡ count_of k reviews
  count_of-others [] h = refl
  count_of-others (x ∷ xs) h =
      let rest = count_of-others xs h.1 in
      elim (Bool-cases (is_own_review id user x)) [
        | inl own ↦
            let e : x ≡ r = h.0 own in
            let gone : is_of k x ≡ false = rw e (ground arith) in rw (own, gone) rest
        | inr kept ↦ rw (kept, rest) refl
      ]

  sum_of-others :
      (reviews : List Review)
      → All (λ x. is_own_review id user x ≡ true → x ≡ r) reviews
      → sum_of k (filter (λ x. not (is_own_review id user x)) reviews) ≡ sum_of k reviews
  sum_of-others [] h = refl
  sum_of-others (x ∷ xs) h =
      let rest = sum_of-others xs h.1 in
      elim (Bool-cases (is_own_review id user x)) [
        | inl own ↦
            let e : x ≡ r = h.0 own in
            let gone : is_of k x ≡ false = rw e (ground arith) in rw (own, gone) rest
        | inr kept ↦ rw (kept, rest) refl
      ]

module _ (db : Reviews) (rated_db : IsRated db) where
  -- A review under an identifier that is not in use.
  pub create_review-IsRated :
      (id : ℕ) (r : Review)
      → any (λ x. id == x.id) db.reviews ≡ false
      → IsRated (create_review id r db).1
  unfolding create_review sync_rating
  create_review-IsRated id r fresh =
      if-intro IsRatedAfter (not (passes_review r)) _ _ (λ h. rated_db)
        λ fits.
          if-intro IsRatedAfter (not (any (is_standing r.arena_id) db.arenas)) _ _ (λ h. rated_db)
            λ known. record {
              review_ids = (fresh, rated_db.review_ids);
              fair =
                  sync_rating-IsFair r.arena_id db.reviews (record r { id = id } ∷ db.reviews)
                    db.arenas
                    (λ k other. let gone : is_of k r ≡ false = ground arith in rw gone refl)
                    (λ k other. let gone : is_of k r ≡ false = ground arith in rw gone refl)
                    rated_db.fair;
            }

  pub delete_review-IsRated : (id user : ℕ) → IsRated (delete_review id user db).1
  unfolding delete_review sync_rating
  delete_review-IsRated id user =
      option-intro IsRatedAfter (find (is_own_review id user) db.reviews) _ _ rated_db λ r found.
        let own = find_own id user db.reviews rated_db.review_ids found in
        record {
          review_ids =
              AllPairs-filter same_review (λ x. not (is_own_review id user x)) db.reviews
                rated_db.review_ids;
          fair =
              sync_rating-IsFair r.arena_id db.reviews _ db.arenas
                (λ k other. count_of-others id user k r other db.reviews own)
                (λ k other. sum_of-others id user k r other db.reviews own) rated_db.fair;
        }
