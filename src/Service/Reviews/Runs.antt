-- ===== src/Service/Reviews/Runs.antt =====
-- Reviews that are posted and deleted, one after the other.
use khel_arena.Prelude.{
  ℕ, ◌≡◌, refl, subst, true, false, not, List, arith, ◌==◌, any, All, if-intro, option-intro, find,
  All-filter,
}
use khel_arena.Domain.Errors.{Result, ok, err, refuse, >>=-eq-ok, ok-eq}
use khel_arena.Store.Tables.{BookingRow}
use khel_arena.Store.Venues.{CourtRow}
use khel_arena.Store.Reviews.{
  Review, Reviews, has_played_at, create_review, delete_review, sync_rating, is_own_review,
  passes_review, is_standing,
}
use khel_arena.Store.Reviews.Rated.{IsRated, create_review-IsRated, delete_review-IsRated}
use khel_arena.Service.Bookings.{refuse_if}
use khel_arena.Service.Reviews.{
  clean_review, validate_review, postable, then_store, post_review, remove_review,
}

-- `IsGuest arena user` says that the player has been to the arena, as some bookings at some time
-- showed.
module _ (IsGuest : ℕ → ℕ → Type 0) where
  abbrev pub IsByGuest : Review → Type 0
  IsByGuest r = IsGuest r.arena_id r.user_id

  -- A call of the service, whatever it answers, with the courts and bookings of its time.
  pub data ReviewStep (db : Reviews) : Reviews → Type 0 where
    reviews :
        (id user : ℕ) (r : Review) (now : ℕ) (courts : List CourtRow) (bookings : List BookingRow)
        → ((arena guest : ℕ)
            → has_played_at arena guest now courts bookings ≡ true
            → IsGuest arena guest)
        → any (λ x. id == x.id) db.reviews ≡ false
        → ReviewStep db (post_review id user r now courts bookings db).1
    takes_back : (id user : ℕ) → ReviewStep db (remove_review id user db).1

  pub data ReviewReach (db : Reviews) : Reviews → Type 0 where
    at_once : ReviewReach db db
    then_review :
        {mid after : Reviews} → ReviewReach db mid → ReviewStep mid after → ReviewReach db after

  -- Each arena's rating is that of its reviews, and each review is by somebody who has played there.
  pub record IsHonest (db : Reviews) : Type 0 where
    pub rated : IsRated db
    pub by_guests : All IsByGuest db.reviews

  abbrev IsHonestAfter : {A : Type 0} → Result A × Reviews → Type 0
  IsHonestAfter x = IsHonest x.1

  postable-guest :
      (user : ℕ) (r : Review) (now : ℕ) (courts : List CourtRow) (bookings : List BookingRow)
      {made : Review}
      → ((arena guest : ℕ)
          → has_played_at arena guest now courts bookings ≡ true
          → IsGuest arena guest)
      → postable user r now courts bookings ≡ ok made
      → IsByGuest made
  unfolding postable clean_review
  postable-guest user r now courts bookings known h =
      let review = clean_review (record r { user_id = user }) in
      let (_, _, h₁) = >>=-eq-ok (refuse_if (user == 0) _) _ h in
      let (_, _, h₂) = >>=-eq-ok (refuse (validate_review review)) _ h₁ in
      let (_, played, h₃) =
        >>=-eq-ok (refuse_if (not (has_played_at r.arena_id user now courts bookings)) _) _ h₂ in
      let here : has_played_at r.arena_id user now courts bookings ≡ true = ground arith in
      subst IsByGuest (ok-eq {a = review} h₃) (known r.arena_id user here)

  create_review-guests :
      (id : ℕ) (r : Review) (db : Reviews)
      → IsByGuest r
      → All IsByGuest db.reviews
      → All IsByGuest (create_review id r db).1.reviews
  unfolding create_review sync_rating
  create_review-guests id r db here guests =
      if-intro (λ (x : Result Review × Reviews). All IsByGuest x.1.reviews) (not (passes_review r))
        _ _ (λ h. guests)
        λ h.
          if-intro (λ (x : Result Review × Reviews). All IsByGuest x.1.reviews)
            (not (any (is_standing r.arena_id) db.arenas)) _ _ (λ k. guests) λ k. (here, guests)

  delete_review-guests :
      (id user : ℕ) (db : Reviews)
      → All IsByGuest db.reviews
      → All IsByGuest (delete_review id user db).1.reviews
  unfolding delete_review sync_rating
  delete_review-guests id user db guests =
      option-intro (λ (x : Result (Unit {0}) × Reviews). All IsByGuest x.1.reviews)
        (find (is_own_review id user) db.reviews) _ _ guests
        λ r found. All-filter IsByGuest (λ x. not (is_own_review id user x)) db.reviews guests

  then_store-IsHonest :
      (x : Result Review) (id : ℕ) (db : Reviews)
      → IsHonest db
      → any (λ y. id == y.id) db.reviews ≡ false
      → ((r : Review) → x ≡ ok r → IsByGuest r)
      → IsHonestAfter (then_store x id db)
  then_store-IsHonest (ok r) id db honest fresh guest = record {
    rated = create_review-IsRated db honest.rated id r fresh;
    by_guests = create_review-guests id r db (guest r refl) honest.by_guests;
  }
  then_store-IsHonest (err e) id db honest fresh guest = honest

  ReviewStep-IsHonest : {db after : Reviews} → ReviewStep db after → IsHonest db → IsHonest after
  unfolding post_review remove_review
  ReviewStep-IsHonest {db} (reviews id user r now courts bookings known fresh) honest =
      then_store-IsHonest (postable user r now courts bookings) id db honest fresh
        λ made e. postable-guest user r now courts bookings known e
  ReviewStep-IsHonest {db} (takes_back id user) honest =
      if-intro IsHonestAfter (user == 0) _ _ (λ h. honest)
        λ h. record {
          rated = delete_review-IsRated db honest.rated id user;
          by_guests = delete_review-guests id user db honest.by_guests;
        }

-- Whatever is reviewed and taken back, every arena shows the number of its reviews and their average,
-- rounded to a tenth, and every review is by a player of whom a read of the bookings showed, when it
-- was posted, that they had played there.
pub ReviewReach-IsHonest :
    {IsGuest : ℕ → ℕ → Type 0} {db after : Reviews}
    → IsHonest IsGuest db
    → ReviewReach IsGuest db after
    → IsHonest IsGuest after
ReviewReach-IsHonest honest (at_once) = honest
ReviewReach-IsHonest {IsGuest} honest (then_review run step) =
    ReviewStep-IsHonest IsGuest step (ReviewReach-IsHonest honest run)
