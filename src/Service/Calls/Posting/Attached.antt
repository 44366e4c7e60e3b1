-- ===== src/Service/Calls/Posting/Attached.antt =====
-- Posts and the bookings that they are for. A booking's slot and its player never change, so that what
-- any read of it finds is what two functions say.
use khel_arena.Prelude.{
  ℕ, ◌≡◌, refl, sym, ap, ◌∙◌, Bool, true, false, not, Option, none, some, List, [], ◌∷◌, inl, inr,
  arith, any, find, All, AllPairs, any-All, All-map, All-zip, All-filter, AllPairs-filter,
  Bool-cases, some-eq, if-intro, option-intro, leb, leb_ℤ, length,
}
use khel_arena.Domain.Errors.{Result, ok}
use khel_arena.Domain.Enums.{MatchmakingStatus}
use khel_arena.Domain.Text.{Text}
use khel_arena.Domain.Booking.{Booking}
use khel_arena.Domain.Call.{Call, is_open, Response}
use khel_arena.Store.Tables.{Db, update_where}
use khel_arena.Store.Updates.{AllPairs-update_where, All-update_where, All-update_where_cases}
use khel_arena.Store.Calls.{
  Board, BoardTx, is_call, is_response, is_waiting, is_miscounted, gain, lose, sync, edited,
  update_call, is_refused, passes_post_checks,
}
use khel_arena.Store.Calls
use khel_arena.Store.Calls.Accepting.{same_call}
use khel_arena.Store.Calls.Posting.{is_for, new_post, create_call, delete_call}
use khel_arena.Service.Calls.Posting.{wanted_booking}

-- With unique identifiers, the row that is found is the only one under its identifier.
found_only :
    (id : ℕ) (posts : List Call) {c : Call}
    → AllPairs same_call posts
    → find (is_call id) posts ≡ some c
    → All (λ x. is_call id x ≡ true → x ≡ c) posts
found_only id [] unique found = tt
found_only id (x ∷ xs) {c} unique found = elim (Bool-cases (is_call id x)) [
  | inl here ↦
      let e : x ≡ c = some-eq (rw here at found) in
      ((λ h. e), All-map (λ y apart h. ground arith) xs (any-All (same_call x) xs unique.0))
  | inr elsewhere ↦ ((λ h. cc), found_only id xs unique.1 (rw elsewhere at found))
]

is_for-same :
    (o : Option ℕ) (c d : Call)
    → d.booking_id ≡ c.booking_id
    → is_for o c ≡ false
    → is_for o d ≡ false
is_for-same none c d same h = refl
is_for-same (some b) c d same h = rw same h

module _ (kickoff holder : ℕ → ℕ) where
  -- The post is for a booking of its author's, at its kickoff.
  abbrev pub IsAtCourt : Call → Type 0
  IsAtCourt c =
      (b : ℕ) × (c.booking_id ≡ some b) × (c.starts_at ≡ kickoff b) × (c.author_id ≡ holder b)

  pub record IsAttached (board : Board) : Type 0 where
    pub post_ids : AllPairs same_call board.posts
    pub one_each : AllPairs (λ c d. is_for c.booking_id d) board.posts
    pub at_court : All IsAtCourt board.posts

  abbrev pub IsAttachedAfter : Result (Unit {0}) × Board → Type 0
  IsAttachedAfter x = IsAttached x.1

  -- Every booking is what the two functions say.
  abbrev pub IsKnown : Db → Type 0
  IsKnown db =
      (b : ℕ) (r : Booking)
      → wanted_booking (some b) db ≡ ok r
      → (r.slot.start ≡ kickoff b) × (r.user_id ≡ holder b)

  module _ (board : Board) (attached : IsAttached board) where
    -- A change that keeps which post it is, for what booking, by whom and when.
    posts-IsAttached :
        (p : Call → Bool) (f : Call → Call) (responses : List Response)
        → ((c : Call) → (f c).id ≡ c.id)
        → ((c : Call) → (f c).booking_id ≡ c.booking_id)
        → All IsAtCourt (update_where p f board.posts)
        → IsAttached (record { posts = update_where p f board.posts; responses = responses })
    posts-IsAttached p f responses same_id same_booking at_court = record {
      post_ids =
          AllPairs-update_where p f same_call (λ x y h e. rw (same_id x) e)
            (λ x y h e. rw (same_id y) e) board.posts attached.post_ids;
      one_each =
          AllPairs-update_where p f (λ c d. is_for c.booking_id d)
            (λ x y h e. rw (same_booking x) e)
            (λ x y h e. is_for-same x.booking_id y (f y) (same_booking y) e) board.posts
            attached.one_each;
      at_court = at_court;
    }

    pub create_call-IsAttached :
        (id : ℕ) (c : Call)
        → any (is_call id) board.posts ≡ false
        → IsAtCourt c
        → IsAttached (create_call id c board).1
    unfolding create_call
    create_call-IsAttached id c fresh here =
        if-intro IsAttachedAfter (not (passes_post_checks (new_post id c))) _ _ (λ h. attached)
          λ h.
            if-intro IsAttachedAfter (any (is_for c.booking_id) board.posts) _ _ (λ k. attached)
              λ new. record {
                post_ids = (fresh, attached.post_ids);
                one_each = (new, attached.one_each);
                at_court = (here, attached.at_court);
              }

    pub delete_call-IsAttached : (id : ℕ) → IsAttached (delete_call id board).1
    unfolding delete_call
    delete_call-IsAttached id =
        if-intro IsAttachedAfter (not (any (is_call id) board.posts)) _ _ (λ h. attached)
          λ h. record {
            post_ids =
                AllPairs-filter same_call (λ c. not (is_call id c)) board.posts attached.post_ids;
            one_each =
                AllPairs-filter (λ c d. is_for c.booking_id d) (λ c. not (is_call id c)) board.posts
                  attached.one_each;
            at_court = All-filter IsAtCourt (λ c. not (is_call id c)) board.posts attached.at_court;
          }

    -- What the trigger does to the post.
    sync-IsAttached :
        (call : ℕ) (move : Call → Call) (responses : List Response)
        → ((c : Call) → (move c).id ≡ c.id)
        → ((c : Call) → (move c).booking_id ≡ c.booking_id)
        → ((c : Call) → IsAtCourt c → IsAtCourt (move c))
        → IsAttached (sync call move responses board).1
    unfolding sync
    sync-IsAttached call move responses same_id same_booking stays =
        if-intro IsAttachedAfter (any is_miscounted (update_where (is_call call) move board.posts))
          _ _ (λ h. attached)
          λ h. posts-IsAttached (is_call call) move responses same_id same_booking (
            All-update_where (is_call call) move IsAtCourt (λ c hit. stays c) board.posts
              attached.at_court)

    responses-IsAttached :
        (responses : List Response) → IsAttached (record board { responses = responses })
    responses-IsAttached responses = record {
      post_ids = attached.post_ids;
      one_each = attached.one_each;
      at_court = attached.at_court;
    }

    pub respond-IsAttached :
        (call user : ℕ) (message : Text) → IsAttached (Calls.respond call user message board).1
    unfolding Calls.respond
    respond-IsAttached call user message =
        if-intro IsAttachedAfter (not (leb (length message) 200)) _ _ (λ h. attached)
          λ h.
            if-intro IsAttachedAfter (any (is_response call user) board.responses) _ _
              (λ k. attached)
              λ k.
                if-intro IsAttachedAfter (not (any (is_call call) board.posts)) _ _ (λ n. attached)
                  λ n. responses-IsAttached _

    pub accept-IsAttached : (call user : ℕ) → IsAttached (Calls.accept call user board).1
    unfolding Calls.accept Calls.admit_player gain
    accept-IsAttached call user =
        option-intro IsAttachedAfter (find (is_call call) board.posts) _ _ attached λ c found.
          if-intro IsAttachedAfter (not (is_open c.status)) _ _ (λ h. attached)
            λ h.
              if-intro IsAttachedAfter (leb_ℤ c.needed_players c.filled_players) _ _ (λ k. attached)
                λ k.
                  if-intro IsAttachedAfter (any (is_waiting call user) board.responses) _ _
                    (λ n. sync-IsAttached call gain _ (λ d. refl) (λ d. refl) (λ d here. here))
                    λ n. attached

    pub withdraw-IsAttached : (call user : ℕ) → IsAttached (Calls.withdraw call user board).1
    unfolding Calls.withdraw lose
    withdraw-IsAttached call user =
        option-intro IsAttachedAfter (find (is_response call user) board.responses) _ _ attached
          λ r found.
            if-intro IsAttachedAfter r.accepted _ _
              (λ h. sync-IsAttached call lose _ (λ d. refl) (λ d. refl) (λ d here. here))
              λ h. responses-IsAttached _

    pub set_status-IsAttached :
        (call : ℕ) (status : MatchmakingStatus) → IsAttached (Calls.set_status call status board).1
    unfolding Calls.set_status
    set_status-IsAttached call status =
        if-intro IsAttachedAfter (not (any (is_call call) board.posts)) _ _ (λ h. attached)
          λ h.
            posts-IsAttached (is_call call) (λ c. record c { status = status }) _ (λ c. refl)
              (λ c. refl)
              (All-update_where (is_call call) (λ c. record c { status = status }) IsAtCourt
                (λ c hit here. here) board.posts attached.at_court)

    -- An edit that gives the kickoff of the post.
    pub update_call-IsAttached :
        (call : ℕ) (input : Call) {old : Call}
        → find (is_call call) board.posts ≡ some old
        → input.starts_at ≡ old.starts_at
        → IsAttached (update_call call input board).1
    unfolding update_call
    update_call-IsAttached call input {old} found same =
        if-intro IsAttachedAfter (any (is_refused call input) board.posts) _ _ (λ h. attached)
          λ h.
            if-intro IsAttachedAfter (not (any (is_call call) board.posts)) _ _ (λ k. attached)
              λ k.
                posts-IsAttached (is_call call) (edited input) board.responses (λ c. refl)
                  (λ c. refl)
                  (All-update_where_cases (is_call call) (edited input) {Q = IsAtCourt}
                    (λ c hit (here, only).
                      let e : c ≡ old = only hit in
                      (here.0, here.1, same ∙ sym (ap (λ x. x.starts_at) e) ∙ here.2, here.3))
                    (λ c miss (here, only). here) board.posts
                    (All-zip IsAtCourt (λ x. is_call call x ≡ true → x ≡ old) board.posts
                      attached.at_court (found_only call board.posts attached.post_ids found)))
