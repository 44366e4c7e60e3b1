-- ===== src/Service/Calls/Posting/Runs.antt =====
-- The calls of MatchmakingService, one after the other, and the bookings that the posts are for.
use khel_arena.Prelude.{
  ℕ, ◌≡◌, refl, sym, ap, subst, ◌∙◌, All, inl, inr, some-eq, Bool-cases, Bool, true, false, not,
  Option, none, some, String, List, [], ◌∷◌, arith, ◌==◌, any, find, ltb,
}
use khel_arena.Domain.Errors.{Result, ok, err, refuse, >>=-eq-ok, ok-eq}
use khel_arena.Domain.Enums.{MatchmakingStatus, is_confirmed}
use khel_arena.Domain.Text.{Text}
use khel_arena.Domain.Booking.{Booking, is_held_by}
use khel_arena.Domain.Call.{Call, is_attached_to_booking, can_be_managed_by}
use khel_arena.Store.Tables.{Db}
use khel_arena.Store.Calls.{Board, BoardTx, is_call, update_call}
use khel_arena.Store.Calls.Posting.{create_call, delete_call}
use khel_arena.Service.Bookings.{refuse_if}
use khel_arena.Service.Calls as Answers
use khel_arena.Service.Calls.{load, may_respond, may_accept, may_cancel}
use khel_arena.Service.Calls.Places.{load-find}
use khel_arena.Service.Calls.Posting.{
  then_post, clean_call, wanted_booking, at_kickoff, creatable, create, as_posted, updatable,
  update, deletable, delete, validate_call,
}
use khel_arena.Service.Calls.Posting.Attached.{
  IsAtCourt, IsAttached, IsAttachedAfter, IsKnown, create_call-IsAttached, delete_call-IsAttached,
  respond-IsAttached, accept-IsAttached, withdraw-IsAttached, set_status-IsAttached,
  update_call-IsAttached,
}

find-All :
    (P : Call → Type 0) (p : Call → Bool) (xs : List Call) {x : Call}
    → All P xs
    → find p xs ≡ some x
    → P x
find-All P p [] h found = cc
find-All P p (y ∷ ys) h found = elim (Bool-cases (p y)) [
  | inl here ↦ subst P (some-eq (rw here at found)) h.0
  | inr elsewhere ↦ find-All P p ys h.1 (rw elsewhere at found)
]

as_posted-kickoff :
    (old input : Call) (b : ℕ)
    → old.booking_id ≡ some b
    → (as_posted old input).starts_at ≡ old.starts_at
unfolding is_attached_to_booking clean_call
as_posted-kickoff old input b h = ground arith

module _ (kickoff holder : ℕ → ℕ) where
  -- A call of the service, whatever it answers.
  pub data PostStep (board : Board) : Board → Type 0 where
    posts :
        (id author : ℕ) (c : Call) (skill : String) (now : ℕ) (db : Db)
        → IsKnown kickoff holder db
        → any (is_call id) board.posts ≡ false
        → PostStep board (create id author c skill now db board).1
    reposts :
        (call actor : ℕ) (input : Call) (skill : String)
        → PostStep board (update call actor input skill board).1
    deletes : (call actor : ℕ) → PostStep board (delete call actor board).1
    asks :
        (call user : ℕ) (message : Text) (now : ℕ)
        → PostStep board (Answers.respond call user message now board).1
    admits : (call actor user now : ℕ) → PostStep board (Answers.accept call actor user now board).1
    calls_off : (call actor : ℕ) → PostStep board (Answers.cancel call actor board).1
    bows_out : (call user : ℕ) → PostStep board (Answers.withdraw call user board).1

  pub data PostReach (board : Board) : Board → Type 0 where
    at_once : PostReach board board
    then_post_step :
        {mid after : Board} → PostReach board mid → PostStep mid after → PostReach board after

  then_post-IsAttached :
      (x : Result Call) (write : Call → BoardTx) (board : Board)
      → IsAttached kickoff holder board
      → ((c : Call) → x ≡ ok c → IsAttachedAfter kickoff holder (write c board))
      → IsAttachedAfter kickoff holder (then_post x write board)
  then_post-IsAttached (ok c) write board attached h = h c refl
  then_post-IsAttached (err e) write board attached h = attached

  then_write-IsAttached :
      (x : Result (Unit {0})) (write : BoardTx) (board : Board)
      → IsAttached kickoff holder board
      → IsAttachedAfter kickoff holder (write board)
      → IsAttachedAfter kickoff holder (Answers.then_write x write board)
  then_write-IsAttached (ok u) write board attached h = h
  then_write-IsAttached (err e) write board attached h = attached

  -- What Create stores is for a booking of the author's, at its kickoff.
  at_kickoff-IsAtCourt :
      (author : ℕ) (c : Call) (db : Db) (b : Booking)
      → IsKnown kickoff holder db
      → wanted_booking c.booking_id db ≡ ok b
      → is_held_by b author ≡ true
      → IsAtCourt kickoff holder (at_kickoff author b c)
  unfolding is_held_by clean_call wanted_booking
  at_kickoff-IsAtCourt author c db b known found held = go c.booking_id refl
    where
      go : (o : Option ℕ) → c.booking_id ≡ o → IsAtCourt kickoff holder (at_kickoff author b c)
      go none e =
          let bad : wanted_booking none db ≡ ok b =
            subst (λ o. wanted_booking o db ≡ ok b) e found in
          cc
      go (some k) e =
          let (start, who) = known k b (subst (λ o. wanted_booking o db ≡ ok b) e found) in
          let mine : b.user_id ≡ author = ground arith in (k, e, start, sym mine ∙ who)

  creatable-IsAtCourt :
      (author : ℕ) (c : Call) (skill : String) (now : ℕ) (db : Db) {made : Call}
      → IsKnown kickoff holder db
      → creatable author c skill now db ≡ ok made
      → IsAtCourt kickoff holder made
  unfolding creatable
  creatable-IsAtCourt author c skill now db known h =
      let (_, _, h₁) = >>=-eq-ok (refuse_if (author == 0) _) _ h in
      let (b, found, h₂) = >>=-eq-ok (wanted_booking c.booking_id db) _ h₁ in
      let (_, held, h₃) = >>=-eq-ok (refuse_if (not (is_held_by b author)) _) _ h₂ in
      let (_, _, h₄) = >>=-eq-ok (refuse_if (not (is_confirmed b.status)) _) _ h₃ in
      let (_, _, h₅) = >>=-eq-ok (refuse_if (not (ltb now b.slot.start)) _) _ h₄ in
      let (_, _, h₆) = >>=-eq-ok (refuse (validate_call (at_kickoff author b c) skill)) _ h₅ in
      subst (IsAtCourt kickoff holder) (ok-eq h₆)
        (at_kickoff-IsAtCourt author c db b known found (ground arith))

  -- An edit of a post that is for a booking keeps its kickoff.
  updatable-kickoff :
      (call actor : ℕ) (input : Call) (skill : String) (board : Board) {made : Call}
      → IsAttached kickoff holder board
      → updatable call actor input skill board ≡ ok made
      → (old : Call) × (find (is_call call) board.posts ≡ some old)
        × (made.starts_at ≡ old.starts_at)
  unfolding updatable
  updatable-kickoff call actor input skill board attached h =
      let (old, loaded, h₁) = >>=-eq-ok (load call actor board) _ h in
      let (_, _, h₂) = >>=-eq-ok (refuse (can_be_managed_by old actor)) _ h₁ in
      let (_, _, h₃) = >>=-eq-ok (refuse (validate_call (as_posted old input) skill)) _ h₂ in
      let found = load-find call actor board loaded in
      let (b, for_booking, _, _) : IsAtCourt kickoff holder old =
        find-All (IsAtCourt kickoff holder) (is_call call) board.posts attached.at_court found in
      (
        old,
        found,
        ap (λ x. x.starts_at) (sym (ok-eq h₃)) ∙ as_posted-kickoff old input b for_booking,
      )

  PostStep-IsAttached :
      {board after : Board}
      → PostStep board after
      → IsAttached kickoff holder board
      → IsAttached kickoff holder after
  unfolding create update delete Answers.respond Answers.accept Answers.cancel Answers.withdraw
  PostStep-IsAttached {board} (posts id author c skill now db known fresh) attached =
      then_post-IsAttached (creatable author c skill now db) (create_call id) board attached
        λ made e.
          create_call-IsAttached kickoff holder board attached id made fresh
            (creatable-IsAtCourt author c skill now db known e)
  PostStep-IsAttached {board} (reposts call actor input skill) attached =
      then_post-IsAttached (updatable call actor input skill board) (update_call call) board
        attached
        λ made e.
          let (old, found, same) = updatable-kickoff call actor input skill board attached e in
          update_call-IsAttached kickoff holder board attached call made found same
  PostStep-IsAttached {board} (deletes call actor) attached =
      then_post-IsAttached (deletable call actor board) (λ c. delete_call call) board attached
        λ c e. delete_call-IsAttached kickoff holder board attached call
  PostStep-IsAttached {board} (asks call user message now) attached =
      then_write-IsAttached (may_respond call user now board) _ board attached
        (respond-IsAttached kickoff holder board attached call user message)
  PostStep-IsAttached {board} (admits call actor user now) attached =
      then_write-IsAttached (may_accept call actor now board) _ board attached
        (accept-IsAttached kickoff holder board attached call user)
  PostStep-IsAttached {board} (calls_off call actor) attached =
      then_write-IsAttached (may_cancel call actor board) _ board attached
        (set_status-IsAttached kickoff holder board attached call MatchmakingStatus.cancelled)
  PostStep-IsAttached {board} (bows_out call user) attached =
      then_write-IsAttached (refuse_if (user == 0) _) _ board attached
        (withdraw-IsAttached kickoff holder board attached call user)

-- Whoever posts games, edits, answers, fills, leaves, closes and deletes them, in any order: every
-- post is for a booking, of the player who has that booking, at the hour at which it starts, and no
-- booking has two posts.
pub PostReach-IsAttached :
    {kickoff holder : ℕ → ℕ} {board after : Board}
    → IsAttached kickoff holder board
    → PostReach kickoff holder board after
    → IsAttached kickoff holder after
PostReach-IsAttached attached (at_once) = attached
PostReach-IsAttached {kickoff} {holder} attached (then_post_step run step) =
    PostStep-IsAttached kickoff holder step (PostReach-IsAttached attached run)
