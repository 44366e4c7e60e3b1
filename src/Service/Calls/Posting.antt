-- ===== src/Service/Calls/Posting.antt =====
-- Create, Update and Delete of MatchmakingService: a game is posted for a court that its author has.
-- `skill` is the tier that the request names, which nothing but Validate reads.
pub mod Attached
pub mod Runs
use khel_arena.Prelude.{
  ℕ, Bool, not, Option, none, some, List, [], ◌∷◌, ◌&&◌, leb, ltb, leb_ℤ, pos, String, ◌==◌,
  if◌then◌else◌, length,
}
use text.Mathlib.Text.{◌==◌ as str_eq}
use khel_arena.Domain.Errors.{
  Error, Result, ok, err, ◌>>=◌, ◌>>◌, refuse, check, validation_err, unauthenticated, invalid,
  not_found, conflict,
}
use khel_arena.Domain.Enums.{is_confirmed}
use khel_arena.Domain.Text.{Text, trim_space}
use khel_arena.Domain.Arena.{validate_enum, note}
use khel_arena.Domain.Booking.{Booking, is_held_by}
use khel_arena.Domain.Call.{Call, max_needed_players, can_be_managed_by, is_attached_to_booking}
use khel_arena.Store.Tables.{Db}
use khel_arena.Store.Bookings.{by_id}
use khel_arena.Store.Calls.{Board, BoardTx, update_call}
use khel_arena.Store.Calls.Posting.{create_call, delete_call}
use khel_arena.Service.Bookings.{refuse_if}
use khel_arena.Service.Calls.{load}

-- The call as Validate leaves it.
unfoldable pub clean_call : Call → Call
unfolding trim_space
clean_call c = record c { title = trim_space c.title; description = trim_space c.description }

abbrev pub skill_tiers : List String
skill_tiers = "casual" ∷ "intermediate" ∷ "competitive" ∷ "semi_pro" ∷ []

unfoldable pub validate_call : Call → String → Option Error
unfolding validate_enum
validate_call c skill =
    let v = check [] (leb 3 (length c.title)) "title" "Give the game a title." in
    let v₁ = check v (leb (length c.title) 120) "title" "Keep the title under 120 characters." in
    let v₂ =
      check v₁ (leb (length c.description) 280) "description"
        "Keep the description under 280 characters." in
    let v₃ =
      check v₂ (leb_ℤ (pos 1) c.needed_players && leb_ℤ c.needed_players (pos max_needed_players))
        "needed_players" "Ask for between 1 and %d players." in
    let v₄ = check v₃ (not (c.starts_at == 0)) "starts_at" "When does the game kick off?" in
    validation_err
      (note v₄ (validate_enum "skill" (if str_eq skill "" then "casual" else skill) skill_tiers))

-- What follows where the checks passed.
abbrev pub then_post : Result Call → (Call → BoardTx) → BoardTx
then_post (ok c) write board = write c board
then_post (err e) write board = (err e, board)

-- The booking that a post is for.
unfoldable pub wanted_booking : Option ℕ → Db → Result Booking
unfolding by_id
wanted_booking none db = err (invalid "booking_id" "Pick one of your bookings to post a game for.")
wanted_booking (some b) db = by_id db b

-- The call that Create stores: the kickoff is the booking's.
abbrev pub at_kickoff : ℕ → Booking → Call → Call
at_kickoff author b c = clean_call (record c { author_id = author; starts_at = b.slot.start })

unfoldable pub creatable : ℕ → Call → String → ℕ → Db → Result Call
unfolding wanted_booking is_held_by validate_call
creatable author c skill now db = do
  refuse_if (author == 0) (unauthenticated "Sign in to post a game.")
  b ← wanted_booking c.booking_id db
  refuse_if (not (is_held_by b author)) (not_found "No booking with that reference.")
  refuse_if (not (is_confirmed b.status))
      (conflict "Only a confirmed booking can be opened up for a game.")
  refuse_if (not (ltb now b.slot.start)) (conflict "That booking has already started.")
  refuse (validate_call (at_kickoff author b c) skill)
  ok (at_kickoff author b c)

-- Create
unfoldable pub create : ℕ → ℕ → Call → String → ℕ → Db → BoardTx
unfolding creatable
create id author c skill now db = then_post (creatable author c skill now db) (create_call id)

-- The call that Update writes: a call for a booking keeps its kickoff.
abbrev pub as_posted : Call → Call → Call
as_posted old input = clean_call (record input {
  author_id = old.author_id;
  booking_id = old.booking_id;
  starts_at = if is_attached_to_booking old then old.starts_at else input.starts_at;
})

unfoldable pub updatable : ℕ → ℕ → Call → String → Board → Result Call
unfolding load can_be_managed_by is_attached_to_booking validate_call
updatable call actor input skill board = do
  old ← load call actor board
  refuse (can_be_managed_by old actor)
  refuse (validate_call (as_posted old input) skill)
  ok (as_posted old input)

-- Update
unfoldable pub update : ℕ → ℕ → Call → String → BoardTx
unfolding updatable
update call actor input skill board =
    then_post (updatable call actor input skill board) (update_call call) board

unfoldable pub deletable : ℕ → ℕ → Board → Result Call
unfolding load can_be_managed_by
deletable call actor board = do c ← load call actor board; refuse (can_be_managed_by c actor); ok c

-- Delete
unfoldable pub delete : ℕ → ℕ → BoardTx
unfolding deletable
delete call actor board = then_post (deletable call actor board) (λ c. delete_call call) board
