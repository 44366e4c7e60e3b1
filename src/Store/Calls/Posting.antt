-- ===== src/Store/Calls/Posting.antt =====
-- Create and Delete of internal/postgres/matchmaking.go, up to the read of the post that Create
-- answers with. `id` is what gen_random_uuid() returns.
use khel_arena.Prelude.{
  ℕ, Bool, false, not, Option, none, some, ◌∷◌, pos, ◌==◌, if◌then◌else◌, any, filter,
}
use khel_arena.Domain.Errors.{ok, err, conflict, not_found, internal}
use khel_arena.Domain.Enums.{MatchmakingStatus}
use khel_arena.Domain.Call.{Call, Response}
use khel_arena.Store.Calls.{BoardTx, is_call, passes_post_checks}

-- The unique index of one post for a booking.
abbrev pub is_for : Option ℕ → Call → Bool
is_for none c = false
is_for (some b) c = elim c.booking_id [ none ↦ false | some x ↦ x == b ]

-- A post as it is inserted: open, without players.
abbrev pub new_post : ℕ → Call → Call
new_post id c = record c { id = id; filled_players = pos 0; status = MatchmakingStatus.open_call }

-- Create
unfoldable pub create_call : ℕ → Call → BoardTx
unfolding passes_post_checks
create_call id c board =
    if not (passes_post_checks (new_post id c))
    then (err internal, board)
    else if any (is_for c.booking_id) board.posts
    then (err (conflict "That booking is already open to join."), board)
    else (ok tt, record board { posts = new_post id c ∷ board.posts })

abbrev pub is_answer_to : ℕ → Response → Bool
is_answer_to call r = r.call_id == call

-- Delete: its responses go with it.
unfoldable pub delete_call : ℕ → BoardTx
delete_call id board =
    if not (any (is_call id) board.posts)
    then (err (not_found "No call with that id."), board)
    else (
      ok tt,
      record {
        posts = filter (λ c. not (is_call id c)) board.posts;
        responses = filter (λ r. not (is_answer_to id r)) board.responses;
      },
    )
