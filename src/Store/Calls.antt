-- ===== src/Store/Calls.antt =====
-- Respond, Accept and Withdraw of internal/postgres/matchmaking.go, with the trigger of
-- migrations/0007_matchmaking.sql that keeps the count of players on the post.
pub mod Tally
pub mod Accepting
pub mod Posting
use khel_arena.Prelude.{
  ℕ, Bool, true, false, ◌&&◌, ◌||◌, not, Option, none, some, List, [], ◌∷◌, ℤ, pos, ◌+ℤ◌, ◌-ℤ◌,
  leb_ℤ, ltb_ℤ, leb, length, ◌==◌, if◌then◌else◌, any, find, filter,
}
use khel_arena.Domain.Errors.{Error, Result, ok, err, conflict, not_found, internal}
use khel_arena.Domain.Enums.{MatchmakingStatus}
use khel_arena.Domain.Text.{Text}
use khel_arena.Domain.Call.{Call, Response, is_open, is_filled}
use khel_arena.Store.Tables.{update_where}

-- The two tables of the board.
pub record Board : Type 0 where
  pub posts : List Call
  pub responses : List Response

abbrev pub BoardTx : Type 0
BoardTx = Board → Result (Unit {0}) × Board

abbrev pub is_call : ℕ → Call → Bool
is_call id c = c.id == id

-- The primary key of a response.
abbrev pub is_response : ℕ → ℕ → Response → Bool
is_response call user r = r.call_id == call && r.user_id == user

-- The status that the trigger writes: full closes an open call, and room opens a full one.
unfoldable pub synced : Call → ℤ → MatchmakingStatus
synced c count =
    if not (is_open c.status || is_filled c.status)
    then c.status
    else if leb_ℤ c.needed_players count
    then MatchmakingStatus.filled
    else MatchmakingStatus.open_call

-- sync_matchmaking_filled for a response that was accepted, and for one that gave up its place.
unfoldable pub gain : Call → Call
unfolding synced ◌+ℤ◌
gain c =
    let count : ℤ = c.filled_players +ℤ pos 1 in
    record c { filled_players = count; status = synced c count }

unfoldable pub lose : Call → Call
unfolding synced ◌-ℤ◌
lose c =
    let count : ℤ = c.filled_players -ℤ pos 1 in
    record c { filled_players = count; status = synced c count }

-- The constraints on the count: `filled_players >= 0` and not_overfilled.
abbrev pub is_miscounted : Call → Bool
is_miscounted c = ltb_ℤ c.filled_players (pos 0) || ltb_ℤ c.needed_players c.filled_players

-- The trigger's update of the post, under the constraints, after the responses have changed.
unfoldable pub sync : ℕ → (Call → Call) → List Response → BoardTx
sync call move responses board =
    if any is_miscounted (update_where (is_call call) move board.posts)
    then (err internal, board)
    else (
      ok tt,
      record { posts = update_where (is_call call) move board.posts; responses = responses },
    )

-- Respond: asking takes no place. The post has to exist, and the message has 200 characters at most.
unfoldable pub respond : ℕ → ℕ → Text → BoardTx
respond call user message board =
    if not (leb (length message) 200)
    then (err internal, board)
    else if any (is_response call user) board.responses
    then (err (conflict "You've already asked to join this one."), board)
    else if not (any (is_call call) board.posts)
    then (err internal, board)
    else (
      ok tt,
      record board {
        responses =
            record { call_id = call; user_id = user; message = message; accepted = false }
            ∷ board.responses;
      },
    )

abbrev pub is_waiting : ℕ → ℕ → Response → Bool
is_waiting call user r = is_response call user r && not r.accepted

abbrev pub admit : Response → Response
admit r = record r { accepted = true }

-- Accept, once the post is known to be open and to have room; who never asked, or is in already, is
-- nothing to do.
unfoldable pub admit_player : ℕ → ℕ → BoardTx
admit_player call user board =
    if any (is_waiting call user) board.responses
    then sync call gain (update_where (is_waiting call user) admit board.responses) board
    else (ok tt, board)

unfoldable pub accept : ℕ → ℕ → BoardTx
accept call user board = elim (find (is_call call) board.posts) [
  | none ↦ (err (not_found "No call with that id."), board)
  | some c ↦
      if not (is_open c.status)
      then (err (conflict "This game is no longer taking players."), board)
      else if leb_ℤ c.needed_players c.filled_players
      then (err (conflict "This game is already full."), board)
      else admit_player call user board
]

abbrev pub is_kept : ℕ → ℕ → Response → Bool
is_kept call user r = not (is_response call user r)

-- Withdraw
unfoldable pub withdraw : ℕ → ℕ → BoardTx
withdraw call user board = elim (find (is_response call user) board.responses) [
  | none ↦ (err (not_found "You haven't asked to join this one."), board)
  | some r ↦
      if r.accepted
      then sync call lose (filter (is_kept call user) board.responses) board
      else (ok tt, record board { responses = filter (is_kept call user) board.responses })
]

-- SetStatus, by which an author calls a game off.
unfoldable pub set_status : ℕ → MatchmakingStatus → BoardTx
set_status call status board =
    if not (any (is_call call) board.posts)
    then (err (not_found "No call with that id."), board)
    else (
      ok tt,
      record board {
        posts = update_where (is_call call) (λ c. record c { status = status }) board.posts;
      },
    )

-- The CHECK constraints on an edited post.
unfoldable pub passes_post_checks : Call → Bool
passes_post_checks c =
    leb 3 (length c.title)
    && leb (length c.title) 120
    && leb (length c.description) 280
    && leb_ℤ (pos 1) c.needed_players
    && leb_ℤ c.needed_players (pos 15)
    && leb_ℤ c.filled_players c.needed_players

-- The columns that Update writes; the status is not one of them.
abbrev pub edited : Call → Call → Call
edited input c = record c {
  title = input.title;
  description = input.description;
  needed_players = input.needed_players;
  starts_at = input.starts_at;
}

abbrev pub is_refused : ℕ → Call → Call → Bool
is_refused call input c = is_call call c && not (passes_post_checks (edited input c))

-- Update, up to the read of the post that it answers with.
unfoldable pub update_call : ℕ → Call → BoardTx
update_call call input board =
    if any (is_refused call input) board.posts
    then (err (conflict "More players have joined than that."), board)
    else if not (any (is_call call) board.posts)
    then (err (not_found "No call with that id."), board)
    else (ok tt, record board { posts = update_where (is_call call) (edited input) board.posts })
