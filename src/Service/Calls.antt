-- ===== src/Service/Calls.antt =====
-- MatchmakingService of internal/service/matchmaking.go: who may ask for a place in a game, give one,
-- and call the game off. Each call reads the post and then writes; `now` is the clock.
pub mod Places
pub mod Posting
use khel_arena.Prelude.{ℕ, Option, none, some, ◌==◌, if◌then◌else◌, find}
use khel_arena.Domain.Errors.{
  Error, Result, ok, err, ◌>>=◌, ◌>>◌, refuse, unauthenticated, not_found,
}
use khel_arena.Domain.Enums.{MatchmakingStatus}
use khel_arena.Domain.Text.{Text}
use khel_arena.Domain.Call.{Call, can_be_joined_by, can_accept_response, can_be_managed_by}
use khel_arena.Store.Calls.{Board, BoardTx, is_call}
use khel_arena.Store.Calls
use khel_arena.Service.Bookings.{refuse_if}

-- ByID of internal/postgres/matchmaking.go.
unfoldable pub call_by_id : Board → ℕ → Result Call
call_by_id board id = elim (find (is_call id) board.posts) [
  | none ↦ err (not_found "No call with that id.")
  | some c ↦ ok c
]

unfoldable pub load : ℕ → ℕ → Board → Result Call
unfolding call_by_id
load call actor board = do
  refuse_if (actor == 0) (unauthenticated "Sign in to join a game.")
  call_by_id board call

-- The write, where the checks passed.
abbrev pub then_write : Result (Unit {0}) → BoardTx → BoardTx
then_write (ok u) write board = write board
then_write (err e) write board = (err e, board)

-- The checks of Respond, Accept and Cancel.
unfoldable pub may_respond : ℕ → ℕ → ℕ → Board → Result (Unit {0})
unfolding load
may_respond call user now board = do c ← load call user board; refuse (can_be_joined_by c user now)

unfoldable pub may_accept : ℕ → ℕ → ℕ → Board → Result (Unit {0})
unfolding load
may_accept call actor now board = do
  c ← load call actor board
  refuse (can_accept_response c actor now)

unfoldable pub may_cancel : ℕ → ℕ → Board → Result (Unit {0})
unfolding load
may_cancel call actor board = do c ← load call actor board; refuse (can_be_managed_by c actor)

unfoldable pub respond : ℕ → ℕ → Text → ℕ → BoardTx
unfolding may_respond
respond call user message now board =
    then_write (may_respond call user now board) (Calls.respond call user message) board

unfoldable pub accept : ℕ → ℕ → ℕ → ℕ → BoardTx
unfolding may_accept
accept call actor user now board =
    then_write (may_accept call actor now board) (Calls.accept call user) board

unfoldable pub cancel : ℕ → ℕ → BoardTx
unfolding may_cancel
cancel call actor board =
    then_write (may_cancel call actor board) (Calls.set_status call MatchmakingStatus.cancelled)
      board

unfoldable pub withdraw : ℕ → ℕ → BoardTx
withdraw call user board =
    then_write (refuse_if (user == 0) (unauthenticated "Sign in to manage your games."))
      (Calls.withdraw call user) board
