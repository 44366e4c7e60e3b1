-- ===== src/Tests/Clubs.antt =====
-- A game that looks for players, a result that two captains agree on, and the prizes of a tournament.
use khel_arena.Prelude.{
  ℕ, ◌≡◌, ◌≢◌, ◌≤ℤ◌, ◌+ℤ◌, ◌*ℤ◌, refl, arith, true, false, none, some, [], ◌∷◌, pos, negsuc, find,
  All,
}
use khel_arena.Domain.Errors.{ok}
use khel_arena.Domain.Enums.{MatchmakingStatus, TournamentStatus}
use khel_arena.Domain.Call.{Call, can_accept_response}
use khel_arena.Domain.Tournament.{
  Tournament, validate_prize_split, prize_for, can_accept_registration,
}
use khel_arena.Domain.Tournament.Prizes.Split.{IsInt32}
use khel_arena.Domain.Tournament.Prizes.{paid_out, paid_out-within_pool, prize_for-descends}
use khel_arena.Domain.Match.{Match, can_be_disputed_by}
use khel_arena.Store.Tables.{update_where}
use khel_arena.Store.Calls.{
  Board, is_call, is_waiting, admit, accept, admit_player, sync, gain, synced,
}
use khel_arena.Store.Calls.Tally.{IsTallied, at_once, then_step, take, BoardReach-IsTallied}
use khel_arena.Store.Calls.Accepting.{IsGained}
use khel_arena.Store.Matches.{League, match_by_id, confirm_match, agreed, recount}
use khel_arena.Service.Calls as Service
use khel_arena.Service.Calls.Places.{IsOffered, accept-IsOffered, offered_accept-IsGained}
use khel_arena.Service.Calls.Posting.{update}
use khel_arena.Service.Calls.Posting.Attached.{IsAttached}
use khel_arena.Service.Calls.Posting.Runs.{
  PostReach-IsAttached, then_post_step, at_once as at_first, reposts, admits,
}
use khel_arena.Service.Matches.{captained_team, captains, confirm_result, dispute, disputable}
use khel_arena.Service.Matches.Agreement.Confirming.{IsConfirmable, confirm_result-confirmed}
use khel_arena.Service.Matches.Agreement.{
  IsAgreement, confirm_result-agreed, confirm_result-ok, dispute-confirm_result,
}

-- Player 8 waits for the second of two places.
abbrev game : Call
game = record {
  id = 4;
  author_id = 5;
  booking_id = some 7;
  title = [];
  description = [];
  needed_players = pos 2;
  filled_players = pos 1;
  starts_at = 900;
  status = MatchmakingStatus.open_call;
}

abbrev board : Board
board = record {
  posts = game ∷ [];
  responses =
      record { call_id = 4; user_id = 8; message = []; accepted = false }
      ∷ record { call_id = 4; user_id = 9; message = []; accepted = true }
      ∷ [];
}

board-IsTallied : IsTallied board
board-IsTallied = record { counted = ((refl, ground arith), tt); keys = (refl, (refl, tt)) }

BoardReach-IsTallied_example : IsTallied (accept 4 8 board).1
BoardReach-IsTallied_example =
    BoardReach-IsTallied (then_step at_once (take {board = board} 4 8)) board-IsTallied

-- Booking 7 is of player 5, and starts at 900.
board-IsAttached : IsAttached (λ b. 900) (λ b. 5) board
board-IsAttached = record {
  post_ids = (refl, tt);
  one_each = (refl, tt);
  at_court = ((7, refl, refl, refl), tt);
}

PostReach-IsAttached_example :
    IsAttached (λ b. 900) (λ b. 5) (Service.accept 4 5 8 800 (update 4 5 game "casual" board).1).1
PostReach-IsAttached_example =
    PostReach-IsAttached board-IsAttached
      (then_post_step (then_post_step at_first (reposts 4 5 game "casual")) (admits 4 5 8 800))

-- Player 5 filed the result as the captain of team 21, and then handed the armband to player 6.
abbrev filed : Match
filed = record {
  id = 30;
  booking_id = some 7;
  home_team = 21;
  away_team = 22;
  home_score = pos 3;
  away_score = pos 1;
  played_at = 800;
  verified = false;
  reported_by = 5;
  created_at = 801;
}

abbrev league : League
league = record {
  matches = filed ∷ [];
  teams =
      record { id = 21; captain_id = 6; member_count = 9 }
      ∷ record { id = 22; captain_id = 8; member_count = 7 }
      ∷ [];
}

stored : match_by_id league 30 ≡ ok filed
unfolding match_by_id
stored = refl

successor : captained_team league 6 filed ≡ ok 21
unfolding captained_team captains
successor = refl

opponent : captained_team league 8 filed ≡ ok 22
unfolding captained_team captains
opponent = refl

-- The new captain of the side that filed it agrees to its own result.
confirm_result-ok_example :
    (n : Match) × (db' : League) × (confirm_result 30 6 league ≡ (ok n, db'))
    × (match_by_id db' 30 ≡ ok n)
    × IsAgreement filed n
    × ((later : ℕ) (k : Match) (after : League) → confirm_result 30 later db' ≢ (ok k, after))
confirm_result-ok_example =
    confirm_result-ok 30 6 21 league filed refl stored successor refl refl refl

confirmed : confirm_result 30 8 league ≡ (ok (agreed filed), confirm_match 30 league)
confirmed = confirm_result-confirmed 30 8 22 league filed refl stored opponent refl refl refl

confirm_result-agreed_example :
    (n : Match) × IsConfirmable league 30 8 n
    × (agreed filed ≡ agreed n)
    × (confirm_match 30 league ≡ confirm_match 30 league)
confirm_result-agreed_example = confirm_result-agreed 30 8 league confirmed

abbrev countered : Match
countered = record filed { home_score = pos 3; away_score = pos 3; reported_by = 8 }

disputed :
    dispute 30 8 (pos 3) (pos 3) league ≡ (ok countered, record league { matches = countered ∷ [] })
unfolding dispute disputable match_by_id captained_team captains can_be_disputed_by recount
disputed = refl

dispute-confirm_result_example :
    (countered.home_score ≡ pos 3)
    × (countered.away_score ≡ pos 3)
    × (countered.reported_by ≡ 8)
    × ((k : Match) (after : League)
        → confirm_result 30 8 (record league { matches = countered ∷ [] }) ≢ (ok k, after))
dispute-confirm_result_example = dispute-confirm_result 30 8 (pos 3) (pos 3) league disputed

-- The author gives player 8 the last place.
on_offer : IsOffered 4 5 100 board game
on_offer = (refl, refl, omega arith, refl, omega arith)

offered_accept-IsGained_example :
    (d : Call) × (board' : Board) × (Service.accept 4 5 8 100 board ≡ (ok tt, board'))
    × (board'.responses ≡ update_where (is_waiting 4 8) admit board.responses)
    × (find (is_call 4) board'.posts ≡ some d)
    × IsGained game d
offered_accept-IsGained_example =
    offered_accept-IsGained 4 5 8 100 board board-IsTallied (refl, tt) (omega arith) on_offer refl

given_place : Service.accept 4 5 8 100 board ≡ (ok tt, (accept 4 8 board).1)
unfolding Service.accept Service.may_accept accept admit_player sync gain synced ◌+ℤ◌
    can_accept_response
given_place = refl

accept-IsOffered_example : (c : Call) × IsOffered 4 5 100 board c
accept-IsOffered_example = accept-IsOffered 4 5 8 100 board given_place

-- A pool that its shares do not divide.
abbrev tournament : Tournament
tournament = record {
  max_teams = pos 8;
  team_count = pos 3;
  prize_pool_npr = pos 1005;
  prize_split = pos 50 ∷ pos 30 ∷ pos 20 ∷ [];
  register_by = 900;
  status = TournamentStatus.open_entry;
}

split_accepted : validate_prize_split tournament.prize_split ≡ none
unfolding validate_prize_split ◌+ℤ◌
split_accepted = refl

shares_fit : All IsInt32 tournament.prize_split
shares_fit =
    ((omega arith, omega arith), ((omega arith, omega arith), ((omega arith, omega arith), tt)))

second_prize : prize_for tournament (pos 2) ≡ pos 301
unfolding prize_for ◌*ℤ◌
second_prize = refl

all_prizes : paid_out tournament 3 ≡ pos 1004
unfolding prize_for ◌*ℤ◌ ◌+ℤ◌
all_prizes = refl

paid_out-within_pool_example :
    (pos 0 ≤ℤ paid_out tournament 3) × (paid_out tournament 3 ≤ℤ pos 1005)
paid_out-within_pool_example =
    paid_out-within_pool tournament 3 (omega arith, omega arith) shares_fit split_accepted
      (omega arith)

prize_for-descends_example : prize_for tournament (pos 2) ≤ℤ prize_for tournament (pos 1)
prize_for-descends_example =
    prize_for-descends tournament 0 (omega arith, omega arith) shares_fit split_accepted
      (omega arith)

-- A split whose sum wraps around is accepted, and its third place wins more than the pool.
abbrev wrapping : Tournament
wrapping = record tournament {
  prize_pool_npr = pos 100;
  prize_split = pos 9223372036854775807 ∷ pos 9223372036854775807 ∷ pos 102 ∷ [];
}

wrapping_accepted : validate_prize_split wrapping.prize_split ≡ none
unfolding validate_prize_split ◌+ℤ◌
wrapping_accepted = refl

wrapping_prizes : (prize_for wrapping (pos 1) ≡ negsuc 0) × (prize_for wrapping (pos 3) ≡ pos 102)
unfolding prize_for ◌*ℤ◌
wrapping_prizes = (refl, refl)

entry_open : can_accept_registration tournament 5 ≡ none
unfolding can_accept_registration
entry_open = refl
