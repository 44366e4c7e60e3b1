-- ===== src/Tests/Brackets.antt =====
-- A team that enters a tournament and leaves it again.
use khel_arena.Prelude.{ℕ, ◌≡◌, refl, arith, false, [], ◌∷◌, pos, ◌+ℤ◌}
use khel_arena.Domain.Enums.{TournamentStatus}
use khel_arena.Domain.Tournament.{can_accept_registration}
use khel_arena.Store.Brackets.{
  TournamentRow, Entry, Brackets, tournament_by_id, team_by_id, gain, occupancy,
}
use khel_arena.Store.Brackets as Stored
use khel_arena.Store.Brackets.Count.{IsCounted}
use khel_arena.Service.Brackets.{register, withdraw, may_register}
use khel_arena.Service.Brackets.Runs.{at_once, then_step, enters, leaves, BracketReach-IsCounted}

-- Three of four places are taken.
abbrev cup : TournamentRow
cup = record {
  tournament = record {
    max_teams = pos 4;
    team_count = pos 3;
    prize_pool_npr = pos 1000;
    prize_split = pos 100 ∷ [];
    register_by = 900;
    status = TournamentStatus.open_entry;
  };
  id = 1;
  organizer_id = 9;
  slug = 99 ∷ 117 ∷ 112 ∷ [];
}

abbrev entry : ℕ → Entry
entry team = record { tournament_id = 1; team_id = team; registered_by = 5; paid = false }

abbrev brackets : Brackets
brackets = record {
  tournaments = cup ∷ [];
  entries = entry 21 ∷ entry 22 ∷ entry 23 ∷ [];
  teams = record { id = 24; captain_id = 6; member_count = 7 } ∷ [];
}

brackets-IsCounted : IsCounted brackets
brackets-IsCounted = record {
  exact = (refl, tt);
  fits = (omega arith, tt);
  keys = (refl, (refl, (refl, tt)));
}

abbrev entered : Brackets
entered = (register 1 24 6 100 brackets).1

BracketReach-IsCounted_example : IsCounted (withdraw 1 21 9 entered).1
BracketReach-IsCounted_example =
    BracketReach-IsCounted
      (then_step (then_step at_once (enters {db = brackets} 1 24 6 100))
        (leaves {db = entered} 1 21 9))
      brackets-IsCounted

-- The last place closes the tournament.
entered_tournaments :
    entered.tournaments
    ≡ record cup {
      tournament = record cup.tournament { team_count = pos 4; status = TournamentStatus.full };
    }
      ∷ []
unfolding register may_register team_by_id tournament_by_id can_accept_registration gain occupancy
    Stored.register ◌+ℤ◌
entered_tournaments = refl
