-- ===== src/Store/Brackets.antt =====
-- TournamentRepo of internal/postgres/tournament.go, with the trigger of
-- migrations/0006_tournaments.sql that counts the teams of a bracket.
pub mod Count
pub mod Founding
use khel_arena.Prelude.{
  ℕ, Bool, true, false, ◌&&◌, ◌||◌, not, none, some, List, [], ◌∷◌, ℤ, pos, ◌+ℤ◌, ◌-ℤ◌, leb_ℤ,
  ltb_ℤ, ◌==◌, if◌then◌else◌, any, find, filter,
}
use khel_arena.Domain.Errors.{Result, ok, err, conflict, not_found, internal}
use khel_arena.Domain.Enums.{TournamentStatus}
use khel_arena.Domain.Text.{Text}
use khel_arena.Domain.Match.{Team}
use khel_arena.Domain.Tournament.{Tournament}
use khel_arena.Store.Tables.{update_where}

pub record TournamentRow : Type 0 where
  pub tournament : Tournament
  pub open tournament use *
  pub id : ℕ
  pub organizer_id : ℕ
  pub slug : Text

-- A row of `tournament_teams`.
pub record Entry : Type 0 where
  pub tournament_id : ℕ
  pub team_id : ℕ
  pub registered_by : ℕ
  pub paid : Bool

pub record Brackets : Type 0 where
  pub tournaments : List TournamentRow
  pub entries : List Entry
  pub teams : List Team

abbrev pub BracketsTx : Type 0 → Type 0
BracketsTx A = Brackets → Result A × Brackets

abbrev pub is_tournament : ℕ → TournamentRow → Bool
is_tournament id t = t.id == id

-- The primary key of an entry.
abbrev pub is_entry : ℕ → ℕ → Entry → Bool
is_entry tournament team e = e.tournament_id == tournament && e.team_id == team

abbrev pub has_team : List Team → ℕ → Bool
has_team teams id = any (λ t. t.id == id) teams

-- ByID
unfoldable pub tournament_by_id : Brackets → ℕ → Result TournamentRow
tournament_by_id db id = elim (find (is_tournament id) db.tournaments) [
  | none ↦ err (not_found "No tournament with that id.")
  | some t ↦ ok t
]

-- ByID of internal/postgres/team.go.
unfoldable pub team_by_id : Brackets → ℕ → Result Team
team_by_id db id = elim (find (λ t. t.id == id) db.teams) [
  | none ↦ err (not_found "No team with that id.")
  | some t ↦ ok t
]

abbrev pub is_filling : TournamentStatus → Bool
is_filling TournamentStatus.open_entry = true
is_filling TournamentStatus.full = true
is_filling _ = false

-- The status that the trigger writes with a count.
unfoldable pub occupancy : TournamentStatus → ℤ → ℤ → TournamentStatus
occupancy status count max_teams =
    if not (is_filling status)
    then status
    else if leb_ℤ max_teams count
    then TournamentStatus.full
    else TournamentStatus.open_entry

abbrev pub with_count : ℤ → TournamentRow → TournamentRow
with_count count t = record t {
  tournament = record t.tournament {
    team_count = count;
    status = occupancy t.status count t.max_teams;
  };
}

-- sync_tournament_team_count, for an entry that came and one that went.
unfoldable pub gain : TournamentRow → TournamentRow
unfolding occupancy ◌+ℤ◌
gain t = with_count (t.team_count +ℤ pos 1) t

unfoldable pub lose : TournamentRow → TournamentRow
unfolding occupancy ◌-ℤ◌
lose t = with_count (t.team_count -ℤ pos 1) t

-- The constraints on the count: `team_count >= 0` and within_capacity.
abbrev pub is_miscounted : TournamentRow → Bool
is_miscounted t = ltb_ℤ t.team_count (pos 0) || ltb_ℤ t.max_teams t.team_count

-- Register
unfoldable pub register : ℕ → ℕ → ℕ → BracketsTx (Unit {0})
unfolding gain
register tournament team actor db =
    if any (is_entry tournament team) db.entries
    then (err (conflict "That team is already entered."), db)
    else if not (any (is_tournament tournament) db.tournaments && has_team db.teams team)
    then (err internal, db)
    else if any is_miscounted (update_where (is_tournament tournament) gain db.tournaments)
    then (err (conflict "This tournament filled up while you were registering."), db)
    else (
      ok tt,
      record db {
        tournaments = update_where (is_tournament tournament) gain db.tournaments;
        entries =
            record {
              tournament_id = tournament;
              team_id = team;
              registered_by = actor;
              paid = false;
            }
            ∷ db.entries;
      },
    )

-- Withdraw
unfoldable pub withdraw : ℕ → ℕ → BracketsTx (Unit {0})
unfolding lose
withdraw tournament team db =
    if not (any (is_entry tournament team) db.entries)
    then (err (not_found "That team isn't entered."), db)
    else if any is_miscounted (update_where (is_tournament tournament) lose db.tournaments)
    then (err internal, db)
    else (
      ok tt,
      record db {
        tournaments = update_where (is_tournament tournament) lose db.tournaments;
        entries = filter (λ e. not (is_entry tournament team e)) db.entries;
      },
    )

-- SetEntryPaid
unfoldable pub set_entry_paid : ℕ → ℕ → Bool → BracketsTx (Unit {0})
set_entry_paid tournament team paid db =
    if not (any (is_entry tournament team) db.entries)
    then (err (not_found "That team isn't entered."), db)
    else (
      ok tt,
      record db {
        entries =
            update_where (is_entry tournament team) (λ e. record e { paid = paid }) db.entries;
      },
    )

abbrev pub with_status : TournamentStatus → TournamentRow → TournamentRow
with_status status t = record t { tournament = record t.tournament { status = status } }

-- SetStatus
unfoldable pub set_status : ℕ → TournamentStatus → BracketsTx (Unit {0})
set_status tournament status db =
    if not (any (is_tournament tournament) db.tournaments)
    then (err (not_found "No tournament with that id."), db)
    else (
      ok tt,
      record db {
        tournaments = update_where (is_tournament tournament) (with_status status) db.tournaments;
      },
    )
