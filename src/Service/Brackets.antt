-- ===== src/Service/Brackets.antt =====
-- TournamentService of internal/service/tournament.go: who runs a tournament, enters a team, takes it
-- out, records its fee and moves the tournament on. Each call reads and then writes; `now` is the
-- clock.
pub mod Runs
use khel_arena.Prelude.{
  ℕ, Bool, true, false, not, ◌||◌, ◌==◌, if◌then◌else◌, Option, none, some, String,
}
use khel_arena.Domain.Errors.{
  Error, Result, ok, err, ◌>>=◌, ◌>>◌, refuse, unauthenticated, forbidden,
}
use khel_arena.Domain.Enums.{TournamentStatus}
use khel_arena.Domain.Match.{Team, is_captain}
use khel_arena.Domain.Tournament.{can_accept_registration}
use khel_arena.Domain.Tournament.Founding.{Draft, clean_draft, validate_draft}
use khel_arena.Store.Brackets.Founding.{create_tournament}
use khel_arena.Store.Brackets.{TournamentRow, Brackets, BracketsTx, tournament_by_id, team_by_id}
use khel_arena.Store.Brackets
use khel_arena.Service.Bookings.{refuse_if}

abbrev pub organized_by : TournamentRow → ℕ → Bool
organized_by t user = t.organizer_id == user

-- The write, where the checks passed.
abbrev pub then_write : Result (Unit {0}) → BracketsTx (Unit {0}) → BracketsTx (Unit {0})
then_write (ok u) write db = write db
then_write (err e) write db = (err e, db)

unfoldable pub load : ℕ → ℕ → Brackets → Result TournamentRow
load tournament actor db =
    if actor == 0
    then err (unauthenticated "Sign in to manage a tournament.")
    else tournament_by_id db tournament

unfoldable pub may_found : ℕ → Draft → Result (Unit {0})
unfolding clean_draft validate_draft
may_found organizer t = do
  refuse_if (organizer == 0) (unauthenticated "Sign in to run a tournament.")
  refuse (validate_draft (clean_draft t))

-- Create: the organiser is the caller.
unfoldable pub create : ℕ → ℕ → Draft → BracketsTx (Unit {0})
unfolding may_found
create id organizer t db =
    then_write (may_found organizer t) (create_tournament id organizer (clean_draft t)) db

unfoldable pub may_register : ℕ → ℕ → ℕ → ℕ → Brackets → Result (Unit {0})
unfolding is_captain can_accept_registration
may_register tournament team actor now db = do
  refuse_if (actor == 0) (unauthenticated "Sign in to enter a tournament.")
  squad ← team_by_id db team
  refuse_if (not (is_captain squad actor))
      (forbidden "Only the captain can enter the team in a tournament.")
  t ← tournament_by_id db tournament
  refuse (can_accept_registration t.tournament now)

-- Register
unfoldable pub register : ℕ → ℕ → ℕ → ℕ → BracketsTx (Unit {0})
unfolding may_register
register tournament team actor now db =
    then_write (may_register tournament team actor now db) (Brackets.register tournament team actor)
      db

-- The captain's side of Withdraw.
unfoldable pub leads_out : ℕ → ℕ → Brackets → Result (Unit {0})
unfolding is_captain
leads_out team actor db = do
  squad ← team_by_id db team
  refuse_if (not (is_captain squad actor))
      (forbidden "Only the captain or the organiser can withdraw a team.")

unfoldable pub may_withdraw : ℕ → ℕ → ℕ → Brackets → Result (Unit {0})
unfolding leads_out
may_withdraw tournament team actor db = do
  refuse_if (actor == 0) (unauthenticated "Sign in to manage a tournament entry.")
  t ← tournament_by_id db tournament
  (if organized_by t actor then ok tt else leads_out team actor db)

-- Withdraw
unfoldable pub withdraw : ℕ → ℕ → ℕ → BracketsTx (Unit {0})
unfolding may_withdraw
withdraw tournament team actor db =
    then_write (may_withdraw tournament team actor db) (Brackets.withdraw tournament team) db

unfoldable pub organizes : ℕ → ℕ → String → Brackets → Result (Unit {0})
unfolding load
organizes tournament actor message db = do
  t ← load tournament actor db
  refuse_if (not (organized_by t actor)) (forbidden message)

-- SetEntryPaid
unfoldable pub set_entry_paid : ℕ → ℕ → ℕ → Bool → BracketsTx (Unit {0})
unfolding organizes
set_entry_paid tournament team actor paid db =
    then_write (organizes tournament actor "Only the organiser can record entry fees." db)
      (Brackets.set_entry_paid tournament team paid) db

-- SetStatus: a status is one of the five by its type.
unfoldable pub set_status : ℕ → ℕ → TournamentStatus → BracketsTx (Unit {0})
unfolding organizes
set_status tournament actor status db =
    then_write (organizes tournament actor "Only the organiser can change a tournament." db)
      (Brackets.set_status tournament status) db
