-- ===== src/Service/Brackets/Runs.antt =====
-- Sequences of what captains and organisers do with the entries of tournaments.
use khel_arena.Prelude.{ℕ, ◌≡◌, false, Bool, ◌==◌, any}
use khel_arena.Domain.Errors.{Result, ok, err}
use khel_arena.Domain.Enums.{TournamentStatus}
use khel_arena.Domain.Tournament.Founding.{Draft, clean_draft}
use khel_arena.Store.Brackets.{Brackets, BracketsTx}
use khel_arena.Store.Brackets.Founding.{create_tournament-IsCounted}
use khel_arena.Store.Brackets.Count.{
  IsCounted, IsCountedAfter, register-IsCounted, withdraw-IsCounted, set_entry_paid-IsCounted,
  set_status-IsCounted,
}
use khel_arena.Service.Brackets.{
  then_write, may_found, create, may_register, register, may_withdraw, withdraw, organizes,
  set_entry_paid, set_status,
}

then_write-IsCounted :
    (checks : Result (Unit {0})) (write : BracketsTx (Unit {0})) (db : Brackets)
    → IsCounted db
    → IsCountedAfter (write db)
    → IsCountedAfter (then_write checks write db)
then_write-IsCounted (ok u) write db before h = h
then_write-IsCounted (err e) write db before h = before

pub data BracketStep : Brackets → Brackets → Type 0 where
  founds :
      {db : Brackets} (id organizer : ℕ) (t : Draft)
      → any (λ e. e.tournament_id == id) db.entries ≡ false
      → BracketStep db (create id organizer t db).1
  enters :
      {db : Brackets} (tournament team actor now : ℕ)
      → BracketStep db (register tournament team actor now db).1
  leaves :
      {db : Brackets} (tournament team actor : ℕ)
      → BracketStep db (withdraw tournament team actor db).1
  pays :
      {db : Brackets} (tournament team actor : ℕ) (paid : Bool)
      → BracketStep db (set_entry_paid tournament team actor paid db).1
  moves_on :
      {db : Brackets} (tournament actor : ℕ) (status : TournamentStatus)
      → BracketStep db (set_status tournament actor status db).1

pub data BracketReach (db : Brackets) : Brackets → Type 0 where
  at_once : BracketReach db db
  then_step :
      {mid after : Brackets} → BracketReach db mid → BracketStep mid after → BracketReach db after

BracketStep-IsCounted :
    {db after : Brackets} → BracketStep db after → IsCounted db → IsCounted after
unfolding create register withdraw set_entry_paid set_status
BracketStep-IsCounted (founds {db} id organizer t fresh) counted =
    then_write-IsCounted (may_found organizer t) _ db counted
      (create_tournament-IsCounted id organizer (clean_draft t) db fresh counted)
BracketStep-IsCounted (enters {db} tournament team actor now) counted =
    then_write-IsCounted (may_register tournament team actor now db) _ db counted
      (register-IsCounted db counted tournament team actor)
BracketStep-IsCounted (leaves {db} tournament team actor) counted =
    then_write-IsCounted (may_withdraw tournament team actor db) _ db counted
      (withdraw-IsCounted db counted tournament team)
BracketStep-IsCounted (pays {db} tournament team actor paid) counted =
    then_write-IsCounted (organizes tournament actor _ db) _ db counted
      (set_entry_paid-IsCounted db counted tournament team paid)
BracketStep-IsCounted (moves_on {db} tournament actor status) counted =
    then_write-IsCounted (organizes tournament actor _ db) _ db counted
      (set_status-IsCounted db counted tournament status)

-- However tournaments are created, captains enter and withdraw teams, and organisers withdraw them,
-- record fees and change the status, every tournament counts exactly its entries and never more than
-- it takes, and no team is entered twice in one.
pub BracketReach-IsCounted :
    {db after : Brackets} → BracketReach db after → IsCounted db → IsCounted after
BracketReach-IsCounted at_once counted = counted
BracketReach-IsCounted (then_step run step) counted =
    BracketStep-IsCounted step (BracketReach-IsCounted run counted)
