-- ===== src/Service/Squads/Runs.antt =====
-- Sequences of what players and captains do with their teams.
use khel_arena.Prelude.{
  ℕ, ◌<◌, ◌≡◌, refl, subst, find-some, false, some, none, arith, ◌==◌, find, if-intro,
}
use khel_arena.Domain.Errors.{Result, ok, err, ◌>>◌, >>=-eq-ok, ok-eq, refuse}
use khel_arena.Domain.Text.{Text}
use khel_arena.Domain.Team.{
  TeamNames, clean_names, validate_names, normalize_join_code, validate_join_code,
}
use khel_arena.Domain.Match.{
  max_squad_size, is_captain, can_add_member, can_remove_member, can_transfer_captaincy,
}
use khel_arena.Store.Squads.{
  TeamRow, Squads, SquadsTx, is_team, count_members, scan_team, team_row, by_join_code,
}
use khel_arena.Store.Squads
use khel_arena.Store.Squads.Roster.{
  IsWellManned, IsWellMannedAfter, add_member-IsWellManned, remove_member-IsWellManned,
  disband-IsWellManned, update_team-IsWellManned, rotate_join_code-IsWellManned,
  transfer_captaincy-IsWellManned,
}
use khel_arena.Store.Squads.Founding.{create_team-IsWellManned}
use khel_arena.Service.Bookings.{refuse_if}
use khel_arena.Service.Squads.{
  then_do, create, load, led_by, updatable, update, joinable, join, addable, add_member, removable,
  remove_member, transferable, transfer_captaincy, rotate_join_code, disband,
}

-- The write has to keep the teams manned only where the checks passed.
then_do-IsWellManned :
    {A B : Type 0} (checks : Result A) (write : A → SquadsTx B) (db : Squads)
    → IsWellManned db
    → ((a : A) → checks ≡ ok a → IsWellMannedAfter (write a db))
    → IsWellMannedAfter (then_do checks write db)
then_do-IsWellManned (ok a) write db well h = h a refl
then_do-IsWellManned (err e) write db well h = well

load-find :
    (team actor : ℕ) (db : Squads) {t : TeamRow}
    → load team actor db ≡ ok t
    → find (is_team team) db.teams ≡ some t
unfolding load team_row
load-find team actor db h = ground arith

can_add_member-room :
    (db : Squads) (t : TeamRow) (actor : ℕ)
    → can_add_member (scan_team db t) actor ≡ none
    → count_members t.id db.members < max_squad_size
unfolding can_add_member
can_add_member-room db t actor h = ground arith

joinable-room :
    (user : ℕ) (raw : Text) (db : Squads) {t : TeamRow}
    → joinable user raw db ≡ ok t
    → count_members t.id db.members < max_squad_size
unfolding joinable
joinable-room user raw db h =
    let code = normalize_join_code raw in
    let (a, h₀, k₀) = >>=-eq-ok (refuse_if (user == 0) _) _ h in
    let (b, h₁, k₁) = >>=-eq-ok (refuse (validate_join_code code)) _ k₀ in
    let (r, h₂, k₂) = >>=-eq-ok (by_join_code db code) _ k₁ in
    let (c, h₃, k₃) = >>=-eq-ok (refuse (can_add_member (scan_team db r) r.captain_id)) _ k₂ in
    let room : count_members r.id db.members < max_squad_size =
      can_add_member-room db r r.captain_id (ground arith) in
    let same : r ≡ _ = ok-eq k₃ in rw (← same) room

addable-room :
    (team actor : ℕ) (db : Squads) {t : TeamRow}
    → addable team actor db ≡ ok t
    → count_members team db.members < max_squad_size
unfolding addable
addable-room team actor db h =
    let (t, loaded, passed) =
      >>=-eq-ok (load team actor db) (λ t. refuse (can_add_member (scan_team db t) actor) >> ok t)
        h in
    let found = load-find team actor db loaded in
    let (hit, member) = find-some (is_team team) db.teams found in
    let same : t.id ≡ team = ground arith in
    let room : count_members t.id db.members < max_squad_size =
      can_add_member-room db t actor (ground arith) in
    rw (← same) room

removable-found :
    (team actor target : ℕ) (db : Squads) {t : TeamRow}
    → removable team actor target db ≡ ok t
    → (r : TeamRow) × (find (is_team team) db.teams ≡ some r) × ((r.captain_id == target) ≡ false)
unfolding removable can_remove_member is_captain
removable-found team actor target db h =
    let (t, loaded, passed) =
      >>=-eq-ok (load team actor db)
        (λ t. refuse (can_remove_member (scan_team db t) actor target) >> ok t) h in
    (t, load-find team actor db loaded, ground arith)

transferable-found :
    (team actor target : ℕ) (db : Squads) {t : TeamRow}
    → transferable team actor target db ≡ ok t
    → (r : TeamRow) × (find (is_team team) db.teams ≡ some r) × (r.captain_id ≡ actor)
unfolding transferable can_transfer_captaincy is_captain
transferable-found team actor target db h =
    let (t, loaded, passed) = >>=-eq-ok (load team actor db) _ h in
    (t, load-find team actor db loaded, ground arith)

module _ (db : Squads) (well : IsWellManned db) where
  join-IsWellManned : (user : ℕ) (raw : Text) → IsWellMannedAfter (join user raw db)
  unfolding join
  join-IsWellManned user raw =
      then_do-IsWellManned (joinable user raw db) _ db well
        λ t h. add_member-IsWellManned db well t.id user (joinable-room user raw db h)

  add_member_by-IsWellManned :
      (team actor user : ℕ) → IsWellMannedAfter (add_member team actor user db)
  unfolding add_member addable
  add_member_by-IsWellManned team actor user =
      then_do-IsWellManned (addable team actor db) _ db well
        λ t h. add_member-IsWellManned db well team user (addable-room team actor db h)

  remove_member_by-IsWellManned :
      (team actor target : ℕ) → IsWellMannedAfter (remove_member team actor target db)
  unfolding remove_member removable
  remove_member_by-IsWellManned team actor target =
      then_do-IsWellManned (removable team actor target db) _ db well λ t h.
        let (r, found, other) = removable-found team actor target db h in
        remove_member-IsWellManned db well team target found other

  transfer_by-IsWellManned :
      (team actor target : ℕ) → IsWellMannedAfter (transfer_captaincy team actor target db)
  unfolding transfer_captaincy transferable
  transfer_by-IsWellManned team actor target =
      then_do-IsWellManned (transferable team actor target db) _ db well λ t h.
        let (r, found, same) = transferable-found team actor target db h in
        subst (λ x. IsWellMannedAfter (Squads.transfer_captaincy team x target db)) same
          (transfer_captaincy-IsWellManned db well team target found)

  update_by-IsWellManned :
      (team actor : ℕ) (input : TeamNames) → IsWellMannedAfter (update team actor input db)
  unfolding update
  update_by-IsWellManned team actor input =
      then_do-IsWellManned (updatable team actor input db) _ db well
        λ names h. update_team-IsWellManned db well team names.name names.tag

  rotate_by-IsWellManned :
      (team actor : ℕ) (code : Text) → IsWellMannedAfter (rotate_join_code team actor code db)
  unfolding rotate_join_code
  rotate_by-IsWellManned team actor code =
      then_do-IsWellManned (led_by team actor "Only the captain can change the invite code." db) _
        db well λ t h. rotate_join_code-IsWellManned db well team code

  disband_by-IsWellManned : (team actor : ℕ) → IsWellMannedAfter (disband team actor db)
  unfolding disband
  disband_by-IsWellManned team actor =
      then_do-IsWellManned (led_by team actor "Only the captain can disband the team." db) _ db well
        λ t h. disband-IsWellManned db well team

  create-IsWellManned :
      (user : ℕ) (input : TeamNames) (id : ℕ) (code : Text)
      → IsWellMannedAfter (create user input id code db)
  unfolding create
  create-IsWellManned user input id code =
      if-intro IsWellMannedAfter (user == 0) _ _ (λ h. well)
        λ h.
          then_do-IsWellManned (refuse (validate_names (clean_names input))) _ db well
            λ done passed. create_team-IsWellManned db well _

pub data SquadStep : Squads → Squads → Type 0 where
  starts :
      {db : Squads} (user : ℕ) (input : TeamNames) (id : ℕ) (code : Text)
      → SquadStep db (create user input id code db).1
  edits :
      {db : Squads} (team actor : ℕ) (input : TeamNames)
      → SquadStep db (update team actor input db).1
  joins : {db : Squads} (user : ℕ) (raw : Text) → SquadStep db (join user raw db).1
  adds : {db : Squads} (team actor user : ℕ) → SquadStep db (add_member team actor user db).1
  removes :
      {db : Squads} (team actor target : ℕ) → SquadStep db (remove_member team actor target db).1
  hands_over :
      {db : Squads} (team actor target : ℕ)
      → SquadStep db (transfer_captaincy team actor target db).1
  changes_code :
      {db : Squads} (team actor : ℕ) (code : Text)
      → SquadStep db (rotate_join_code team actor code db).1
  disbands : {db : Squads} (team actor : ℕ) → SquadStep db (disband team actor db).1

pub data SquadReach (db : Squads) : Squads → Type 0 where
  at_once : SquadReach db db
  then_step : {mid after : Squads} → SquadReach db mid → SquadStep mid after → SquadReach db after

SquadStep-IsWellManned :
    {db after : Squads} → SquadStep db after → IsWellManned db → IsWellManned after
SquadStep-IsWellManned (starts {db} user input id code) well =
    create-IsWellManned db well user input id code
SquadStep-IsWellManned (edits {db} team actor input) well =
    update_by-IsWellManned db well team actor input
SquadStep-IsWellManned (joins {db} user raw) well = join-IsWellManned db well user raw
SquadStep-IsWellManned (adds {db} team actor user) well =
    add_member_by-IsWellManned db well team actor user
SquadStep-IsWellManned (removes {db} team actor target) well =
    remove_member_by-IsWellManned db well team actor target
SquadStep-IsWellManned (hands_over {db} team actor target) well =
    transfer_by-IsWellManned db well team actor target
SquadStep-IsWellManned (changes_code {db} team actor code) well =
    rotate_by-IsWellManned db well team actor code
SquadStep-IsWellManned (disbands {db} team actor) well = disband_by-IsWellManned db well team actor

-- Whatever teams are started, edited, joined, filled, left, handed over and disbanded one after the
-- other, every team has its captain on the roster as its only leader and at most 20 members, nobody
-- has two places on a team, and nobody is on a team that does not exist.
pub SquadReach-IsWellManned :
    {db after : Squads} → SquadReach db after → IsWellManned db → IsWellManned after
SquadReach-IsWellManned at_once well = well
SquadReach-IsWellManned (then_step run step) well =
    SquadStep-IsWellManned step (SquadReach-IsWellManned run well)
