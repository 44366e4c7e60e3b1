-- ===== src/Service/Squads.antt =====
-- TeamService of internal/service/team.go. Each call reads the team and then writes.
pub mod Runs
use khel_arena.Prelude.{
  ℕ, Bool, true, false, not, Option, none, some, List, [], ◌∷◌, ◌==◌, if◌then◌else◌, any, filter,
  String,
}
use khel_arena.Domain.Errors.{
  Error, Result, ok, err, ◌>>=◌, ◌>>◌, refuse, invalid, unauthenticated, forbidden,
}
use khel_arena.Domain.Text.{Text}
use khel_arena.Domain.Team.{
  TeamNames, clean_names, validate_names, normalize_join_code, validate_join_code,
}
use khel_arena.Domain.Match.{
  Team, is_captain, can_add_member, can_remove_member, can_transfer_captaincy,
}
use khel_arena.Store.Squads.{
  TeamRow, Member, Squads, SquadsTx, scan_team, team_row, by_join_code, is_member, is_on,
}
use khel_arena.Store.Squads
use khel_arena.Service.Bookings.{refuse_if}

-- What a failed check leaves, and what follows where it passed.
abbrev pub then_do : {A B : Type 0} → Result A → (A → SquadsTx B) → SquadsTx B
then_do (ok a) write db = write a db
then_do (err e) write db = (err e, db)

-- Create, for the identifier and the code that the database draws.
unfoldable pub create : ℕ → TeamNames → ℕ → Text → SquadsTx TeamRow
create captain input id code db =
    if captain == 0
    then (err (unauthenticated "Sign in to start a team."), db)
    else (let t = clean_names input in
        then_do (refuse (validate_names t))
          (λ done. Squads.create_team (record {
            id = id;
            name = t.name;
            tag = t.tag;
            captain_id = captain;
            join_code = code;
          }))
          db)

unfoldable pub load : ℕ → ℕ → Squads → Result TeamRow
load team actor db =
    if actor == 0 then err (unauthenticated "Sign in to manage a team.") else team_row db team

-- The members that Get shows, and the invite code if the viewer is one of them.
unfoldable pub get : ℕ → ℕ → Squads → Result (List Member × Option Text)
get team viewer db = do
  t ← team_row db team
  ok (
    filter (is_on team) db.members,
    (if any (λ m. m.user_id == viewer) (filter (is_on team) db.members)
        then some t.join_code
        else none),
  )

-- `if !team.IsCaptain(actorID) { return Forbidden }`
unfoldable pub led_by : ℕ → ℕ → String → Squads → Result TeamRow
unfolding load is_captain
led_by team actor message db = do
  t ← load team actor db
  refuse_if (not (is_captain (scan_team db t) actor)) (forbidden message)
  ok t

unfoldable pub updatable : ℕ → ℕ → TeamNames → Squads → Result TeamNames
unfolding led_by
updatable team actor input db = do
  t ← led_by team actor "Only the captain can change the team." db
  refuse (validate_names (clean_names input))
  ok (clean_names input)

unfoldable pub update : ℕ → ℕ → TeamNames → SquadsTx (Unit {0})
unfolding updatable
update team actor input db =
    then_do (updatable team actor input db) (λ names. Squads.update_team team names.name names.tag)
      db

-- Join: a code is redeemed as the captain would add the player.
unfoldable pub joinable : ℕ → Text → Squads → Result TeamRow
joinable user raw db = do
  refuse_if (user == 0) (unauthenticated "Sign in to join a team.")
  refuse (validate_join_code (normalize_join_code raw))
  t ← by_join_code db (normalize_join_code raw)
  refuse (can_add_member (scan_team db t) t.captain_id)
  ok t

unfoldable pub join : ℕ → Text → SquadsTx (Unit {0})
unfolding joinable
join user raw db = then_do (joinable user raw db) (λ t. Squads.add_member t.id user) db

unfoldable pub addable : ℕ → ℕ → Squads → Result TeamRow
unfolding load
addable team actor db = do
  t ← load team actor db
  refuse (can_add_member (scan_team db t) actor)
  ok t

unfoldable pub add_member : ℕ → ℕ → ℕ → SquadsTx (Unit {0})
unfolding addable
add_member team actor user db =
    then_do (addable team actor db) (λ t. Squads.add_member team user) db

unfoldable pub removable : ℕ → ℕ → ℕ → Squads → Result TeamRow
unfolding load
removable team actor target db = do
  t ← load team actor db
  refuse (can_remove_member (scan_team db t) actor target)
  ok t

unfoldable pub remove_member : ℕ → ℕ → ℕ → SquadsTx (Unit {0})
unfolding removable
remove_member team actor target db =
    then_do (removable team actor target db) (λ t. Squads.remove_member team target) db

unfoldable pub transferable : ℕ → ℕ → ℕ → Squads → Result TeamRow
unfolding load
transferable team actor target db = do
  t ← load team actor db
  refuse (can_transfer_captaincy (scan_team db t) actor target)
  refuse_if (not (is_member db team target)) (invalid "user_id" "They aren't on this team.")
  ok t

unfoldable pub transfer_captaincy : ℕ → ℕ → ℕ → SquadsTx (Unit {0})
unfolding transferable
transfer_captaincy team actor target db =
    then_do (transferable team actor target db) (λ t. Squads.transfer_captaincy team actor target)
      db

unfoldable pub rotate_join_code : ℕ → ℕ → Text → SquadsTx Text
rotate_join_code team actor code db =
    then_do (led_by team actor "Only the captain can change the invite code." db)
      (λ t. Squads.rotate_join_code team code) db

unfoldable pub disband : ℕ → ℕ → SquadsTx (Unit {0})
disband team actor db =
    then_do (led_by team actor "Only the captain can disband the team." db)
      (λ t. Squads.disband team) db
