-- ===== src/Store/Squads.antt =====
-- TeamRepo of internal/postgres/team.go, under the constraints of migrations/0005_teams.sql. `id` and
-- `code` are what the database draws for a new team. The crest, the home arena and the times are left
-- out.
pub mod Manned
pub mod Roster
pub mod Founding
use khel_arena.Prelude.{
  ℕ, suc, Bool, true, false, ◌&&◌, ◌||◌, not, none, some, List, [], ◌∷◌, ◌==◌, if◌then◌else◌, any,
  find, filter,
}
use khel_arena.Domain.Errors.{Result, ok, err, conflict, not_found, internal}
use khel_arena.Domain.Text.{Text, text_eq}
use khel_arena.Domain.Match.{Team}
use khel_arena.Store.Tables.{in_tx, update_where}

pub record TeamRow : Type 0 where
  pub id : ℕ
  pub name : Text
  pub tag : Text
  pub captain_id : ℕ
  pub join_code : Text

pub data TeamRole : Type 0 where
  captain player : TeamRole

-- A row of `team_members`.
pub record Member : Type 0 where
  pub team_id : ℕ
  pub user_id : ℕ
  pub role : TeamRole

-- The two tables, and the accounts that they refer to.
pub record Squads : Type 0 where
  pub teams : List TeamRow
  pub members : List Member
  pub users : List ℕ

abbrev pub SquadsTx : Type 0 → Type 0
SquadsTx A = Squads → Result A × Squads

abbrev pub is_team : ℕ → TeamRow → Bool
is_team id t = t.id == id

abbrev pub is_on : ℕ → Member → Bool
is_on team m = m.team_id == team

-- The primary key of a member.
abbrev pub is_seat : ℕ → ℕ → Member → Bool
is_seat team user m = m.team_id == team && m.user_id == user

abbrev pub leads : TeamRole → Bool
leads TeamRole.captain = true
leads TeamRole.player = false

abbrev pub is_user : List ℕ → ℕ → Bool
is_user users id = any (λ u. u == id) users

-- `select count(*) from team_members m where m.team_id = t.id`
abbrev pub count_members : ℕ → List Member → ℕ
count_members team [] = 0
count_members team (m ∷ ms) =
    let rest = count_members team ms in if is_on team m then suc rest else rest

-- scanTeam: the team as the domain reads it.
abbrev pub scan_team : Squads → TeamRow → Team
scan_team db t = record {
  id = t.id;
  captain_id = t.captain_id;
  member_count = count_members t.id db.members;
}

-- ByID, and ByJoinCode.
unfoldable pub team_row : Squads → ℕ → Result TeamRow
team_row db id = elim (find (is_team id) db.teams) [
  | none ↦ err (not_found "No team with that id.")
  | some t ↦ ok t
]

unfoldable pub by_join_code : Squads → Text → Result TeamRow
by_join_code db code = elim (find (λ t. text_eq t.join_code code) db.teams) [
  | none ↦ err (not_found "That invite code doesn't match a team.")
  | some t ↦ ok t
]

-- The unique name and tag, of a team other than the one that is written.
abbrev pub takes_name : ℕ → Text → Text → TeamRow → Bool
takes_name id name tag t = not (t.id == id) && (text_eq t.name name || text_eq t.tag tag)

abbrev pub takes_code : ℕ → Text → TeamRow → Bool
takes_code id code t = not (t.id == id) && text_eq t.join_code code

-- The insert into `team_members`.
unfoldable pub seat : Member → SquadsTx (Unit {0})
seat m db =
    if any (is_seat m.team_id m.user_id) db.members
    then (err (conflict "They're already on this team."), db)
    else if not (any (is_team m.team_id) db.teams && is_user db.users m.user_id)
    then (err internal, db)
    else (ok tt, record db { members = m ∷ db.members })

-- AddMember
unfoldable pub add_member : ℕ → ℕ → SquadsTx (Unit {0})
unfolding seat
add_member team user = seat (record { team_id = team; user_id = user; role = TeamRole.player })

abbrev pub seated : TeamRow → Result (Unit {0}) × Squads → Result TeamRow × Squads
seated t (ok u, db) = (ok t, db)
seated t (err e, db) = (err internal, db)

-- Create: the team, and its captain on the roster.
unfoldable pub create_team_tx : TeamRow → SquadsTx TeamRow
unfolding seat
create_team_tx t db =
    if any (takes_name t.id t.name t.tag) db.teams || any (takes_code t.id t.join_code) db.teams
    then (err (conflict "A team already uses that name or tag."), db)
    else if any (is_team t.id) db.teams || not (is_user db.users t.captain_id)
    then (err internal, db)
    else seated t (
        seat (record { team_id = t.id; user_id = t.captain_id; role = TeamRole.captain })
          (record db { teams = t ∷ db.teams }))

unfoldable pub create_team : TeamRow → SquadsTx TeamRow
unfolding create_team_tx
create_team t = in_tx (create_team_tx t)

abbrev pub renamed : Text → Text → TeamRow → TeamRow
renamed name tag t = record t { name = name; tag = tag }

-- Update
unfoldable pub update_team : ℕ → Text → Text → SquadsTx (Unit {0})
update_team id name tag db =
    if not (any (is_team id) db.teams)
    then (err (not_found "No team with that id."), db)
    else if any (takes_name id name tag) db.teams
    then (err (conflict "A team already uses that name or tag."), db)
    else (ok tt, record db { teams = update_where (is_team id) (renamed name tag) db.teams })

-- RemoveMember
unfoldable pub remove_member : ℕ → ℕ → SquadsTx (Unit {0})
remove_member team user db =
    if not (any (is_seat team user) db.members)
    then (err (not_found "They aren't on this team."), db)
    else (ok tt, record db { members = filter (λ m. not (is_seat team user m)) db.members })

-- IsMember
unfoldable pub is_member : Squads → ℕ → ℕ → Bool
is_member db team user = any (is_seat team user) db.members

abbrev pub with_role : TeamRole → Member → Member
with_role role m = record m { role = role }

-- The unique index team_members_one_captain_idx, on the other members of the team.
abbrev pub leads_besides : ℕ → ℕ → Member → Bool
leads_besides team user m = is_on team m && leads m.role && not (m.user_id == user)

abbrev pub with_captain : ℕ → TeamRow → TeamRow
with_captain user t = record t { captain_id = user }

-- The promotion and what follows it, on the roster without its captain.
unfoldable pub promote : ℕ → ℕ → List Member → SquadsTx (Unit {0})
promote team to demoted db =
    if any (is_seat team to) demoted && any (leads_besides team to) demoted
    then (err internal, db)
    else if not (any (is_seat team to) demoted)
    then (err (not_found "They aren't on this team."), db)
    else (
      ok tt,
      record db {
        teams = update_where (is_team team) (with_captain to) db.teams;
        members = update_where (is_seat team to) (with_role TeamRole.captain) demoted;
      },
    )

unfoldable pub transfer_captaincy_tx : ℕ → ℕ → ℕ → SquadsTx (Unit {0})
unfolding promote
transfer_captaincy_tx team from to db =
    promote team to (update_where (is_seat team from) (with_role TeamRole.player) db.members) db

-- TransferCaptaincy
unfoldable pub transfer_captaincy : ℕ → ℕ → ℕ → SquadsTx (Unit {0})
unfolding transfer_captaincy_tx
transfer_captaincy team from to = in_tx (transfer_captaincy_tx team from to)

-- RotateJoinCode, for the code that the database draws.
unfoldable pub rotate_join_code : ℕ → Text → SquadsTx Text
rotate_join_code team code db =
    if not (any (is_team team) db.teams)
    then (err (not_found "No team with that id."), db)
    else if any (takes_code team code) db.teams
    then (err internal, db)
    else (
      ok code,
      record db {
        teams = update_where (is_team team) (λ t. record t { join_code = code }) db.teams;
      },
    )

-- Disband: the members go with the team.
unfoldable pub disband : ℕ → SquadsTx (Unit {0})
disband team db =
    if not (any (is_team team) db.teams) then (err (not_found "No team with that id."), db) else (
      ok tt,
      record db {
        teams = filter (λ t. not (is_team team t)) db.teams;
        members = filter (λ m. not (is_on team m)) db.members;
      },
    )
