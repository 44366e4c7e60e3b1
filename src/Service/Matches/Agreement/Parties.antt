-- ===== src/Service/Matches/Agreement/Parties.antt =====
-- Who captains a team of a match.
use khel_arena.Prelude.{ℕ, ◌≡◌, refl, Bool, true, false, arith, ◌==◌, if◌then◌else◌}
use khel_arena.Domain.Errors.{Error, Result, ok, err, >>=-eq-ok, ok-eq}
use khel_arena.Domain.Match.{Match, Team, is_captain, involves}
use khel_arena.Store.Matches.{League, team_by_id}
use khel_arena.Service.Matches.{captains, captained_team}

-- The actor captains a team of the match.
pub record IsPartyTo (db : League) (actor team : ℕ) (m : Match) : Type 0 where
  pub side : involves m team ≡ true
  pub team_row : Team
  pub stored : team_by_id db team ≡ ok team_row
  pub captain : is_captain team_row actor ≡ true

pub captain_found :
    (o : Result Team) (actor : ℕ) (nil : Bool)
    → (if nil then ok false else elim o [ err e ↦ err e | ok t ↦ ok (is_captain t actor) ])
      ≡ ok true
    → (t : Team) × (o ≡ ok t) × (is_captain t actor ≡ true)
captain_found (ok t) actor nil h = (t, refl, ground arith)
captain_found (err e) actor nil h = ground arith

pub captains-true :
    (db : League) (team actor : ℕ)
    → captains db team actor ≡ ok true
    → (t : Team) × (team_by_id db team ≡ ok t) × (is_captain t actor ≡ true)
unfolding captains
captains-true db team actor h = captain_found (team_by_id db team) actor (team == 0) h

-- The choice that captainedTeam makes, once it has asked about both teams.
pub chosen :
    (db : League) (actor : ℕ) (m : Match) (home away : Bool) (e : Error) {team : ℕ}
    → captains db m.home_team actor ≡ ok home
    → (if home then ok false else captains db m.away_team actor) ≡ ok away
    → (if home then ok m.home_team else if away then ok m.away_team else err e) ≡ ok team
    → IsPartyTo db actor team m
unfolding involves
chosen db actor m true away e {team} at_home at_away picked =
    let (t, found, captain) = captains-true db m.home_team actor at_home in
    let same : m.home_team ≡ team = ok-eq picked in
    record { side = ground arith; team_row = t; stored = rw (← same) found; captain = captain }
chosen db actor m false true e {team} at_home at_away picked =
    let (t, found, captain) = captains-true db m.away_team actor at_away in
    let same : m.away_team ≡ team = ok-eq picked in
    record { side = ground arith; team_row = t; stored = rw (← same) found; captain = captain }
chosen db actor m false false e at_home at_away picked = cc

pub captained_team-IsPartyTo :
    (db : League) (actor : ℕ) (m : Match) {team : ℕ}
    → captained_team db actor m ≡ ok team
    → IsPartyTo db actor team m
unfolding captained_team
captained_team-IsPartyTo db actor m h =
    let (home, h₀, k₀) = >>=-eq-ok (captains db m.home_team actor) _ h in
    let (away, h₁, k₁) =
      >>=-eq-ok (if home then ok false else captains db m.away_team actor) _ k₀ in
    chosen db actor m home away _ h₀ h₁ k₁
