-- ===== src/Service/Matches.antt =====
-- MatchService of internal/service/match.go. Each call reads and then writes; `now` is the clock.
pub mod Agreement
use khel_arena.Prelude.{
  ℕ, Bool, true, false, ◌&&◌, ◌||◌, not, Option, none, some, ℤ, pos, ltb, ltb_ℤ, eq_ℤ, ◌==◌,
  if◌then◌else◌,
}
use khel_arena.Domain.Errors.{
  Error, Result, ok, err, ◌>>=◌, ◌>>◌, refuse, invalid, unauthenticated, not_found,
}
use khel_arena.Domain.Match.{
  Match, Team, is_captain, can_be_confirmed_by, can_be_disputed_by, can_be_withdrawn_by,
  validate_match,
}
use khel_arena.Store.Matches.{
  League, LeagueTx, match_by_id, team_by_id, create_match, confirm_match, recount, delete_match,
}
use khel_arena.Service.Bookings.{refuse_if}

-- One turn of the loop of captainedTeam; a nil team is passed over.
unfoldable pub captains : League → ℕ → ℕ → Result Bool
unfolding team_by_id is_captain
captains db team actor =
    if team == 0
    then ok false
    else elim (team_by_id db team) [ err e ↦ err e | ok t ↦ ok (is_captain t actor) ]

-- captainedTeam
unfoldable pub captained_team : League → ℕ → Match → Result ℕ
captained_team db actor m = do
  home ← captains db m.home_team actor
  away ← (if home then ok false else captains db m.away_team actor)
  (if home
      then ok m.home_team
      else if away
      then ok m.away_team
      else err (not_found "No result of yours with that id."))

abbrev pub then_create : Result Match → ℕ → ℕ → LeagueTx Match
then_create (ok m) id now db = create_match m id now db
then_create (err e) id now db = (err e, db)

-- The checks of Report, and the result that it files; a time that is not given is now.
unfoldable pub reported : ℕ → Match → ℕ → League → Result Match
reported actor m now db = do
  refuse_if (actor == 0) (unauthenticated "Sign in to report a result.")
  refuse (validate_match m)
  team ← captained_team db actor m
  let filed = record m {
    reported_by = actor;
    played_at = if m.played_at == 0 then now else m.played_at;
  }
  refuse_if (ltb now filed.played_at) (invalid "played_at" "That match hasn't been played yet.")
  ok filed

-- Report
unfoldable pub report : ℕ → Match → ℕ → ℕ → ℕ → LeagueTx Match
report actor m id now db_now db = then_create (reported actor m now db) id db_now db

-- The checks of Confirm, and the result that it is about.
unfoldable pub confirmable : ℕ → ℕ → League → Result Match
confirmable id actor db = do
  refuse_if (actor == 0) (unauthenticated "Sign in to confirm a result.")
  m ← match_by_id db id
  team ← captained_team db actor m
  refuse (can_be_confirmed_by m actor team)
  ok m

abbrev pub then_confirm : Result Match → ℕ → LeagueTx Match
then_confirm (ok m) id db = let db' = confirm_match id db in (match_by_id db' id, db')
then_confirm (err e) id db = (err e, db)

-- Confirm
unfoldable pub confirm_result : ℕ → ℕ → LeagueTx Match
confirm_result id actor db = then_confirm (confirmable id actor db) id db

-- The checks of Dispute.
unfoldable pub disputable : ℕ → ℕ → ℤ → ℤ → League → Result Match
disputable id actor home away db = do
  refuse_if (actor == 0) (unauthenticated "Sign in to dispute a result.")
  refuse_if (ltb_ℤ home (pos 0) || ltb_ℤ away (pos 0))
      (invalid "home_score" "Scores can't be negative.")
  m ← match_by_id db id
  team ← captained_team db actor m
  refuse (can_be_disputed_by m actor team)
  refuse_if (eq_ℤ m.home_score home && eq_ℤ m.away_score away)
      (invalid "home_score" "That's the score already filed. Confirm it instead.")
  ok m

abbrev pub read_back : ℕ → Result (Unit {0}) × League → Result Match × League
read_back id (ok u, db) = (match_by_id db id, db)
read_back id (err e, db) = (err e, db)

abbrev pub then_recount : Result Match → ℕ → ℤ → ℤ → ℕ → LeagueTx Match
then_recount (ok m) id home away actor db = read_back id (recount id home away actor db)
then_recount (err e) id home away actor db = (err e, db)

-- Dispute
unfoldable pub dispute : ℕ → ℕ → ℤ → ℤ → LeagueTx Match
dispute id actor home away db =
    then_recount (disputable id actor home away db) id home away actor db

-- The checks of Withdraw.
unfoldable pub withdrawable : ℕ → ℕ → League → Result Match
withdrawable id actor db = do
  refuse_if (actor == 0) (unauthenticated "Sign in to manage results.")
  m ← match_by_id db id
  team ← captained_team db actor m
  refuse (can_be_withdrawn_by m team)
  ok m

abbrev pub then_delete : Result Match → ℕ → LeagueTx (Unit {0})
then_delete (ok m) id db = delete_match id db
then_delete (err e) id db = (err e, db)

-- Withdraw
unfoldable pub withdraw_result : ℕ → ℕ → LeagueTx (Unit {0})
withdraw_result id actor db = then_delete (withdrawable id actor db) id db
