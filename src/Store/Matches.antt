-- ===== src/Store/Matches.antt =====
-- MatchRepo of internal/postgres/match.go, under the constraints of migrations/0005_teams.sql.
use khel_arena.Prelude.{
  ℕ, Bool, true, false, ◌&&◌, ◌||◌, not, Option, none, some, List, ◌∷◌, ℤ, pos, ltb_ℤ, ◌==◌,
  if◌then◌else◌, any, find, filter,
}
use khel_arena.Domain.Errors.{Result, ok, err, invalid, conflict, not_found, internal}
use khel_arena.Domain.Match.{Match, Team}
use khel_arena.Store.Tables.{update_where}

pub record League : Type 0 where
  pub matches : List Match
  pub teams : List Team

abbrev pub LeagueTx : Type 0 → Type 0
LeagueTx A = League → Result A × League

abbrev pub is_match : ℕ → Match → Bool
is_match id m = m.id == id

unfoldable pub match_by_id : League → ℕ → Result Match
match_by_id db id = elim (find (is_match id) db.matches) [
  | none ↦ err (not_found "No result with that id.")
  | some m ↦ ok m
]

-- ByID of internal/postgres/team.go.
unfoldable pub team_by_id : League → ℕ → Result Team
team_by_id db id = elim (find (λ t. t.id == id) db.teams) [
  | none ↦ err (not_found "No team with that id.")
  | some t ↦ ok t
]

-- The unique index on the booking of a result.
abbrev pub is_for_booking : Option ℕ → Match → Bool
is_for_booking none m = false
is_for_booking (some b) m = elim m.booking_id [ none ↦ false | some c ↦ c == b ]

abbrev pub has_team : List Team → ℕ → Bool
has_team teams id = any (λ t. t.id == id) teams

-- Create: a result, unagreed.
unfoldable pub create_match : Match → ℕ → ℕ → LeagueTx Match
create_match m id now db =
    if m.home_team == m.away_team || ltb_ℤ m.home_score (pos 0) || ltb_ℤ m.away_score (pos 0)
    then (err (invalid "away_team" "A team can't play itself."), db)
    else if any (is_for_booking m.booking_id) db.matches
    then (err (conflict "A result has already been filed for that booking."), db)
    else if not (has_team db.teams m.home_team && has_team db.teams m.away_team)
    then (err internal, db)
    else (let filed : Match = record m { id = id; verified = false; created_at = now } in
        (ok filed, record db { matches = filed ∷ db.matches }))

abbrev pub is_unagreed : ℕ → Match → Bool
is_unagreed id m = is_match id m && not m.verified

abbrev pub agreed : Match → Match
agreed m = record m { verified = true }

-- Confirm: a result that is gone or agreed already is no error.
unfoldable pub confirm_match : ℕ → League → League
confirm_match id db = record db { matches = update_where (is_unagreed id) agreed db.matches }

abbrev pub recounted : ℤ → ℤ → ℕ → Match → Match
recounted home away actor m = record m { home_score = home; away_score = away; reported_by = actor }

-- Recount
unfoldable pub recount : ℕ → ℤ → ℤ → ℕ → LeagueTx (Unit {0})
recount id home away actor db =
    if not (any (is_unagreed id) db.matches)
    then (err (conflict "Both captains agreed that result. It stands."), db)
    else if ltb_ℤ home (pos 0) || ltb_ℤ away (pos 0)
    then (err (invalid "home_score" "Scores can't be negative."), db)
    else (
      ok tt,
      record db { matches = update_where (is_unagreed id) (recounted home away actor) db.matches },
    )

-- Delete
unfoldable pub delete_match : ℕ → LeagueTx (Unit {0})
delete_match id db =
    if not (any (is_match id) db.matches)
    then (err (not_found "No result with that id."), db)
    else (ok tt, record db { matches = filter (λ m. not (is_match id m)) db.matches })
