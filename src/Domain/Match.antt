-- ===== src/Domain/Match.antt =====
-- internal/domain/team.go: who may change a squad, and the results that two captains agree on. An
-- identifier 0 is the nil UUID.
use khel_arena.Prelude.{
  ℕ, Bool, ◌||◌, not, Option, none, some, [], ℤ, pos, leb_ℤ, leb, ◌==◌, if◌then◌else◌,
}
use khel_arena.Domain.Errors.{Error, invalid, forbidden, conflict, check, validation_err}

pub record Team : Type 0 where
  pub id : ℕ
  pub captain_id : ℕ
  pub member_count : ℕ

unfoldable pub is_captain : Team → ℕ → Bool
is_captain t user = t.captain_id == user

abbrev pub max_squad_size : ℕ
max_squad_size = 20

unfoldable pub can_add_member : Team → ℕ → Option Error
unfolding is_captain
can_add_member t actor =
    if not (is_captain t actor)
    then some (forbidden "Only the captain can change the squad.")
    else if leb max_squad_size t.member_count
    then some (conflict "This squad is full at %d players.")
    else none

unfoldable pub can_remove_member : Team → ℕ → ℕ → Option Error
unfolding is_captain
can_remove_member t actor target =
    if target == t.captain_id
    then some (conflict "The captain can't leave the team. Hand the armband to someone else first.")
    else if actor == target || is_captain t actor
    then none
    else some (forbidden "Only the captain can remove other players.")

unfoldable pub can_transfer_captaincy : Team → ℕ → ℕ → Option Error
unfolding is_captain
can_transfer_captaincy t actor target =
    if not (is_captain t actor)
    then some (forbidden "Only the captain can hand over the armband.")
    else if target == t.captain_id
    then some (invalid "user_id" "They're already the captain.")
    else none

pub record Match : Type 0 where
  pub id : ℕ
  pub booking_id : Option ℕ
  pub home_team : ℕ
  pub away_team : ℕ
  pub home_score : ℤ
  pub away_score : ℤ
  pub played_at : ℕ
  pub verified : Bool
  pub reported_by : ℕ
  pub created_at : ℕ

unfoldable pub involves : Match → ℕ → Bool
involves m team = m.home_team == team || m.away_team == team

unfoldable pub can_be_confirmed_by : Match → ℕ → ℕ → Option Error
unfolding involves
can_be_confirmed_by m actor team =
    if m.verified
    then some (conflict "That result is already agreed.")
    else if not (involves m team)
    then some (forbidden "Only the two captains can confirm a result.")
    else if m.reported_by == 0
    then some (conflict "We can't tell who filed that result. Report it again.")
    else if m.reported_by == actor
    then some (conflict "The other captain has to agree the score.")
    else none

unfoldable pub can_be_disputed_by : Match → ℕ → ℕ → Option Error
unfolding can_be_confirmed_by
can_be_disputed_by m actor team = can_be_confirmed_by m actor team

unfoldable pub can_be_withdrawn_by : Match → ℕ → Option Error
unfolding involves
can_be_withdrawn_by m team =
    if not (involves m team)
    then some (forbidden "Only the two captains can withdraw a result.")
    else if m.verified
    then some (conflict "Both captains agreed that result. It stands.")
    else none

unfoldable pub validate_match : Match → Option Error
validate_match m =
    let v = check [] (not (m.home_team == m.away_team)) "away_team" "A team can't play itself." in
    let v₁ = check v (leb_ℤ (pos 0) m.home_score) "home_score" "Scores can't be negative." in
    let v₂ = check v₁ (leb_ℤ (pos 0) m.away_score) "away_score" "Scores can't be negative." in
    let v₃ = check v₂ (not (m.home_team == 0)) "home_team" "Which team was at home?" in
    validation_err (check v₃ (not (m.away_team == 0)) "away_team" "Who were the visitors?")
