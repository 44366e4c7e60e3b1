-- ===== src/Domain/Team.antt =====
-- What internal/domain/team.go asks of the names, the tags and the invite codes of teams.
--
-- `strings.ToUpper` is written out for the runes whose upper case is an ASCII letter. Every other rune
-- is left as it is: its upper case is not in `[A-Z0-9]` either, and both patterns refuse it.
use khel_arena.Prelude.{
  ℕ, ◌-◌, Bool, true, ◌&&◌, ◌||◌, not, Option, none, some, [], ◌∷◌, map, filter, leb, ◌==◌,
  if◌then◌else◌, length,
}
use khel_arena.Domain.Errors.{Error, invalid, check, validation_err}
use khel_arena.Domain.Text.{Text, trim_space}

abbrev pub upper_rune : ℕ → ℕ
upper_rune r =
    if leb 97 r && leb r 122
    then r - 32
    else if r == 0x131
    then 73
    else if r == 0x17f
    then 83
    else r

-- `strings.ToUpper`
unfoldable pub to_upper : Text → Text
to_upper s = map upper_rune s

-- `[A-Z0-9]`
abbrev pub is_code_rune : ℕ → Bool
is_code_rune r = leb 65 r && leb r 90 || leb 48 r && leb r 57

unfoldable pub all_code_runes : Text → Bool
all_code_runes [] = true
all_code_runes (r ∷ rs) = is_code_rune r && all_code_runes rs

-- `^[A-Z0-9]{2,5}$`
unfoldable pub matches_tag : Text → Bool
unfolding all_code_runes
matches_tag s = leb 2 (length s) && leb (length s) 5 && all_code_runes s

abbrev pub join_code_length : ℕ
join_code_length = 8

-- `^[A-Z0-9]{8}$`
unfoldable pub matches_join_code : Text → Bool
unfolding all_code_runes
matches_join_code s = length s == join_code_length && all_code_runes s

-- The name and the tag as Validate leaves them in the team.
pub record TeamNames : Type 0 where
  pub name : Text
  pub tag : Text

unfoldable pub clean_names : TeamNames → TeamNames
unfolding trim_space to_upper
clean_names t = record { name = trim_space t.name; tag = to_upper (trim_space t.tag) }

unfoldable pub validate_names : TeamNames → Option Error
unfolding matches_tag
validate_names t =
    let v = check [] (leb 2 (length t.name)) "name" "Give the team a name." in
    let v₁ = check v (leb (length t.name) 40) "name" "That team name is too long." in
    validation_err
      (check v₁ (matches_tag t.tag) "tag" "The tag should be 2 to 5 letters or numbers, like KTM.")

-- The runes that people put into a code when they read it aloud.
abbrev pub is_filler : ℕ → Bool
is_filler r = r == 32 || r == 45 || r == 95

unfoldable pub normalize_join_code : Text → Text
unfolding trim_space to_upper
normalize_join_code code = filter (λ r. not (is_filler r)) (to_upper (trim_space code))

unfoldable pub validate_join_code : Text → Option Error
unfolding normalize_join_code matches_join_code
validate_join_code code =
    if not (matches_join_code (normalize_join_code code))
    then some (invalid "join_code" "That doesn't look like a team code.")
    else none
