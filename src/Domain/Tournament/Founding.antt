-- ===== src/Domain/Tournament/Founding.antt =====
-- Validate of internal/domain/tournament.go: what a new tournament may look like.
use khel_arena.Prelude.{
  ℕ, zero, suc, ◌+◌, ◌-◌, ◌*◌, ◌/◌, ◌%◌, Bool, ◌&&◌, ◌||◌, not, Option, none, some, List, [], ◌∷◌,
  ◌++◌, ℤ, pos, pos_part, leb_ℤ, ltb_ℤ, leb, ◌==◌, String, if◌then◌else◌, length,
}
use text.Mathlib.Text.{◌==◌ as str_eq}
use khel_arena.Domain.Errors.{Error, Validation, check, validation_err, field_errors}
use khel_arena.Domain.Text.{Text, trim_space}
use khel_arena.Domain.User.{is_blank}
use khel_arena.Domain.Slug.{slugify, valid_slug}
use khel_arena.Domain.Arena.{validate_enum, note}
use khel_arena.Domain.Tournament.{validate_prize_split}

-- The tournament that an organiser describes. A date is its first instant, and 0 the zero date.
pub record Draft : Type 0 where
  pub name : Text
  pub slug : Text
  pub format : String
  pub side_count : ℤ
  pub squad_cap : ℤ
  pub max_teams : ℤ
  pub entry_fee_npr : ℤ
  pub prize_pool_npr : ℤ
  pub prize_split : List ℤ
  pub skill : String
  pub description : Text
  pub rules : Text
  pub starts_on : ℕ
  pub register_by : ℕ

abbrev pub default_split : List ℤ
default_split = pos 60 ∷ pos 30 ∷ pos 10 ∷ []

abbrev split_or_default : List ℤ → List ℤ
split_or_default [] = default_split
split_or_default (share ∷ shares) = share ∷ shares

-- The tournament as Validate leaves it.
unfoldable pub clean_draft : Draft → Draft
unfolding trim_space slugify
clean_draft t =
    let name : Text = trim_space t.name in
    record t {
      name = name;
      slug = if is_blank t.slug then slugify name else t.slug;
      format = if str_eq t.format "" then "knockout" else t.format;
      skill = if str_eq t.skill "" then "casual" else t.skill;
      prize_split = split_or_default t.prize_split;
    }

-- The bitwise `&` of two numbers below 2 ^ bits.
unfoldable pub bit_and : ℕ → ℕ → ℕ → ℕ
bit_and zero a b = 0
bit_and (suc bits) a b = (a % 2) * (b % 2) + 2 * bit_and bits (a / 2) (b / 2)

-- `n > 0 && n&(n-1) != 0`, on 64 bits.
unfoldable pub needs_byes : ℤ → Bool
unfolding bit_and
needs_byes n = ltb_ℤ (pos 0) n && not (bit_and 64 (pos_part n) (pos_part n - 1) == 0)

abbrev pub tiers : List String
tiers = "casual" ∷ "intermediate" ∷ "competitive" ∷ "semi_pro" ∷ []

abbrev pub formats : List String
formats = "knockout" ∷ "league" ∷ "group_knockout" ∷ []

-- `v.fields = append(v.fields, err.(*Error))`
abbrev pub note_error : Validation → Option Error → Validation
note_error v none = v
note_error v (some e) = v ++ field_errors e

unfoldable pub validate_draft : Draft → Option Error
unfolding valid_slug validate_enum validate_prize_split needs_byes
validate_draft t =
    let v = check [] (leb 4 (length t.name)) "name" "Give the tournament a name." in
    let v₁ = check v (leb (length t.name) 80) "name" "That name is too long." in
    let v₂ =
      check v₁ (valid_slug t.slug) "slug"
        "The web address may use lowercase letters, numbers and hyphens only." in
    let v₃ =
      check v₂ (leb_ℤ (pos 4) t.side_count && leb_ℤ t.side_count (pos 7)) "side_count"
        "Tournaments run from 4 to 7 a side." in
    let v₄ =
      check v₃ (leb_ℤ (pos 5) t.squad_cap && leb_ℤ t.squad_cap (pos 15)) "squad_cap"
        "Squad size must be between 5 and 15." in
    let v₅ =
      check v₄ (leb_ℤ (pos 4) t.max_teams && leb_ℤ t.max_teams (pos 32)) "max_teams"
        "A bracket takes between 4 and 32 teams." in
    let v₆ =
      check v₅ (leb_ℤ t.side_count t.squad_cap) "squad_cap"
        "The squad must be at least as large as a team on the pitch." in
    let v₇ =
      check v₆ (leb_ℤ (pos 0) t.entry_fee_npr) "entry_fee_npr" "The entry fee can't be negative." in
    let v₈ =
      check v₇ (leb_ℤ (pos 0) t.prize_pool_npr) "prize_pool_npr"
        "The prize pool can't be negative." in
    let v₉ =
      check v₈ (leb (length t.description) 500) "description"
        "Keep the description under 500 characters." in
    let v₁₀ =
      check v₉ (leb (length t.rules) 2000) "rules" "Keep the rules under 2000 characters." in
    let v₁₁ = note v₁₀ (validate_enum "format" t.format formats) in
    let v₁₂ = note v₁₁ (validate_enum "skill" t.skill tiers) in
    let v₁₃ = check v₁₂ (not (t.starts_on == 0)) "starts_on" "When does the tournament start?" in
    let v₁₄ = check v₁₃ (not (t.register_by == 0)) "register_by" "When does registration close?" in
    let v₁₅ =
      check v₁₄ (t.starts_on == 0 || t.register_by == 0 || leb t.register_by t.starts_on)
        "register_by" "Registration has to close on or before the first match." in
    let v₁₆ = note_error v₁₅ (validate_prize_split t.prize_split) in
    validation_err (
      check v₁₆ (not (str_eq t.format "knockout" && needs_byes t.max_teams)) "max_teams"
        "A knockout bracket needs 4, 8, 16 or 32 teams.")
