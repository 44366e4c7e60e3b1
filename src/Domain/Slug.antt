-- ===== src/Domain/Slug.antt =====
-- Slugs of internal/domain/arena.go: the part of a web address that names a venue or a tournament.
--
-- `strings.ToLower` is written out for the runes whose lower case is an ASCII letter. Every other rune
-- is left as it is: its lower case is neither ASCII nor a space, and Slugify drops it. What is left is
-- ASCII, so that its bytes are its runes.
pub mod Shape
pub mod Fixed
use khel_arena.Prelude.{
  ℕ, ◌+◌, Bool, true, false, ◌&&◌, ◌||◌, not, [], ◌∷◌, map, leb, ltb, ◌==◌, if◌then◌else◌, length,
  take,
}
use khel_arena.Domain.Text.{Text, is_space, trim_space}
use khel_arena.Domain.User.{byte_length, is_blank}

abbrev pub lower_rune : ℕ → ℕ
lower_rune r =
    if leb 65 r && leb r 90
    then r + 32
    else if r == 0x130
    then 105
    else if r == 0x212a
    then 107
    else r

-- `strings.ToLower`
unfoldable pub to_lower : Text → Text
to_lower s = map lower_rune s

abbrev pub hyphen : ℕ
hyphen = 45

-- `[a-z0-9]`
abbrev pub is_slug_rune : ℕ → Bool
is_slug_rune r = leb 97 r && leb r 122 || leb 48 r && leb r 57

-- `r <= unicode.MaxASCII && (unicode.IsLetter(r) || unicode.IsDigit(r))`
abbrev pub is_ascii_word : ℕ → Bool
is_ascii_word r = is_slug_rune r || leb 65 r && leb r 90

-- What the loop of Slugify writes.
unfoldable pub spell : Text → Text
unfolding is_space
spell [] = []
spell (r ∷ rs) =
    let rest = spell rs in
    if is_ascii_word r
    then r ∷ rest
    else if is_space r || r == hyphen || r == 95
    then hyphen ∷ rest
    else rest

-- `ReplaceAllString(s, "-")` for a pattern that matches the maximal runs of some runes; `inside` says
-- that a run has begun.
unfoldable pub replace_runs : (ℕ → Bool) → Bool → Text → Text
replace_runs hit inside [] = []
replace_runs hit inside (r ∷ rs) =
    let within = replace_runs hit true rs in
    let beyond = replace_runs hit false rs in
    if hit r then (if inside then within else hyphen ∷ within) else r ∷ beyond

-- nonSlugRunes, `[^a-z0-9]+`
abbrev pub is_non_slug : ℕ → Bool
is_non_slug r = not (is_slug_rune r)

-- repeatedHyphens, `-{2,}`: one hyphen in place of two or more, so in place of any number.
abbrev pub is_hyphen : ℕ → Bool
is_hyphen r = r == hyphen

unfoldable pub drop_hyphens : Text → Text
drop_hyphens [] = []
drop_hyphens (r ∷ rs) = let rest = drop_hyphens rs in if is_hyphen r then rest else r ∷ rs

unfoldable pub cut_hyphens : Text → Text
cut_hyphens [] = []
cut_hyphens (r ∷ rs) =
    let rest = cut_hyphens rs in if is_hyphen r && is_blank rest then [] else r ∷ rest

-- `strings.Trim(s, "-")`
unfoldable pub trim_hyphens : Text → Text
unfolding drop_hyphens cut_hyphens
trim_hyphens s = cut_hyphens (drop_hyphens s)

-- `len(out) > 80`, and `out[:80]`
abbrev pub max_slug : ℕ
max_slug = 80

unfoldable pub shorten : Text → Text
unfolding trim_hyphens
shorten out = if ltb max_slug (length out) then trim_hyphens (take max_slug out) else out

-- Slugify
unfoldable pub slugify : Text → Text
unfolding trim_space to_lower spell replace_runs trim_hyphens shorten
slugify s =
    let b : Text = spell (to_lower (trim_space s)) in
    let out : Text = replace_runs is_hyphen false (replace_runs is_non_slug false b) in
    shorten (trim_hyphens out)

-- `^[a-z0-9]+(-[a-z0-9]+)*$`, read rune by rune; `due` says that no rune of a word has come since the
-- start or the last hyphen.
unfoldable pub matches_slug : Bool → Text → Bool
matches_slug due [] = not due
matches_slug due (r ∷ rs) =
    if is_slug_rune r then matches_slug false rs else not due && is_hyphen r && matches_slug true rs

-- ValidSlug
unfoldable pub valid_slug : Text → Bool
unfolding matches_slug
valid_slug s = not (is_blank s) && leb (length s) max_slug && matches_slug true s
