-- ===== src/Domain/Slug/Shape.antt =====
-- What Slugify makes is a slug, or nothing; and a slug is what Slugify makes of it.
use khel_arena.Prelude.{
  ℕ, zero, suc, ◌≡◌, refl, ◌≤◌, ◌⊎◌, inl, inr, Bool, true, false, ◌&&◌, ◌||◌, not, [], ◌∷◌, arith,
  ltb, Bool-cases, if◌then◌else◌, length, take, length-take, if-intro,
}
use khel_arena.Domain.Text.{Text, trim_space}
use khel_arena.Domain.User.{is_blank}
use khel_arena.Domain.Slug.{
  is_slug_rune, replace_runs, is_non_slug, is_hyphen, drop_hyphens, cut_hyphens, trim_hyphens,
  max_slug, shorten, slugify, matches_slug, valid_slug, spell, to_lower,
}

-- Words and single hyphens; `after` says that the rune before was a hyphen.
unfoldable is_loose : Bool → Text → Bool
is_loose after [] = true
is_loose after (r ∷ rs) =
    if is_slug_rune r then is_loose false rs else not after && is_hyphen r && is_loose true rs

-- A text of words and hyphens.
unfoldable is_spelt : Text → Bool
is_spelt [] = true
is_spelt (r ∷ rs) = (if is_slug_rune r then true else is_hyphen r) && is_spelt rs

replace_runs-spelt :
    (inside : Bool) (s : Text) → is_spelt (replace_runs is_non_slug inside s) ≡ true
unfolding is_spelt replace_runs
replace_runs-spelt inside [] = refl
replace_runs-spelt inside (r ∷ rs) =
    let rest₁ = replace_runs-spelt true rs in
    let rest₂ = replace_runs-spelt false rs in ground arith

replace_runs-loose :
    (inside : Bool) (s : Text)
    → is_spelt s ≡ true
    → is_loose inside (replace_runs is_hyphen inside s) ≡ true
unfolding is_loose is_spelt replace_runs
replace_runs-loose inside [] h = refl
replace_runs-loose inside (r ∷ rs) h =
    let rest₁ = replace_runs-loose true rs (ground arith) in
    let rest₂ = replace_runs-loose false rs (ground arith) in ground arith

is_loose-weaken : (s : Text) → is_loose true s ≡ true → is_loose false s ≡ true
unfolding is_loose
is_loose-weaken [] h = refl
is_loose-weaken (r ∷ rs) h = ground arith

drop_hyphens-loose :
    (after : Bool) (s : Text) → is_loose after s ≡ true → is_loose true (drop_hyphens s) ≡ true
unfolding is_loose drop_hyphens
drop_hyphens-loose after [] h = refl
drop_hyphens-loose after (r ∷ rs) h = elim (Bool-cases (is_hyphen r)) [
  | inl dash ↦ rw dash (drop_hyphens-loose true rs (ground arith))
  | inr word ↦ ground arith
]

-- What is cut on the right is a slug from where it stands, or nothing.
cut_hyphens-matches :
    (after : Bool) (s : Text)
    → is_loose after s ≡ true
    → (is_blank (cut_hyphens s) || matches_slug after (cut_hyphens s)) ≡ true
unfolding is_loose cut_hyphens matches_slug
cut_hyphens-matches after [] h = refl
cut_hyphens-matches after (r ∷ rs) h =
    let rest₁ = cut_hyphens-matches true rs in
    let rest₂ = cut_hyphens-matches false rs in ground arith

matches_slug-loose : (due : Bool) (s : Text) → matches_slug due s ≡ true → is_loose due s ≡ true
unfolding is_loose matches_slug
matches_slug-loose due [] h = refl
matches_slug-loose due (r ∷ rs) h =
    let rest = matches_slug-loose false rs in let rest₁ = matches_slug-loose true rs in ground arith

take-loose :
    (n : ℕ) (after : Bool) (s : Text) → is_loose after s ≡ true → is_loose after (take n s) ≡ true
unfolding is_loose
take-loose zero after s h = refl
take-loose (suc n) after [] h = refl
take-loose (suc n) after (r ∷ rs) h =
    let rest = take-loose n false rs in let rest₁ = take-loose n true rs in ground arith

-- Nothing, or a slug of any length.
abbrev is_word : Text → Bool
is_word s = is_blank s || matches_slug true s

trim_hyphens-word :
    (after : Bool) (s : Text) → is_loose after s ≡ true → is_word (trim_hyphens s) ≡ true
unfolding trim_hyphens
trim_hyphens-word after s h =
    cut_hyphens-matches true (drop_hyphens s) (drop_hyphens-loose after s h)

length-cut_hyphens : (s : Text) → length (cut_hyphens s) ≤ length s
unfolding cut_hyphens
length-cut_hyphens [] = omega arith
length-cut_hyphens (r ∷ rs) = let rest = length-cut_hyphens rs in ground arith

length-drop_hyphens : (s : Text) → length (drop_hyphens s) ≤ length s
unfolding drop_hyphens
length-drop_hyphens [] = omega arith
length-drop_hyphens (r ∷ rs) = let rest = length-drop_hyphens rs in ground arith

length-trim_hyphens : (s : Text) → length (trim_hyphens s) ≤ length s
unfolding trim_hyphens
length-trim_hyphens s = omega (arith, length-drop_hyphens s, length-cut_hyphens (drop_hyphens s))

word-valid :
    (s : Text) → is_word s ≡ true → length s ≤ max_slug → (is_blank s || valid_slug s) ≡ true
unfolding valid_slug
word-valid [] h k = refl
word-valid (r ∷ rs) h k = rw h (ground arith)

not_above : (m n : ℕ) → ltb n m ≡ false → m ≤ n
not_above m n h = ground arith

shorten-valid :
    (s : Text) → is_word s ≡ true → (is_blank (shorten s) || valid_slug (shorten s)) ≡ true
unfolding shorten
shorten-valid [] h = refl
shorten-valid (r ∷ rs) h =
    let s : Text = r ∷ rs in
    let loose = take-loose max_slug true s (matches_slug-loose true s h) in
    if-intro (λ x. (is_blank x || valid_slug x) ≡ true) (ltb max_slug (length s)) _ _
      (λ long.
        word-valid (trim_hyphens (take max_slug s)) (trim_hyphens-word true (take max_slug s) loose)
          (omega (arith, length-trim_hyphens (take max_slug s), length-take max_slug s)))
      λ fits. word-valid s h (not_above (length s) max_slug fits)

blank_or : (s : Text) → (is_blank s || valid_slug s) ≡ true → (s ≡ []) ⊎ (valid_slug s ≡ true)
blank_or [] h = inl refl
blank_or (r ∷ rs) h = inr h

-- Slugify makes a slug that ValidSlug accepts, or nothing at all.
pub slugify-valid : (s : Text) → (slugify s ≡ []) ⊎ (valid_slug (slugify s) ≡ true)
unfolding slugify
slugify-valid s =
    let b = spell (to_lower (trim_space s)) in
    let once = replace_runs is_non_slug false b in
    let loose = replace_runs-loose false once (replace_runs-spelt false b) in
    let word = trim_hyphens-word false (replace_runs is_hyphen false once) loose in
    blank_or (slugify s) (shorten-valid _ word)
