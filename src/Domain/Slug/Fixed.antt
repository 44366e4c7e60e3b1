-- ===== src/Domain/Slug/Fixed.antt =====
-- A slug is what Slugify makes of it.
use khel_arena.Prelude.{ℕ, ◌≡◌, refl, Bool, true, false, [], ◌∷◌, arith, any, ltb, length}
use mathlib.Core.List.{reverse, reverse-reverse, reverse-cons, ◌++◌}
use khel_arena.Domain.Text.{Text, trim_space, trim_left, is_space}
use khel_arena.Domain.Slug.{
  is_hyphen, is_non_slug, replace_runs, drop_hyphens, cut_hyphens, trim_hyphens, shorten, slugify,
  matches_slug, valid_slug, spell, to_lower,
}

any-append :
    (p : ℕ → Bool) (s t : Text) → any p s ≡ false → any p t ≡ false → any p (s ++ t) ≡ false
any-append p [] t h k = k
any-append p (r ∷ rs) t h k = let rest = any-append p rs t (ground arith) k in ground arith

any-reverse : (p : ℕ → Bool) (s : Text) → any p s ≡ false → any p (reverse s) ≡ false
any-reverse p [] h = refl
any-reverse p (r ∷ rs) h =
    let here : p r ≡ false = ground arith in
    let rest = any-reverse p rs (ground arith) in
    rw (reverse-cons r rs) (any-append p (reverse rs) (r ∷ []) rest (rw here refl))

trim_left-fixed : (s : Text) → any is_space s ≡ false → trim_left s ≡ s
unfolding trim_left
trim_left-fixed [] h = refl
trim_left-fixed (r ∷ rs) h = let here : is_space r ≡ false = ground arith in rw here refl

trim_space-fixed : (s : Text) → any is_space s ≡ false → trim_space s ≡ s
unfolding trim_space
trim_space-fixed s h =
    rw (trim_left-fixed s h, trim_left-fixed (reverse s) (any-reverse is_space s h))
      (reverse-reverse s)

matches_slug-no_space : (due : Bool) (s : Text) → matches_slug due s ≡ true → any is_space s ≡ false
unfolding matches_slug is_space
matches_slug-no_space due [] h = refl
matches_slug-no_space due (r ∷ rs) h =
    let rest = matches_slug-no_space false rs in
    let rest₁ = matches_slug-no_space true rs in ground arith

to_lower-fixed : (due : Bool) (s : Text) → matches_slug due s ≡ true → to_lower s ≡ s
unfolding matches_slug to_lower
to_lower-fixed due [] h = refl
to_lower-fixed due (r ∷ rs) h =
    let rest = to_lower-fixed false rs in let rest₁ = to_lower-fixed true rs in ground arith

spell-fixed : (due : Bool) (s : Text) → matches_slug due s ≡ true → spell s ≡ s
unfolding matches_slug spell
spell-fixed due [] h = refl
spell-fixed due (r ∷ rs) h =
    let rest = spell-fixed false rs in let rest₁ = spell-fixed true rs in ground arith

non_slug-fixed :
    (due : Bool) (s : Text) → matches_slug due s ≡ true → replace_runs is_non_slug due s ≡ s
unfolding matches_slug replace_runs
non_slug-fixed due [] h = refl
non_slug-fixed due (r ∷ rs) h =
    let rest = non_slug-fixed false rs in let rest₁ = non_slug-fixed true rs in ground arith

hyphens-fixed :
    (due : Bool) (s : Text) → matches_slug due s ≡ true → replace_runs is_hyphen due s ≡ s
unfolding matches_slug replace_runs
hyphens-fixed due [] h = refl
hyphens-fixed due (r ∷ rs) h =
    let rest = hyphens-fixed false rs in let rest₁ = hyphens-fixed true rs in ground arith

matches_slug-weaken : (s : Text) → matches_slug true s ≡ true → matches_slug false s ≡ true
unfolding matches_slug
matches_slug-weaken [] h = refl
matches_slug-weaken (r ∷ rs) h = ground arith

drop_hyphens-fixed : (s : Text) → matches_slug true s ≡ true → drop_hyphens s ≡ s
unfolding matches_slug drop_hyphens
drop_hyphens-fixed [] h = refl
drop_hyphens-fixed (r ∷ rs) h = ground arith

cut_hyphens-fixed : (due : Bool) (s : Text) → matches_slug due s ≡ true → cut_hyphens s ≡ s
unfolding matches_slug cut_hyphens
cut_hyphens-fixed due [] h = refl
cut_hyphens-fixed due (r ∷ rs) h =
    let rest = cut_hyphens-fixed false rs in let rest₁ = cut_hyphens-fixed true rs in ground arith

-- A slug is what Slugify makes of it, so slugifying twice is slugifying once.
pub slugify-fixed : (s : Text) → valid_slug s ≡ true → slugify s ≡ s
unfolding slugify valid_slug trim_hyphens shorten
slugify-fixed s h =
    let word : matches_slug true s ≡ true = ground arith in
    let short : ltb 80 (length s) ≡ false = ground arith in
    let loose = matches_slug-weaken s word in
    rw
      (
        trim_space-fixed s (matches_slug-no_space true s word),
        to_lower-fixed true s word,
        spell-fixed true s word,
        non_slug-fixed false s loose,
        hyphens-fixed false s loose,
        drop_hyphens-fixed s word,
        cut_hyphens-fixed true s word,
        short,
      )
      refl
