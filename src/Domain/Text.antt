-- ===== src/Domain/Text.antt =====
-- What internal/domain takes from the standard library's `strings`: a text is the list of its
-- runes, so that `len([]rune(s))` is its length.
use khel_arena.Prelude.{ℕ, Bool, true, false, ◌&&◌, ◌||◌, List, [], ◌∷◌, leb, ◌==◌, if◌then◌else◌}
use mathlib.Core.List.{reverse}

abbrev pub Text : Type 0
Text = List ℕ

-- `unicode.IsSpace`
unfoldable pub is_space : ℕ → Bool
is_space r =
    leb 9 r && leb r 13
    || r == 32
    || r == 0x85
    || r == 0xa0
    || r == 0x1680
    || leb 0x2000 r && leb r 0x200a
    || r == 0x2028
    || r == 0x2029
    || r == 0x202f
    || r == 0x205f
    || r == 0x3000

unfoldable pub trim_left : Text → Text
unfolding is_space
trim_left [] = []
trim_left (r ∷ rs) = let rest = trim_left rs in if is_space r then rest else r ∷ rs

-- `strings.TrimSpace`
unfoldable pub trim_space : Text → Text
unfolding trim_left
trim_space s = reverse (trim_left (reverse (trim_left s)))

-- `==` on texts.
unfoldable pub text_eq : Text → Text → Bool
text_eq [] [] = true
text_eq (r ∷ rs) (q ∷ qs) = r == q && text_eq rs qs
text_eq _ _ = false
