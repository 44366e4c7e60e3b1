-- ===== src/Domain/User.antt =====
-- The rule on passwords of internal/domain/user.go. Go's `len` counts the bytes of a text in UTF-8.
use khel_arena.Prelude.{
  ℕ, ◌+◌, Bool, true, false, Option, none, some, [], ◌∷◌, ltb, ◌==◌, if◌then◌else◌,
}
use khel_arena.Domain.Errors.{Error, invalid}
use khel_arena.Domain.Text.{Text, trim_space}

abbrev pub rune_len : ℕ → ℕ
rune_len r = if ltb r 0x80 then 1 else if ltb r 0x800 then 2 else if ltb r 0x10000 then 3 else 4

-- `len(s)`
unfoldable pub byte_length : Text → ℕ
byte_length [] = 0
byte_length (r ∷ rs) = rune_len r + byte_length rs

abbrev pub is_blank : Text → Bool
is_blank [] = true
is_blank (r ∷ rs) = false

abbrev pub min_password_length : ℕ
min_password_length = 10

abbrev pub max_password_length : ℕ
max_password_length = 256

unfoldable pub validate_password : Text → Option Error
unfolding byte_length trim_space
validate_password password =
    if byte_length password == 0
    then some (invalid "password" "A password is required.")
    else if ltb (byte_length password) min_password_length
    then some (invalid "password" "Use at least %d characters.")
    else if ltb max_password_length (byte_length password)
    then some (invalid "password" "Passwords can be at most %d characters.")
    else if is_blank (trim_space password)
    then some (invalid "password" "A password can't be only spaces.")
    else none
