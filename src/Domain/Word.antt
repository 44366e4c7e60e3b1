-- ===== src/Domain/Word.antt =====
-- Go's integers of fixed width: what `int` and int32() keep of a whole number, in two's complement.
use khel_arena.Prelude.{
  ℕ, ◌-◌, ◌*◌, ◌%◌, ◌^◌, ◌<◌, ◌≡◌, refl, arith, ℤ, pos, negsuc, ltb, if◌then◌else◌, true,
}

-- The number whose bits, of `2 * half` values, are those of m.
abbrev signed : ℕ → ℕ → ℤ
signed half m = if ltb m half then pos m else negsuc (2 * half - 1 - m)

-- An `int` of 64 bits.
unfoldable pub wrap64 : ℤ → ℤ
wrap64 (pos n) = signed (2 ^ 63) (n % (2 ^ 64))
wrap64 (negsuc n) = signed (2 ^ 63) (2 ^ 64 - 1 - n % (2 ^ 64))

-- `int32(v)`
unfoldable pub wrap32 : ℤ → ℤ
wrap32 (pos n) = signed (2 ^ 31) (n % (2 ^ 32))
wrap32 (negsuc n) = signed (2 ^ 31) (2 ^ 32 - 1 - n % (2 ^ 32))

pub wrap64-pos : (n : ℕ) → n < 2 ^ 63 → wrap64 (pos n) ≡ pos n
unfolding wrap64
wrap64-pos n h =
    let same : n % (2 ^ 64) ≡ n = omega arith in
    let small : ltb n (2 ^ 63) ≡ true = ground arith in rw (same, small) refl
