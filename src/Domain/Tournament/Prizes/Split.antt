-- ===== src/Domain/Tournament/Prizes/Split.antt =====
-- What validatePrizeSplit accepts: shares that fill a hundred, none more than the one above it.
use khel_arena.Prelude.{
  ℕ, zero, suc, ◌+◌, ◌*◌, ◌^◌, ◌≤◌, ◌<◌, ◌≡◌, refl, ap, Option, none, some, List, [], ◌∷◌, arith, ℤ,
  pos, negsuc, pos_part, neg_part, ◌+ℤ◌, ◌∙◌, length, All, pos-add,
}
use khel_arena.Domain.Word.{wrap64, wrap64-pos}
use khel_arena.Domain.Tournament.{check_shares, validate_prize_split, share_at}

abbrev pub IsShare : ℤ → Type 0
IsShare s = neg_part s ≡ 0

-- A number that a column of type `int` holds.
abbrev pub IsInt32 : ℤ → Type 0
IsInt32 z = (pos_part z < 2 ^ 31) × (neg_part z ≤ 2 ^ 31)

abbrev pub total_share : List ℤ → ℕ
total_share [] = 0
total_share (s ∷ ss) = pos_part s + total_share ss

abbrev pub first_shares : List ℤ → ℕ → ℕ
first_shares ss zero = 0
first_shares [] (suc n) = 0
first_shares (s ∷ ss) (suc n) = pos_part s + first_shares ss n

pub first_shares-suc :
    (ss : List ℤ) (n : ℕ) → first_shares ss (suc n) ≡ first_shares ss n + pos_part (share_at ss n)
first_shares-suc [] zero = refl
first_shares-suc [] (suc n) = refl
first_shares-suc (s ∷ ss) zero = omega arith
first_shares-suc (s ∷ ss) (suc n) = omega (arith, first_shares-suc ss n)

pub first_shares-total_share : (ss : List ℤ) (n : ℕ) → first_shares ss n ≤ total_share ss
first_shares-total_share ss zero = omega arith
first_shares-total_share [] (suc n) = omega arith
first_shares-total_share (s ∷ ss) (suc n) = omega (arith, first_shares-total_share ss n)

-- There is room in 64 bits for as many shares of 32 bits as there are.
abbrev HasRoom : ℕ → List ℤ → Type 0
HasRoom total ss = All IsInt32 ss × (total + length ss * 2 ^ 31 < 2 ^ 63)

-- The sum of the loop does not wrap around.
sum_step :
    (total s : ℕ) (ss : List ℤ)
    → HasRoom total (pos s ∷ ss)
    → HasRoom (total + s) ss × (wrap64 (pos total +ℤ pos s) ≡ pos (total + s))
sum_step total s ss ((small, fits), room) =
    let below : s < 2 ^ 31 = small.0 in
    (
      (fits, omega (arith, below, room)),
      ap wrap64 (pos-add total s) ∙ wrap64-pos (total + s) (omega (arith, below, room)),
    )

-- The loop accepts only shares that are not negative, and that fill what is left of the hundred.
check_shares-total_share :
    (above : Option ℤ) (total : ℕ) (ss : List ℤ)
    → HasRoom total ss
    → check_shares above (pos total) ss ≡ none
    → All IsShare ss × (total + total_share ss ≡ 100)
unfolding check_shares
check_shares-total_share above total [] room h = (tt, ground arith)
check_shares-total_share above total (pos s ∷ ss) room h =
    let (room', exact) = sum_step total s ss room in
    let rest : check_shares (some (pos s)) (wrap64 (pos total +ℤ pos s)) ss ≡ none = ground arith in
    let (shares, sum) =
      check_shares-total_share (some (pos s)) (total + s) ss room' (rw exact at rest) in
    ((refl, shares), omega (arith, sum))
check_shares-total_share above total (negsuc s ∷ ss) room h = ground arith

-- What an accepted split passes: it has at most eight shares, and the loop accepts them.
split-loop :
    (ss : List ℤ)
    → All IsInt32 ss
    → validate_prize_split ss ≡ none
    → HasRoom 0 ss × (check_shares none (pos 0) ss ≡ none)
unfolding validate_prize_split
split-loop [] fits h = ground arith
split-loop (s ∷ ss) fits h =
    let few : length (s ∷ ss) ≤ 8 = ground arith in ((fits, omega (arith, few)), ground arith)

pub split-total_share :
    (ss : List ℤ)
    → All IsInt32 ss
    → validate_prize_split ss ≡ none
    → All IsShare ss × (total_share ss ≡ 100)
split-total_share ss fits h =
    let (room, loop) = split-loop ss fits h in
    let (shares, sum) = check_shares-total_share none 0 ss room loop in (shares, omega (arith, sum))

-- A share of a split that fills a hundred is at most that.
pub share_at-total_share : (ss : List ℤ) (n : ℕ) → pos_part (share_at ss n) ≤ total_share ss
share_at-total_share [] n = omega arith
share_at-total_share (s ∷ ss) zero = omega arith
share_at-total_share (s ∷ ss) (suc n) = omega (arith, share_at-total_share ss n)

pub share_at-IsShare : (ss : List ℤ) (n : ℕ) → All IsShare ss → IsShare (share_at ss n)
share_at-IsShare [] n shares = refl
share_at-IsShare (s ∷ ss) zero (share, shares) = share
share_at-IsShare (s ∷ ss) (suc n) (share, shares) = share_at-IsShare ss n shares

-- The loop accepts only shares none of which exceeds the one above it.
check_shares-descends :
    (above : Option ℤ) (total : ℤ) (ss : List ℤ) (n : ℕ)
    → check_shares above total ss ≡ none
    → pos_part (share_at ss (suc n)) ≤ pos_part (share_at ss n)
unfolding check_shares
check_shares-descends above total [] n h = omega arith
check_shares-descends above total (pos s ∷ []) n h = omega arith
check_shares-descends above total (pos s ∷ pos r ∷ ss) zero h = ground arith
check_shares-descends above total (pos s ∷ negsuc r ∷ ss) zero h = ground arith
check_shares-descends above total (pos s ∷ r ∷ ss) (suc n) h =
    check_shares-descends (some (pos s)) (wrap64 (total +ℤ pos s)) (r ∷ ss) n (ground arith)
check_shares-descends above total (negsuc s ∷ ss) n h = ground arith

pub split-descends :
    (ss : List ℤ) (n : ℕ)
    → validate_prize_split ss ≡ none
    → pos_part (share_at ss (suc n)) ≤ pos_part (share_at ss n)
unfolding validate_prize_split
split-descends [] n h = omega arith
split-descends (s ∷ ss) n h = check_shares-descends none (pos 0) (s ∷ ss) n (ground arith)
