-- ===== src/Domain/Tournament/Prizes.antt =====
-- What PrizeFor promises of a split that Validate accepts, where the numbers are those of the columns.
pub mod Split
use khel_arena.Prelude.{
  ℕ, zero, suc, ◌+◌, ◌*◌, ◌/◌, ◌-◌, ◌^◌, ◌≤◌, ◌<◌, ◌≡◌, refl, ap, Option, none, some, List, [], ◌∷◌,
  arith, ℤ, pos, negsuc, pos_part, neg_part, ◌+ℤ◌, ◌*ℤ◌, ◌≤ℤ◌, ◌⊎◌, inl, inr, ◌∙◌, Bool-cases, ltb,
  length, All, pos-mul, pos-add,
}
use khel_arena.Domain.Word.{wrap64, wrap64-pos}
use native.Mathlib.Nat.{mul-add, mul-le-mul_left}
use khel_arena.Domain.Tournament.{
  Tournament, check_shares, validate_prize_split, share_at, hundredth, prize_for,
}
use khel_arena.Domain.Tournament.Prizes.Split.{
  IsInt32, IsShare, total_share, first_shares, first_shares-suc, first_shares-total_share,
  split-total_share, share_at-total_share, share_at-IsShare, split-descends,
}

-- What the places down to the n-th win together.
abbrev pub paid_out : Tournament → ℕ → ℤ
paid_out t zero = pos 0
paid_out t (suc n) = paid_out t n +ℤ prize_for t (pos (suc n))

hundredth-floor :
    (p : ℕ) (s : ℤ)
    → p < 2 ^ 31
    → IsShare s
    → pos_part s ≤ 100
    → (q : ℕ) × (hundredth (wrap64 (pos p *ℤ s)) ≡ pos q)
      × (100 * q ≤ p * pos_part s)
      × (p * pos_part s < 100 * q + 100)
unfolding hundredth
hundredth-floor p (pos s) pool share most =
    let product : p * s ≤ p * 100 = mul-le-mul_left p most in
    let exact : wrap64 (pos p *ℤ pos s) ≡ pos (p * s) =
      ap wrap64 (pos-mul p s) ∙ wrap64-pos (p * s) (omega (arith, product, pool)) in
    (p * s / 100, ap hundredth exact, omega arith, omega arith)
hundredth-floor p (negsuc s) pool share most = ground arith

share_at-beyond : (ss : List ℤ) (n : ℕ) → length ss ≤ n → pos_part (share_at ss n) ≡ 0
share_at-beyond [] n h = refl
share_at-beyond (s ∷ ss) zero h = omega (arith, h)
share_at-beyond (s ∷ ss) (suc n) h = share_at-beyond ss n (omega (arith, h))

-- A place that is not in the split wins nothing.
prize_for-cases :
    (t : Tournament) (n : ℕ)
    → (prize_for t (pos (suc n)) ≡ pos 0) × (length t.prize_split ≤ n)
      ⊎ (prize_for t (pos (suc n))
          ≡ hundredth (wrap64 (t.prize_pool_npr *ℤ share_at t.prize_split n)))
unfolding prize_for
prize_for-cases t n =
    let index : suc n - 1 ≡ n = omega arith in
    elim (Bool-cases (ltb (length t.prize_split) (suc n))) [
      | inl beyond ↦ inl (ground arith, ground arith)
      | inr within ↦ inr (ground arith)
    ]

-- A tournament whose split was accepted, with a pool of p rupees.
record IsShared (t : Tournament) (p : ℕ) : Type 0 where
  pool : t.prize_pool_npr ≡ pos p
  narrow : p < 2 ^ 31
  shares : All IsShare t.prize_split
  sum : total_share t.prize_split ≡ 100

-- A place wins a whole number of rupees, and no more than its share.
prize_for-floor :
    (t : Tournament) (p n : ℕ)
    → IsShared t p
    → (q : ℕ) × (prize_for t (pos (suc n)) ≡ pos q)
      × (100 * q ≤ p * pos_part (share_at t.prize_split n))
      × (p * pos_part (share_at t.prize_split n) < 100 * q + 100)
prize_for-floor t p n shared =
    let (q, exact, floor, above) =
      hundredth-floor p (share_at t.prize_split n) shared.narrow
        (share_at-IsShare t.prize_split n shared.shares)
        (omega (arith, share_at-total_share t.prize_split n, shared.sum)) in
    elim (prize_for-cases t n) [
      | inl (nothing, beyond) ↦ (
        0,
        nothing,
        omega arith,
        omega (arith, ap (λ x. p * x) (share_at-beyond t.prize_split n beyond)),
      )
      | inr share ↦ (
        q,
        share ∙ ap (λ m. hundredth (wrap64 (m *ℤ share_at t.prize_split n))) shared.pool ∙ exact,
        floor,
        above,
      )
    ]

below_sum :
    (p q r a b : ℕ) {c : ℕ} → c ≡ a + b → 100 * q ≤ p * a → 100 * r ≤ p * b → 100 * (q + r) ≤ p * c
below_sum p q r a b c_eq hq hr = omega (arith, ap (λ x. p * x) c_eq, mul-add p a b)

paid_out-floor :
    (t : Tournament) (p n : ℕ)
    → IsShared t p
    → (q : ℕ) × (paid_out t n ≡ pos q) × (100 * q ≤ p * first_shares t.prize_split n)
paid_out-floor t p zero shared = (0, refl, omega arith)
paid_out-floor t p (suc n) shared =
    let (q, exact, floor) = paid_out-floor t p n shared in
    let (r, prize, floor_r, above_r) = prize_for-floor t p n shared in
    (
      q + r,
      ap (λ x. x +ℤ prize_for t (pos (suc n))) exact ∙ ap (λ x. pos q +ℤ x) prize ∙ pos-add q r,
      below_sum p q r _ _ (first_shares-suc t.prize_split n) floor floor_r,
    )

nonneg-pos : (z : ℤ) → pos 0 ≤ℤ z → z ≡ pos (pos_part z)
nonneg-pos (pos n) h = refl
nonneg-pos (negsuc n) h = ground arith

within_pool :
    {paid pool : ℤ} (p q shares : ℕ)
    → paid ≡ pos q
    → pool ≡ pos p
    → 100 * q ≤ p * shares
    → shares ≤ 100
    → (pos 0 ≤ℤ paid) × (paid ≤ℤ pool)
within_pool {paid = paid} {pool = pool} p q shares paid_eq pool_eq floor most =
    let paid_pos : pos_part paid ≡ q = ap pos_part paid_eq in
    let paid_neg : neg_part paid ≡ 0 = ap neg_part paid_eq in
    let pool_pos : pos_part pool ≡ p = ap pos_part pool_eq in
    let pool_neg : neg_part pool ≡ 0 = ap neg_part pool_eq in
    let at_most : p * shares ≤ p * 100 = mul-le-mul_left p most in (omega arith, omega arith)

stored-IsShared :
    (t : Tournament)
    → IsInt32 t.prize_pool_npr
    → All IsInt32 t.prize_split
    → validate_prize_split t.prize_split ≡ none
    → pos 0 ≤ℤ t.prize_pool_npr
    → IsShared t (pos_part t.prize_pool_npr)
stored-IsShared t narrow fits valid solvent =
    let (shares, sum) = split-total_share t.prize_split fits valid in
    record {
      pool = nonneg-pos t.prize_pool_npr solvent;
      narrow = narrow.0;
      shares = shares;
      sum = sum;
    }

-- `PrizeFor` never commits more than the pool: where the pool and the shares fit the columns of 32 bits,
-- the split passes `validatePrizeSplit` and the pool is not negative, the first n places together win
-- from 0 to the whole pool, for every n.
pub paid_out-within_pool :
    (t : Tournament) (n : ℕ)
    → IsInt32 t.prize_pool_npr
    → All IsInt32 t.prize_split
    → validate_prize_split t.prize_split ≡ none
    → pos 0 ≤ℤ t.prize_pool_npr
    → (pos 0 ≤ℤ paid_out t n) × (paid_out t n ≤ℤ t.prize_pool_npr)
paid_out-within_pool t n narrow fits valid solvent =
    let p = pos_part t.prize_pool_npr in
    let shared = stored-IsShared t narrow fits valid solvent in
    let (q, exact, floor) = paid_out-floor t p n shared in
    within_pool p q _ exact shared.pool floor
      (omega (arith, shared.sum, first_shares-total_share t.prize_split n))

prize_order :
    {lower higher : ℤ} (p q r s t : ℕ)
    → lower ≡ pos r
    → higher ≡ pos q
    → 100 * r ≤ p * s
    → p * t < 100 * q + 100
    → s ≤ t
    → lower ≤ℤ higher
prize_order {lower = lower} {higher = higher} p q r s t lower_eq higher_eq floor above h =
    let lower_pos : pos_part lower ≡ r = ap pos_part lower_eq in
    let lower_neg : neg_part lower ≡ 0 = ap neg_part lower_eq in
    let higher_pos : pos_part higher ≡ q = ap pos_part higher_eq in
    let higher_neg : neg_part higher ≡ 0 = ap neg_part higher_eq in
    let at_most : p * s ≤ p * t = mul-le-mul_left p h in omega arith

-- No place wins more than the one above it, rounding included: where the pool and the shares fit the
-- columns of 32 bits, the split passes `validatePrizeSplit` and the pool is not negative, the prize for
-- place n + 2 is at most the prize for place n + 1.
pub prize_for-descends :
    (t : Tournament) (n : ℕ)
    → IsInt32 t.prize_pool_npr
    → All IsInt32 t.prize_split
    → validate_prize_split t.prize_split ≡ none
    → pos 0 ≤ℤ t.prize_pool_npr
    → prize_for t (pos (suc (suc n))) ≤ℤ prize_for t (pos (suc n))
prize_for-descends t n narrow fits valid solvent =
    let p = pos_part t.prize_pool_npr in
    let shared = stored-IsShared t narrow fits valid solvent in
    let (q, higher, floor, above) = prize_for-floor t p n shared in
    let (r, lower, floor_r, above_r) = prize_for-floor t p (suc n) shared in
    prize_order p q r _ _ lower higher floor_r above (split-descends t.prize_split n valid)
