-- ===== src/Domain/Pricing/Laws.antt =====
-- The rule that `ResolvePrice` charges by: it covers the start, and no covering rule beats it.
use khel_arena.Prelude.{
  ℕ, ◌≡◌, refl, sym, ◌∙◌, ◌*ℤ◌, ◌⊎◌, inl, inr, true, false, Option, none, some, List, [], ◌∷◌,
  arith, ℤ, pos_part, neg_part, ◌+◌, ◌<ℤ◌, ◌≤ℤ◌, Any, All, Bool-cases, Option-cases, some-eq, eq_ℤ,
}
use mathlib.Core.Path.{subst}
use khel_arena.Domain.Slot.Clock.{Location}
use khel_arena.Domain.Slot.Interval.{Slot, hours}
use khel_arena.Domain.Pricing.{
  PricingRule, covers, beats, is_better, span, pick_from, pick_rule, resolve_price,
}

-- `beats` is a strict order: no two rules beat each other.
pub beats_asymm : (a b : PricingRule) → beats a b ≡ true → beats b a ≡ false
unfolding beats
beats_asymm a b h = ground arith

-- Equal integers, as equal sums of their parts.
abbrev Same : ℤ → ℤ → Type 0
Same a b = pos_part a + neg_part b ≡ pos_part b + neg_part a

-- The order that `beats` tests, read off its three keys: a is as good as b.
abbrev AsGood : ℤ → ℤ → ℤ → ℤ → ℤ → ℤ → Type 0
AsGood priority_a span_a price_a priority_b span_b price_b =
    (priority_b <ℤ priority_a)
    ⊎ Same priority_a priority_b × ((span_a <ℤ span_b) ⊎ Same span_a span_b × (price_b ≤ℤ price_a))

AsGood-trans :
    (p q r s t u x y z : ℤ) → AsGood p q r s t u → AsGood s t u x y z → AsGood p q r x y z
AsGood-trans p q r s t u x y z (inl h) (inl k) = inl (omega arith)
AsGood-trans p q r s t u x y z (inl h) (inr k) = inl (omega (arith, k.0))
AsGood-trans p q r s t u x y z (inr h) (inl k) = inl (omega (arith, h.0))
AsGood-trans p q r s t u x y z (inr (e, inl h)) (inr (f, inl k)) =
    inr (omega arith, inl (omega arith))
AsGood-trans p q r s t u x y z (inr (e, inl h)) (inr (f, inr k)) =
    inr (omega arith, inl (omega (arith, k.0)))
AsGood-trans p q r s t u x y z (inr (e, inr h)) (inr (f, inl k)) =
    inr (omega arith, inl (omega (arith, h.0)))
AsGood-trans p q r s t u x y z (inr (e, inr h)) (inr (f, inr k)) =
    inr (omega arith, inr (omega (arith, h.0, k.0), omega (arith, h.1, k.1)))

beats-AsGood :
    (a b : PricingRule)
    → beats b a ≡ false
    → AsGood a.priority (span a) a.price_npr b.priority (span b) b.price_npr
unfolding beats
beats-AsGood a b h = elim (Bool-cases (eq_ℤ b.priority a.priority)) [
  | inl same ↦ elim (Bool-cases (eq_ℤ (span b) (span a))) [
    | inl equal ↦ inr (ground arith, inr (ground arith, ground arith))
    | inr differ ↦ inr (ground arith, inl (ground arith))
  ]
  | inr differ ↦ inl (ground arith)
]

AsGood-beats :
    (a b : PricingRule)
    → AsGood a.priority (span a) a.price_npr b.priority (span b) b.price_npr
    → beats b a ≡ false
unfolding beats
AsGood-beats a b h = ground arith

-- A rule that is not beaten by one that is not beaten by a third is not beaten by the third.
not_beats_trans : (a b c : PricingRule) → beats b a ≡ false → beats c b ≡ false → beats c a ≡ false
not_beats_trans a b c h k = AsGood-beats a c (
    AsGood-trans a.priority (span a) a.price_npr b.priority (span b) b.price_npr c.priority (span c)
      c.price_npr (beats-AsGood a b h) (beats-AsGood b c k))

not_beats_refl : (a : PricingRule) → beats a a ≡ false
unfolding beats
not_beats_refl a = ground arith

module _ (t : ℕ) (loc : Location) where
  -- `r` does not beat the rule that was found, or does not cover the instant.
  abbrev Loses : Option PricingRule → PricingRule → Type 0
  Loses best r = (covers r t loc ≡ true) → is_better r best ≡ false

  -- What the loop keeps: the best rule so far, if any, comes from the rules seen and covers.
  abbrev Found : List PricingRule → PricingRule → Type 0
  Found rules b = (covers b t loc ≡ true) × Any (λ r. r ≡ b) rules

  Found-here :
      (r : PricingRule) (rules : List PricingRule) {b : PricingRule}
      → covers r t loc ≡ true
      → (b ≡ r) ⊎ Found rules b
      → Found (r ∷ rules) b
  Found-here r rules c (inl e) = (rw e c, inl (sym e))
  Found-here r rules c (inr (d, m)) = (d, inr m)

  Found-later :
      (r best : PricingRule) (rules : List PricingRule) {b : PricingRule}
      → (b ≡ best) ⊎ Found rules b
      → (b ≡ best) ⊎ Found (r ∷ rules) b
  Found-later r best rules (inl e) = inl e
  Found-later r best rules (inr (d, m)) = inr (d, inr m)

  pick_from_keeps :
      (best : PricingRule) (rules : List PricingRule)
      → (b : PricingRule) × (pick_from (some best) rules t loc ≡ some b)
        × (beats best b ≡ false)
        × ((b ≡ best) ⊎ Found rules b)
        × All (Loses (some b)) rules
  unfolding pick_from
  pick_from_keeps best [] = (best, refl, not_beats_refl best, inl refl, tt)
  pick_from_keeps best (r ∷ rules) = elim (Bool-cases (covers r t loc)) [
    | inl covering ↦ elim (Bool-cases (beats r best)) [
      | inl better ↦
          let (b, e, not_r, from, rest) = pick_from_keeps r rules in
          (
            b,
            rw (covering, better) e,
            not_beats_trans b r best not_r (beats_asymm r best better),
            inr (Found-here r rules covering from),
            (λ _. not_r, rest),
          )
      | inr worse ↦
          let (b, e, not_best, from, rest) = pick_from_keeps best rules in
          (
            b,
            rw (covering, worse) e,
            not_best,
            Found-later r best rules from,
            (λ _. not_beats_trans b best r not_best worse, rest),
          )
    ]
    | inr missing ↦
        let (b, e, not_best, from, rest) = pick_from_keeps best rules in
        (b, rw missing e, not_best, Found-later r best rules from, (λ h. cc, rest))
  ]

  pick_rule-none :
      (rules : List PricingRule)
      → pick_rule rules t loc ≡ none
      → All (λ r. covers r t loc ≡ false) rules
  unfolding pick_rule
  pick_rule-none [] h = tt
  pick_rule-none (r ∷ rules) h = elim (Bool-cases (covers r t loc)) [
    | inl covering ↦
        let (b, e, _, _, _) = pick_from_keeps r rules in cc (sym e ∙ (rw covering at h))
    | inr missing ↦ (missing, pick_rule-none rules (rw missing at h))
  ]

  pick_rule-some :
      (rules : List PricingRule) {b : PricingRule}
      → pick_rule rules t loc ≡ some b
      → Found rules b × All (λ r. (covers r t loc ≡ true) → beats r b ≡ false) rules
  unfolding pick_rule
  pick_rule-some [] h = cc
  pick_rule-some (r ∷ rules) {b} h = elim (Bool-cases (covers r t loc)) [
    | inl covering ↦
        let (b', e, not_r, from, rest) = pick_from_keeps r rules in
        subst Winner (some-eq (sym e ∙ (rw covering at h)))
          (Found-here r rules covering from, (λ _. not_r, rest))
    | inr missing ↦
        let (found, rest) = pick_rule-some rules (rw missing at h) in
        ((found.0, inr found.1), (λ c. cc, rest))
  ]
    where
      Winner : PricingRule → Type 0
      Winner x =
          Found (r ∷ rules) x × All (λ q. (covers q t loc ≡ true) → beats q x ≡ false) (r ∷ rules)

-- What `ResolvePrice` charges is the base price if no rule covers the start of the slot, and
-- otherwise the price of a rule of the list that covers it and that no covering rule beats; the
-- total is that rate for each billable hour.
pub resolve_price_best :
    (base : ℤ) (rules : List PricingRule) (s : Slot) (loc : Location)
    → let price = resolve_price base rules s loc in
      (price.total_npr ≡ price.per_hour_npr *ℤ hours s)
      × (All (λ r. covers r s.start loc ≡ false) rules
            × (price.per_hour_npr ≡ base)
            × (price.is_peak ≡ false)
            × (price.rule_id ≡ none)
          ⊎ (b : PricingRule) × (covers b s.start loc ≡ true)
            × Any (λ r. r ≡ b) rules
            × All (λ r. (covers r s.start loc ≡ true) → beats r b ≡ false) rules
            × (price.per_hour_npr ≡ b.price_npr)
            × (price.is_peak ≡ b.is_peak)
            × (price.rule_id ≡ some b.id))
unfolding resolve_price
resolve_price_best base rules s loc = elim (Option-cases (pick_rule rules s.start loc)) [
  | inl no_rule ↦ (
    rw (no_rule, resolve_price),
    inl (
      pick_rule-none s.start loc rules no_rule,
      rw (no_rule, resolve_price),
      rw (no_rule, resolve_price),
      rw (no_rule, resolve_price),
    ),
  )
  | inr (b, e) ↦
      let (found, rest) = pick_rule-some s.start loc rules e in
      (
        rw (e, resolve_price),
        inr (
          b,
          found.0,
          found.1,
          rest,
          rw (e, resolve_price),
          rw (e, resolve_price),
          rw (e, resolve_price),
        ),
      )
]
