-- ===== src/Domain/Pricing.antt =====
-- internal/domain/pricing.go: the price of a slot, and the rule that sets it.
pub mod Laws
pub mod Weekday
use khel_arena.Prelude.{
  ℕ, Bool, true, false, ◌&&◌, ◌||◌, not, Option, none, some, List, [], ◌∷◌, String, length, any, ℤ,
  pos, ◌-ℤ◌, ◌*ℤ◌, ltb, ltb_ℤ, leb_ℤ, eq_ℤ, ◌==◌, if◌then◌else◌,
}
use text.Mathlib.Text.{◌==◌ as str_eq}
use khel_arena.Domain.Errors.{Error, Validation, check, validation_err}
use khel_arena.Domain.Slot.Clock.{Location, weekday_of, hour_of}
use khel_arena.Domain.Slot.Interval.{Slot, hours}

pub record Price : Type 0 where
  pub per_hour_npr : ℤ
  pub total_npr : ℤ
  pub is_peak : Bool
  pub rule_id : Option ℕ
  pub rule_label : String

abbrev pub base_rate_label : String
base_rate_label = "Base rate"

-- `days` are Go's weekdays, from Sunday as 0.
pub record PricingRule : Type 0 where
  pub id : ℕ
  pub court_id : ℕ
  pub label : String
  pub days : List ℕ
  pub start_hour : ℤ
  pub end_hour : ℤ
  pub price_npr : ℤ
  pub is_peak : Bool
  pub priority : ℤ

abbrev is_empty : String → Bool
is_empty s = str_eq s ""

unfoldable pub validate : PricingRule → Option Error
validate r =
    let v : Validation =
      check [] (not (is_empty r.label)) "label" "Give the rule a name, like \"Evening Peak\"." in
    let v₁ = check v (ltb 0 (length r.days)) "days" "Choose at least one day of the week." in
    let v₂ =
      check v₁ (leb_ℤ (pos 0) r.start_hour && leb_ℤ r.start_hour (pos 23)) "start_hour"
        "The start hour must be between 0 and 23." in
    let v₃ =
      check v₂ (leb_ℤ (pos 1) r.end_hour && leb_ℤ r.end_hour (pos 24)) "end_hour"
        "The end hour must be between 1 and 24." in
    let v₄ =
      check v₃ (ltb_ℤ r.start_hour r.end_hour) "end_hour" "The window must end after it starts." in
    validation_err
      (check v₄ (ltb_ℤ (pos 0) r.price_npr) "price_npr" "The price must be more than zero.")

unfoldable pub contains_weekday : List ℕ → ℕ → Bool
contains_weekday [] d = false
contains_weekday (x ∷ days) d = x == d || contains_weekday days d

unfoldable pub covers : PricingRule → ℕ → Location → Bool
covers r t loc =
    contains_weekday r.days (weekday_of loc t)
    && leb_ℤ r.start_hour (pos (hour_of loc t))
    && ltb_ℤ (pos (hour_of loc t)) r.end_hour

unfoldable pub span : PricingRule → ℤ
span r = r.end_hour -ℤ r.start_hour

unfoldable pub beats : PricingRule → PricingRule → Bool
beats candidate incumbent =
    if not (eq_ℤ candidate.priority incumbent.priority)
    then ltb_ℤ incumbent.priority candidate.priority
    else if not (eq_ℤ (span candidate) (span incumbent))
    then ltb_ℤ (span candidate) (span incumbent)
    else ltb_ℤ incumbent.price_npr candidate.price_npr

-- `best == nil || beats(*r, *best)`
unfoldable pub is_better : PricingRule → Option PricingRule → Bool
is_better r none = true
is_better r (some best) = beats r best

-- The loop of `pickRule`, with the best rule so far.
unfoldable pub pick_from : Option PricingRule → List PricingRule → ℕ → Location → Option PricingRule
unfolding is_better
pick_from best [] t loc = best
pick_from best (r ∷ rules) t loc =
    pick_from (if not (covers r t loc) then best else if is_better r best then some r else best)
      rules t loc

unfoldable pub pick_rule : List PricingRule → ℕ → Location → Option PricingRule
unfolding pick_from
pick_rule rules t loc = pick_from none rules t loc

abbrev price_at : ℤ → Bool → Option ℕ → String → Slot → Price
price_at per_hour peak rule label s = record {
  per_hour_npr = per_hour;
  total_npr = per_hour *ℤ hours s;
  is_peak = peak;
  rule_id = rule;
  rule_label = label;
}

unfoldable pub resolve_price : ℤ → List PricingRule → Slot → Location → Price
resolve_price base rules s loc = elim (pick_rule rules s.start loc) [
  | none ↦ price_at base false none base_rate_label s
  | some best ↦
      price_at best.price_npr best.is_peak (some best.id)
        (if is_empty best.label then base_rate_label else best.label) s
]
