-- ===== src/Verification/Sampled/Evaluate.antt =====
-- src/services/verification/verification/sampled_policy.py: `evaluate_samples`.
pub mod Claims
pub mod Coverage
mod Tests
use Prim.Native.String.{String}
use text.Mathlib.Text.{◌==◌ as str_eq}
use stock_prediction.Base.{
  ℕ, zero, suc, ◌+◌, ◌-◌, ◌*◌, ◌/◌, Bool, true, false, not, ◌&&◌, ◌||◌, Option, none, some, List,
  [], ◌∷◌, ◌++◌, map, any, length, find_first, filter_by, ltb, leb, ◌==◌, if◌then◌else◌,
}
use stock_prediction.Number.{Number, one, lt, abs, num_eq}
use stock_prediction.Schema.{Direction, up, down, neutral}
use stock_prediction.Verification.Sampled.{
  second, SessionWindow, PriceSample, SamplePolicy, Status, pending, final, unscorable,
  SampleOutcome, insufficient_window, no_baseline, baseline_too_late, baseline_revised,
  mapping_changed, conflicting_slot, insufficient_samples, band_breach_observed,
  within_band_at_samples, observed_hit, target_not_observed, SampleResult, later_of, slots, max_gap,
  status_of, empty_result, is_eligible, sort, by_slot,
}

abbrev is_neutral : Direction → Bool
is_neutral neutral = true
is_neutral _ = false

abbrev pub last_of {ℓ} : {A : Type ℓ} → A → List A → A
last_of x [] = x
last_of x (y ∷ ys) = last_of y ys

-- `set(by_slot) == set(expected)`
pub same_slots : List ℕ → List ℕ → Bool
same_slots held expected =
    not (any (λ t. not (any (λ s. s == t) held)) expected)
    && not (any (λ t. not (any (λ s. s == t) expected)) held)

is_some : {A : Type 0} → Option A → Bool
is_some none = false
is_some (some a) = true

-- The choice of the outcome: whether there are two samples or more, and what they show.
pub outcome_of : Bool → Direction → Bool → Bool → Bool → SampleOutcome
outcome_of enough direction hit breached complete =
    if enough
    then (if is_neutral direction
        then (if breached
            then band_breach_observed
            else if complete
            then within_band_at_samples
            else insufficient_samples)
        else if hit
        then observed_hit
        else if complete
        then target_not_observed
        else insufficient_samples)
    else insufficient_samples

module _ {D : Type 0} ⦃n : Number D⦄ where
  pub return_over : D → D → D
  return_over baseline price = n.sub (n.div price baseline) one

  pub reaches : Direction → D → D → Bool
  reaches up target r = n.le target r
  reaches down target r = n.le r (n.neg target)
  reaches neutral target r = false

  revised : Option (SampleResult D) → PriceSample D → Bool
  revised none b = false
  revised (some p) b = elim p.baseline_at [
    | none ↦ false
    | some at ↦
        not (at == b.observed_at)
        || not (elim p.baseline_price [ none ↦ false | some q ↦ num_eq q b.price ])
        || not (elim p.mapping_version [ none ↦ false | some v ↦ str_eq v b.mapping_version ])
  ]

  -- The end of the function, from the baseline, the samples behind it and the number of slots held.
  pub report :
      ℕ
      → SessionWindow
      → Direction
      → SamplePolicy D
      → Bool
      → ℕ
      → ℕ
      → Bool
      → PriceSample D
      → List (PriceSample D)
      → SampleResult D
  unfolding outcome_of reaches return_over is_some max_gap status_of
  report start window direction policy is_final expected held complete b subsequent =
      let rate : PriceSample D → D = λ s. return_over b.price s.price in
      let hit = find_first (λ s. reaches direction policy.target_return (rate s)) subsequent in
      let breached = any (λ s. lt policy.neutral_band (abs (rate s))) subsequent in
      let last = last_of b subsequent in
      let times = map (λ s. s.observed_at) (b ∷ subsequent) ++ (window.closes_at ∷ []) in
      let later = leb 1 (length subsequent) in
      record {
        status = status_of is_final final;
        outcome = some (
            outcome_of (leb 2 (suc (length subsequent))) direction (is_some hit) breached complete);
        baseline_at = some b.observed_at;
        baseline_price = some b.price;
        baseline_delay = some (b.observed_at - start);
        mapping_version = some b.mapping_version;
        observed_hit = if is_neutral direction then none else some (is_some hit);
        first_hit_at = elim hit [ none ↦ none | some s ↦ some s.observed_at ];
        last_observed_return = if later then some (rate last) else none;
        last_observed_at = if later then some last.observed_at else none;
        expected_samples = expected;
        observed_samples = held;
        coverage_complete = complete;
        maximum_gap = some (max_gap start times);
      }

  module _ (differs : PriceSample D → PriceSample D → Bool) where
    -- From the slots that are held, if no two samples of one slot differ.
    covered :
        ℕ
        → SessionWindow
        → Direction
        → SamplePolicy D
        → Bool
        → List ℕ
        → PriceSample D
        → List (PriceSample D)
        → Option (List (ℕ × PriceSample D))
        → SampleResult D
    unfolding report same_slots
    covered start window direction policy is_final expected b subsequent none =
        empty_result unscorable conflicting_slot 0
    covered start window direction policy is_final expected b subsequent (some held) =
        report start window direction policy is_final (length expected) (length held)
          (same_slots (map (λ p. p.0) held) expected) b subsequent

    -- From the eligible samples, in order.
    pub judge :
        ℕ
        → SessionWindow
        → Direction
        → SamplePolicy D
        → Bool
        → Option (SampleResult D)
        → List ℕ
        → List (PriceSample D)
        → SampleResult D
    unfolding covered revised
    judge start window direction policy is_final previous expected [] =
        empty_result (status_of is_final unscorable) no_baseline (length expected)
    judge start window direction policy is_final previous expected (b ∷ subsequent) =
        let held = by_slot differs [] (b ∷ subsequent) in
        if ltb (start + policy.max_baseline_delay_seconds * second) b.observed_at
        then empty_result (status_of is_final unscorable) baseline_too_late 0
        else if revised previous b
        then empty_result unscorable baseline_revised 0
        else if any (λ s. not (str_eq s.mapping_version b.mapping_version)) subsequent
        then empty_result unscorable mapping_changed 0
        else covered start window direction policy is_final expected b subsequent held

    -- The scheduled instants of the session that count from the start on.
    pub expected_slots : ℕ → SessionWindow → SamplePolicy D → List ℕ
    expected_slots start window policy =
        let interval = policy.interval_seconds * second in
        slots ((window.closes_at - window.opens_at) / interval + 1) start window.closes_at interval
          window.opens_at

    pub evaluate_samples :
        ℕ
        → SessionWindow
        → Direction
        → SamplePolicy D
        → String
        → String
        → List (PriceSample D)
        → Bool
        → Option (SampleResult D)
        → SampleResult D
    unfolding judge
    evaluate_samples decided window direction policy currency registry samples is_final previous =
        let start = later_of decided window.opens_at in
        let expected = expected_slots start window policy in
        let eligible =
          sort (filter_by (is_eligible start window policy currency registry expected) samples) in
        if ltb (length expected) 2
        then empty_result unscorable insufficient_window 0
        else judge start window direction policy is_final previous expected eligible
