-- ===== src/Verification/Sampled/Evaluate/Tests.antt =====
-- Tests of the sampled policy, and its theorems at concrete samples.
use stock_prediction.Base.{
  ℕ, ◌+◌, ◌*◌, ◌↔◌, Bool, true, none, some, List, [], ◌∷◌, ◌≡◌, refl, arith,
}
use stock_prediction.Base.Int.{ℤ, pos, mul_scaled, div_scaled, ◌+ℤ◌, ◌-ℤ◌}
use stock_prediction.Number.Fixed.{fixed}
use stock_prediction.Schema.{up}
use stock_prediction.Verification.Sampled.{
  second, SessionWindow, PriceSample, SamplePolicy, observed_hit, SampleResult, slots, regular,
  regular_open, fresh, is_eligible, sort, by_slot, empty_result,
}
use stock_prediction.Verification.Sampled.Slots.{IsSlot, has}
use stock_prediction.Verification.Sampled.Evaluate.Coverage.{expected_slots_iff}
use stock_prediction.Verification.Sampled.Evaluate.{evaluate_samples, expected_slots}
use stock_prediction.Verification.Sampled.Evaluate.Claims.{
  Honest, eligible_samples, evaluate_samples-Honest,
}

-- A session of half an hour, with two slots.
abbrev window : SessionWindow
window = record { opens_at = 0; closes_at = 1_800 * second }

abbrev policy : SamplePolicy ℤ
policy = record {
  target_return = pos 3_000;
  neutral_band = pos 3_000;
  interval_seconds = 900;
  max_baseline_delay_seconds = 1_020;
  max_quote_age_seconds = 120;
}

abbrev sample : ℕ → ℕ → ℤ → PriceSample ℤ
sample slot lag price = record {
  sample_id = "s";
  mapping_version = "m1";
  registry_version = "r1";
  opens_at = 0;
  closes_at = 1_800 * second;
  scheduled_at = slot * second;
  observed_at = (slot + lag) * second;
  provider_quote_at = some ((slot + lag) * second);
  price = price;
  currency = "SEK";
  quote_unit = "SEK";
  kind = regular;
  market_state = regular_open;
  quality = fresh;
}

abbrev samples : List (PriceSample ℤ)
samples = sample 900 10 (pos 101_000_000) ∷ sample 0 5 (pos 100_000_000) ∷ []

abbrev differs : PriceSample ℤ → PriceSample ℤ → Bool
differs s t = true

abbrev result : SampleResult ℤ
result = evaluate_samples differs 0 window up policy "SEK" "r1" samples true none

hit : result.outcome ≡ some observed_hit
unfolding evaluate_samples expected_slots is_eligible sort by_slot slots empty_result mul_scaled
    div_scaled ◌+ℤ◌ ◌-ℤ◌
hit = refl

evaluate_samples-Honest_example :
    Honest up policy (eligible_samples differs 0 window policy "SEK" "r1" samples) result
evaluate_samples-Honest_example =
    evaluate_samples-Honest differs 0 window up policy "SEK" "r1" samples true none

expected_slots_iff_example :
    (has (900 * second) (expected_slots differs 5 window policy) ≡ true)
    ↔ IsSlot 5 (1_800 * second) (900 * second) 0 (900 * second)
expected_slots_iff_example = expected_slots_iff differs 5 window policy (900 * second) (omega arith)
