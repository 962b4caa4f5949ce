-- ===== src/Credibility/Learner/Tests.antt =====
-- Tests of the structure learner, and its theorems at concrete samples.
use stock_prediction.Base.{false, none, some, List, [], ◌∷◌, ◌≡◌, refl, arith, map}
use stock_prediction.Base.Int.{ℤ, pos, mul_scaled, div_scaled, ◌+ℤ◌, ◌-ℤ◌}
use stock_prediction.Number.Fixed.{fixed, fixed-IsOrdered, fixed-IsSteady, fixed-IsPositive}
use stock_prediction.Schema.{Direction, up, neutral, occurrence, resolution}
use stock_prediction.Credibility.Learner.{
  Sample, CorrelationSample, EdgeEstimate, same_key, weight_return_scale, estimate_edges,
  estimate_correlation_edges,
}
use stock_prediction.Credibility.Learner.Learned.{
  AreLearned, as_occurrence, estimate_edges-AreLearned, estimate_correlation_edges-AreLearned,
}

abbrev strike : ℤ → Sample ℤ
strike r = record {
  factor = "MILITARY_CONFLICT";
  condition = none;
  asset = "GOLD";
  polarity = occurrence;
  actual_return = r;
  is_abnormal = false;
}

abbrev called_off : Sample ℤ
called_off = record (strike (pos 0 -ℤ pos 20_000)) { polarity = resolution }

abbrev samples : List (Sample ℤ)
samples = strike (pos 30_000) ∷ called_off ∷ strike (pos 10_000) ∷ []

abbrev shape : EdgeEstimate ℤ → Direction × ℤ × ℤ
shape e = (e.direction, e.weight, e.confidence)

-- A mean of 2 %, from three returns that agree: weight 0.4.
learned : map shape (estimate_edges (pos 5_000) 3 2 samples) ≡ (up, pos 400_000, pos 1_000_000) ∷ []
unfolding estimate_edges same_key mul_scaled div_scaled ◌+ℤ◌ ◌-ℤ◌
learned = refl

abbrev flat : CorrelationSample ℤ
flat = record {
  source_asset = "OIL";
  condition = "UPSTREAM_UP";
  target_asset = "GOLD";
  actual_return = pos 1_000;
  is_abnormal = false;
}

-- A group of correlation samples whose mean is inside the deadband gives a neutral estimate.
neutral_kept :
    map shape (estimate_correlation_edges (pos 5_000) 1 1 (flat ∷ []))
    ≡ (neutral, pos 20_000, pos 0) ∷ []
unfolding estimate_correlation_edges mul_scaled div_scaled ◌+ℤ◌ ◌-ℤ◌
neutral_kept = refl

scale_positive : fixed.le weight_return_scale (pos 0) ≡ false
unfolding weight_return_scale div_scaled
scale_positive = refl

estimate_edges-AreLearned_example :
    AreLearned
      (λ (s : Sample ℤ). (s.factor, s.condition, s.asset))
      as_occurrence
      (λ s. s.is_abnormal)
      (pos 5_000)
      3
      2
      samples
      (estimate_edges (pos 5_000) 3 2 samples)
estimate_edges-AreLearned_example =
    estimate_edges-AreLearned fixed-IsOrdered fixed-IsSteady fixed-IsPositive (pos 5_000) 3 2
      samples (ground (arith, scale_positive)) (omega arith) (omega arith)

estimate_correlation_edges-AreLearned_example :
    AreLearned
      (λ (s : CorrelationSample ℤ). (s.source_asset, some s.condition, s.target_asset))
      (λ s. s.actual_return)
      (λ s. s.is_abnormal)
      (pos 5_000)
      1
      1
      (flat ∷ [])
      (estimate_correlation_edges (pos 5_000) 1 1 (flat ∷ []))
estimate_correlation_edges-AreLearned_example =
    estimate_correlation_edges-AreLearned fixed-IsOrdered fixed-IsSteady fixed-IsPositive
      (pos 5_000) 1 1 (flat ∷ []) (ground (arith, scale_positive)) (omega arith) (omega arith)
