-- ===== src/Verification/Tests.antt =====
-- Tests of the scoring, and its theorems at concrete closes.
use stock_prediction.Base.{◌≤◌, ◌≡◌, refl}
use stock_prediction.Base.Int.{ℤ, pos, mul_scaled, div_scaled, ◌+ℤ◌, ◌-ℤ◌}
use stock_prediction.Number.Fixed.{fixed, fixed-IsOrdered, fixed-IsSteady, fixed-IsMonotone}
use stock_prediction.Schema.{Direction, up}
use stock_prediction.Verification.Scoring.{
  ScoreOutcome, Scored, scored, division_by_zero, score, return_of,
}
use stock_prediction.Verification.Scoring.Bands.{
  IsVerdict, rank, outcome_of, score-IsVerdict, score_mono,
}

-- Decimals and floats of one kind.
abbrev same : ℤ → ℤ
same x = x

-- A deadband of 0.005, and magnitudes from 0.01 and from 0.03.
abbrev scored_at : ℤ → Direction → Scored ℤ
scored_at settlement predicted =
    score same (pos 100_000_000) settlement predicted (pos 5_000) (pos 10_000) (pos 30_000)

score-IsVerdict_example :
    (o : ScoreOutcome ℤ) × (scored_at (pos 102_000_000) up ≡ scored o)
    × (o.actual_return ≡ return_of same (pos 100_000_000) (pos 102_000_000))
    × IsVerdict same up (pos 5_000) o
score-IsVerdict_example =
    score-IsVerdict same fixed-IsOrdered fixed-IsSteady (pos 100_000_000) (pos 102_000_000) up
      (pos 5_000) (pos 10_000) (pos 30_000) refl refl refl

abbrev outcome_at : ℤ → Direction → ScoreOutcome ℤ
outcome_at settlement predicted =
    outcome_of same (pos 100_000_000) settlement predicted (pos 5_000) (pos 10_000) (pos 30_000)

low_scored : scored_at (pos 98_000_000) up ≡ scored (outcome_at (pos 98_000_000) up)
unfolding score mul_scaled div_scaled ◌+ℤ◌ ◌-ℤ◌
low_scored = refl

high_scored : scored_at (pos 102_000_000) up ≡ scored (outcome_at (pos 102_000_000) up)
unfolding score mul_scaled div_scaled ◌+ℤ◌ ◌-ℤ◌
high_scored = refl

score_mono_example :
    rank (outcome_at (pos 98_000_000) up).actual_direction
    ≤ rank (outcome_at (pos 102_000_000) up).actual_direction
score_mono_example =
    score_mono same fixed-IsOrdered fixed-IsSteady fixed-IsMonotone
      (λ a b h. fixed-IsMonotone.neg_anti a b h) (λ a b h. h) (pos 100_000_000) (pos 98_000_000)
      (pos 102_000_000) up (pos 5_000) (pos 10_000) (pos 30_000) refl refl low_scored high_scored

-- A baseline of zero raises.
zero_baseline :
    score same (pos 0) (pos 5) up (pos 5_000) (pos 10_000) (pos 30_000) ≡ division_by_zero
unfolding score mul_scaled div_scaled ◌+ℤ◌ ◌-ℤ◌
zero_baseline = refl
