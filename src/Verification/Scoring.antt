-- ===== src/Verification/Scoring.antt =====
-- src/services/verification/verification/scoring.py: close-to-close scoring. Closes are decimals, the
-- return and its thresholds are floats.
pub mod Bands
use stock_prediction.Base.{ℕ, ◌≤◌, Bool, true, false, ◌≡◌, ◌↔◌, arith, if◌then◌else◌}
use stock_prediction.Number.{Number, ◌≼◌, ◌≺◌, lt, nought, one, abs, num_eq}
use stock_prediction.Schema.{
  Direction, up, down, neutral, Magnitude, small, medium, large, same_direction,
}

pub record ScoreOutcome (F : Type 0) : Type 0 where
  pub actual_return : F
  pub actual_direction : Direction
  pub actual_magnitude : Magnitude
  pub is_correct : Bool
  pub score : F

-- What `score` returns; a baseline of zero raises.
pub data Scored (F : Type 0) : Type 0 where
  scored : ScoreOutcome F → Scored F
  division_by_zero : Scored F

module _ {F : Type 0} ⦃f : Number F⦄ where
  pub direction_of : F → F → Direction
  direction_of deadband actual_return =
      if lt (abs actual_return) deadband
      then neutral
      else if lt nought actual_return
      then up
      else down

  pub magnitude_of : F → F → F → Magnitude
  magnitude_of medium_min large_min actual_return =
      if lt (abs actual_return) medium_min
      then small
      else if lt (abs actual_return) large_min
      then medium
      else large

module _ {D F : Type 0} ⦃d : Number D⦄ ⦃f : Number F⦄ (to_float : D → F) where
  pub return_of : D → D → F
  return_of baseline settlement = to_float (d.div (d.sub settlement baseline) baseline)

  unfoldable pub score : D → D → Direction → F → F → F → Scored F
  unfolding direction_of magnitude_of return_of
  score baseline settlement predicted deadband medium_min large_min =
      let r = return_of baseline settlement in
      let actual = direction_of deadband r in
      let is_correct = same_direction predicted actual in
      if num_eq baseline nought
      then division_by_zero
      else scored (record {
        actual_return = r;
        actual_direction = actual;
        actual_magnitude = magnitude_of medium_min large_min r;
        is_correct = is_correct;
        score = if is_correct then one else nought;
      })
