-- ===== src/Verification/Intraday/Evaluate.antt =====
-- src/services/verification/verification/intraday_policy.py: `evaluate`, for bars without tagged samples.
pub mod Coherent
mod Tests
use Prim.Native.String.{String}
use stock_prediction.Base.{
  ℕ, ◌+◌, ◌-◌, ◌*◌, ◌/◌, Bool, true, false, not, ◌&&◌, ◌||◌, Option, none, some, List, [], ◌∷◌, map,
  length, find_first, filter_by, ltb, leb, if◌then◌else◌,
}
use stock_prediction.Number.{Number, one, lt, min_of, max_of}
use stock_prediction.Schema.{Direction, same_direction}
use stock_prediction.Verification.Sampled.{second, SessionWindow, later_of}
use stock_prediction.Verification.Intraday.{
  minute, Bar, IntradayPolicy, IntradayStatus, pending, scored, unscorable, withdrawn,
  IntradayResult, first_minute_of, failure_or, no_failure, count_distinct, minutes_from,
  same_stamps, pending_status, reached_of, is_hit, sort, last_bar, blank, return_over, touches,
  fold_bars, closing_direction, revised, revised_result,
}

-- `int((window.closes_at - first_minute) / MINUTE) < policy.min_minutes`: a quotient of -1 or less
-- counts as too few whatever the bar is.
pub is_short : ℕ → ℕ → ℕ → Bool
is_short first closes min_minutes =
    leb (closes + minute) first || ltb ((closes - first) / minute) min_minutes

module _ {D : Type 0} ⦃n : Number D⦄ where
  -- The end of the function; `breached` and the extremes are those of all bars.
  pub report :
      ℕ
      → Direction
      → IntradayPolicy D
      → Bool
      → Option String
      → ℕ
      → Bool
      → Bar D
      → List (Bar D)
      → IntradayResult D
  unfolding touches fold_bars closing_direction is_hit return_over
  report start direction policy is_final failure expected complete b rest =
      let bars = b ∷ rest in
      let price = b.open_price in
      let rise = fold_bars max_of (λ x. return_over price x.high) (return_over price b.high) rest in
      let fall = fold_bars min_of (λ x. return_over price x.low) (return_over price b.low) rest in
      let hit = find_first (touches direction policy.target_return price) bars in
      let breached = lt policy.neutral_band rise || lt fall (n.neg policy.neutral_band) in
      let settled = is_final && complete in
      let closing = return_over price (last_bar b rest).close in
      record {
        status = if is_final then (if complete then scored else unscorable) else pending;
        reason =
            if is_final && not complete then some (failure_or failure "MISSING_BARS") else none;
        baseline_at = some b.start;
        baseline_price = some price;
        baseline_delay = some (b.start - start);
        target_reached = reached_of direction (is_hit hit) breached settled;
        first_hit_bar_at = elim hit [ none ↦ none | some x ↦ some x.start ];
        closing_return = if settled then some closing else none;
        closing_correct =
            if settled
            then some (same_direction (closing_direction policy.neutral_band closing) direction)
            else none;
        max_up_return = some rise;
        max_down_return = some fall;
        expected_bars = expected;
        observed_bars = count_distinct (map (λ x. x.start) bars);
        complete = complete;
        is_last_known = false;
        represented_minutes = 0;
        expected_samples = 0;
        observed_samples = 0;
        first_hit_observed_at = none;
      }

  -- From the eligible bars, in order.
  pub judge :
      ℕ
      → ℕ
      → Direction
      → IntradayPolicy D
      → Bool
      → Option (IntradayResult D)
      → Option String
      → ℕ
      → List (Bar D)
      → IntradayResult D
  unfolding report revised revised_result
  judge start first direction policy is_final previous failure expected [] =
      blank (pending_status is_final unscorable)
        (if is_final then some (failure_or failure "NO_BASELINE") else none) expected
  judge start first direction policy is_final previous failure expected (b ∷ rest) =
      let stamps = map (λ x. x.start) (b ∷ rest) in
      let complete = same_stamps stamps (minutes_from first expected) && no_failure failure in
      if ltb (start + policy.max_baseline_delay_seconds * second) b.start
      then blank (pending_status is_final unscorable) (some "BASELINE_TOO_LATE") 0
      else if revised previous b
      then revised_result previous
      else report start direction policy is_final failure expected complete b rest

  pub evaluate_bars :
      ℕ
      → SessionWindow
      → Direction
      → IntradayPolicy D
      → List (Bar D)
      → Bool
      → Option (IntradayResult D)
      → Option String
      → IntradayResult D
  unfolding judge is_short
  evaluate_bars decision_at window direction policy bars is_final previous failure =
      let start = later_of decision_at window.opens_at in
      let first = first_minute_of start in
      let eligible =
        sort (filter_by (λ b. leb first b.start && leb (b.start + minute) window.closes_at) bars) in
      if is_short first window.closes_at policy.min_minutes
      then blank unscorable (some "INSUFFICIENT_WINDOW") 0
      else judge start first direction policy is_final previous failure
          ((window.closes_at - first) / minute) eligible
