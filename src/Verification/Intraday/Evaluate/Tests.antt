-- ===== src/Verification/Intraday/Evaluate/Tests.antt =====
-- Tests of the intraday policy.
use stock_prediction.Base.{ℕ, ◌*◌, true, false, none, some, List, [], ◌∷◌, ◌≡◌, refl}
use stock_prediction.Base.Int.{ℤ, pos, mul_scaled, div_scaled, ◌+ℤ◌, ◌-ℤ◌}
use stock_prediction.Number.Fixed.{fixed}
use stock_prediction.Schema.{up}
use stock_prediction.Verification.Sampled.{SessionWindow}
use stock_prediction.Verification.Intraday.{
  minute, Bar, IntradayPolicy, scored, IntradayResult, first_minute_of, sort, blank, same_stamps,
  no_failure, minutes_from, reached_of, last_bar,
}
use stock_prediction.Verification.Intraday.Evaluate.{evaluate_bars}

abbrev bar : ℕ → ℤ → Bar ℤ
bar k price = record {
  start = k * minute;
  open_price = price;
  high = price;
  low = price;
  close = price;
  sample = none;
}

abbrev window : SessionWindow
window = record { opens_at = 0; closes_at = 2 * minute }

abbrev policy : IntradayPolicy ℤ
policy = record {
  is_last_known = false;
  target_return = pos 3_000;
  neutral_band = pos 3_000;
  min_minutes = 2;
  max_baseline_delay_seconds = 60;
}

abbrev bars : List (Bar ℤ)
bars = bar 1 (pos 101_000_000) ∷ bar 0 (pos 100_000_000) ∷ []

abbrev result : IntradayResult ℤ
result = evaluate_bars 0 window up policy bars true none none

-- Both minutes are there and the second one reaches the target.
reached :
    (result.status ≡ scored)
    × (result.target_reached ≡ some true)
    × (result.closing_correct ≡ some true)
unfolding evaluate_bars first_minute_of sort blank same_stamps no_failure minutes_from reached_of
    last_bar mul_scaled div_scaled ◌+ℤ◌ ◌-ℤ◌
reached = (refl, refl, refl)
