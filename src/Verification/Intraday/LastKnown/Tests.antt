-- ===== src/Verification/Intraday/LastKnown/Tests.antt =====
-- The theorem on `evaluate` at bars that carry samples.
use Prim.Native.String.{String}
use stock_prediction.Base.{ℕ, ◌*◌, Bool, true, none, some, List, [], ◌∷◌, ◌≡◌, refl}
use stock_prediction.Base.Int.{ℤ, pos, mul_scaled, div_scaled, ◌+ℤ◌, ◌-ℤ◌}
use stock_prediction.Number.Fixed.{fixed}
use stock_prediction.Schema.{up}
use stock_prediction.Verification.Sampled.{second, SessionWindow, slots}
use stock_prediction.Verification.Intraday.{
  Provenance, Bar, IntradayPolicy, IntradayResult, scored, count_distinct, same_stamps, no_failure,
  reached_of,
}
use stock_prediction.Verification.Intraday.LastKnown.{sort, is_mixed, last_observation}
use stock_prediction.Verification.Intraday.Evaluate.Coherent.{Coherent}
use stock_prediction.Verification.Intraday.LastKnown.Choose.{evaluate, evaluate-Coherent}

abbrev known : String → ℕ → ℤ → Bar ℤ
known id slot price = record {
  start = slot * second;
  open_price = price;
  high = price;
  low = price;
  close = price;
  sample = some (record {
    sample_id = id;
    scheduled_at = slot * second;
    observed_at = slot * second;
    interval_seconds = 600;
    mapping_version = "m1";
    currency = "SEK";
  });
}

abbrev window : SessionWindow
window = record { opens_at = 0; closes_at = 1_200 * second }

abbrev policy : IntradayPolicy ℤ
policy = record {
  is_last_known = true;
  target_return = pos 3_000;
  neutral_band = pos 3_000;
  min_minutes = 2;
  max_baseline_delay_seconds = 60;
}

abbrev bars : List (Bar ℤ)
bars = known "a" 0 (pos 100_000_000) ∷ known "b" 600 (pos 101_000_000) ∷ []

abbrev differs : Provenance → Provenance → Bool
differs s t = true

abbrev result : IntradayResult ℤ
result = evaluate differs 0 window up policy bars true none none

-- Both samples are there, and the second one reaches the target.
reached : (result.status ≡ scored) × (result.target_reached ≡ some true)
unfolding evaluate sort is_mixed last_observation count_distinct same_stamps no_failure reached_of
    slots mul_scaled div_scaled ◌+ℤ◌ ◌-ℤ◌
reached = (refl, refl)

evaluate-Coherent_example : Coherent result
evaluate-Coherent_example = evaluate-Coherent differs 0 window up policy bars true none none
