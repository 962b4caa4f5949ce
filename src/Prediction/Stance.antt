-- ===== src/Prediction/Stance.antt =====
-- src/services/prediction/prediction/pipeline.py: `_store_prediction`, which stores a decision unless the
-- asset's stance or the daily limit stands against it. What other services answer is a `World`, constant
-- while one sweep runs.
pub mod Outcomes
pub mod Latest
pub mod Limit
use Prim.Native.String.{String}
use text.Mathlib.Text.{◌==◌ as str_eq}
use stock_prediction.Base.{
  ℕ, ◌+◌, Bool, true, false, not, ◌&&◌, ◌||◌, Option, none, some, List, [], ◌∷◌, map, any, length,
  filter_by, ltb, if◌then◌else◌,
}
use stock_prediction.Calendar.{is_trading_day}
use stock_prediction.Schema.{Direction, same_direction}
use stock_prediction.Prediction.Edge.{FiringEdge, CorrelationEdge}
use stock_prediction.Prediction.Decision.{Decision}
use stock_prediction.Prediction.Repository.{
  Context, ContextEvent, ActivePrediction, Hop, PredictionMade, Key, Tables,
  latest_active_prediction, count_predictions_on, store_prediction_with_outbox,
}

-- The registry, the clocks of the zones, Market Data, the graph and `uuid4`. An answer `none` of the
-- registry is its `UnknownAssetError`, one of the graph its `GraphError`.
pub record World (R : Type 0) : Type 0 where
  pub timezone : String → Option String
  pub local_date : String → ℕ → ℕ
  pub is_price_available : String → Bool
  pub is_elevated : String → Bool
  pub get_firing_edges : String → String → List String → Option (List (FiringEdge R))
  pub get_correlation_edges : String → String → Option (List (CorrelationEdge R))
  pub new_id : ℕ → ℕ

-- `PredictionSettings`, as far as the pipeline reads it.
pub record Settings (R : Type 0) : Type 0 where
  pub close_grace_minutes : ℕ
  pub decision_deadband : R
  pub confidence_evidence_halfpoint : R
  pub max_daily_predictions_per_asset : ℕ
  pub magnitude_small_max : R
  pub magnitude_medium_max : R
  pub max_propagation_depth : ℕ
  pub propagation_min_confidence : R

-- What becomes of a decision: it contradicts the stance, repeats it or is over the limit, or it is
-- stored, with the prediction that it supersedes.
pub data Outcome : Type 0 where
  contradicts unchanged limited : Outcome
  stores : (supersedes : Option ℕ) → Outcome

abbrev pub agrees : Direction → Option ActivePrediction → Bool
agrees direction none = false
agrees direction (some active) = same_direction active.direction direction

abbrev pub opposes : Direction → Option ActivePrediction → Bool
opposes direction none = false
opposes direction (some active) = not (same_direction active.direction direction)

abbrev pub id_of : Option ActivePrediction → Option ℕ
id_of none = none
id_of (some active) = some active.prediction_id

unfoldable pub outcome_of :
    (market_open within_limit : Bool) → ℕ → Direction → Option ActivePrediction → Outcome
outcome_of market_open within_limit depth direction active =
    if ltb 0 depth && opposes direction active
    then contradicts
    else if market_open
    then (if agrees direction active
        then unchanged
        else if within_limit
        then stores none
        else limited)
    else stores (id_of active)

is_some : Option ℕ → Bool
is_some none = false
is_some (some _) = true

or_all : List ContextEvent → List ContextEvent → List ContextEvent
or_all [] all = all
or_all (e ∷ es) all = e ∷ es

abbrev pub key_of : Context → ℕ → Key
key_of record_ depth = record {
  asset = record_.asset_id;
  window_start = record_.window_start;
  context_version = record_.context_version;
  depth = depth;
}

module _ {R : Type 0} where
  -- `_contributing_events`
  contributing_events : Decision R → List ContextEvent → List ContextEvent
  unfolding or_all
  contributing_events decision events =
      or_all (filter_by (λ e. any (str_eq e.event_type) decision.contributing_factors) events)
        events

  -- `_is_market_open` and `_within_daily_limit`, from the zone on.
  open_in : World R → String → ℕ → Option String → Bool
  open_in w asset now none = false
  open_in w asset now (some zone) =
      is_trading_day (w.local_date zone now) && w.is_price_available asset

  pub is_market_open : World R → String → ℕ → Bool
  unfolding open_in
  is_market_open w asset now = open_in w asset now (w.timezone asset)

  within_in : World R → ℕ → String → ℕ → Tables R → Option String → Bool
  within_in w limit asset now t none = true
  within_in w limit asset now t (some zone) =
      ltb (count_predictions_on (w.local_date zone) asset (w.local_date zone now) t) limit

  pub within_daily_limit : World R → ℕ → String → ℕ → Tables R → Bool
  unfolding within_in
  within_daily_limit w limit asset now t = within_in w limit asset now t (w.timezone asset)

  pub made :
      World R
      → Context
      → Decision R
      → ℕ
      → List ContextEvent
      → ℕ
      → List (Hop R)
      → Option ℕ
      → Tables R
      → PredictionMade R
  unfolding contributing_events
  made w record_ decision now events depth chain supersedes t = record {
    prediction_id = w.new_id (length t.outbox);
    context_id = record_.context_id;
    context_version = record_.context_version;
    event_ids = map (λ e. e.event_id) (contributing_events decision events);
    asset_id = record_.asset_id;
    direction = decision.direction;
    magnitude = decision.magnitude;
    confidence = decision.confidence;
    contributing_edges = decision.contributing_edges;
    decision_at = now;
    supersedes_prediction_id = supersedes;
    propagation_depth = depth;
    propagation_chain = chain;
  }

  store_if :
      World R
      → Context
      → Decision R
      → ℕ
      → List ContextEvent
      → ℕ
      → List (Hop R)
      → Tables R
      → Outcome
      → Tables R × Bool
  unfolding is_some
  store_if w record_ decision now events depth chain t (stores supersedes) =
      store_prediction_with_outbox (made w record_ decision now events depth chain supersedes t)
        (key_of record_ depth) (is_some supersedes) t
  store_if w record_ decision now events depth chain t _ = (t, false)

  -- `_store_prediction`
  unfoldable pub store_prediction :
      World R
      → Settings R
      → Context
      → Decision R
      → ℕ
      → List ContextEvent
      → ℕ
      → List (Hop R)
      → Tables R
      → Tables R × Bool
  unfolding store_if
  store_prediction w s record_ decision now events depth chain t =
      store_if w record_ decision now events depth chain t (
        outcome_of (is_market_open w record_.asset_id now)
          (within_daily_limit w s.max_daily_predictions_per_asset record_.asset_id now t) depth
          decision.direction (latest_active_prediction record_.asset_id t))
