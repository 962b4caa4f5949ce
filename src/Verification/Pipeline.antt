-- ===== src/Verification/Pipeline.antt =====
-- src/services/verification/verification/pipeline.py: a prediction becomes an evaluation and a request for
-- prices, an observation of prices a score. Closes are decimals `D`, the other numbers floats `F`.
pub mod Once
mod Tests
use Prim.Native.String.{String}
use text.Mathlib.Text.{◌==◌ as str_eq}
use stock_prediction.Base.{
  ℕ, Bool, true, false, not, ◌&&◌, ◌||◌, Option, none, some, List, [], ◌∷◌, if◌then◌else◌, ◌==◌,
}
use stock_prediction.Calendar.{ZoneDatabase, resolve_baseline_settlement}
use stock_prediction.Calendar
use stock_prediction.Number.{Number}
use stock_prediction.Schema.{Direction, Magnitude, ContributingEdge}
use stock_prediction.Verification.Scoring.{Scored, ScoreOutcome, division_by_zero, score}
use stock_prediction.Verification.Evaluations.{
  EvaluationStatus, pending, withdrawn, CloseObservation, PriceObserved, PriceRequested, Evaluation,
  PredictionScored, Tables, create_evaluation_with_outbox, store_price_observation,
  load_evaluation_by_request_id, withdraw_evaluation, store_score_with_outbox, is_withdrawn,
}

-- `resolve`: the series of an asset in the registry; `none` is its `UnknownAssetError`.
pub record Series : Type 0 where
  pub timezone : String
  pub session_completion_hour : ℕ
  pub session_completion_minute : ℕ
  pub registry_version : String
  pub currency : String
  pub price_kind : String
  pub is_adjusted : Bool

-- `PredictionMade`, the fields that the pipeline reads.
pub record PredictionMade (F : Type 0) : Type 0 where
  pub prediction_id : ℕ
  pub context_id : ℕ
  pub asset_id : String
  pub direction : Direction
  pub magnitude : Magnitude
  pub confidence : F
  pub decision_at : ℕ
  pub contributing_edges : List (ContributingEdge F)
  pub supersedes_prediction_id : Option ℕ

pub record Policy (F : Type 0) : Type 0 where
  pub deadband : F
  pub magnitude_medium_min : F
  pub magnitude_large_min : F

-- What a handler returns or raises.
pub data Reply : Type 0 where
  handled repeated skipped : Reply
  invalid_prediction calendar_error unique_violation : Reply
  orphaned_observation unknown_asset price_validation zero_division : Reply

request_of : {F : Type 0} → ℕ → PredictionMade F → Series → ℕ × ℕ → PriceRequested
request_of request_id m series (baseline, settlement) = record {
  request_id = request_id;
  prediction_id = m.prediction_id;
  asset_id = m.asset_id;
  baseline_session = baseline;
  settlement_session = settlement;
  market_calendar = series.timezone;
}

evaluation_of : {F : Type 0} → ℕ → PredictionMade F → Series → ℕ × ℕ → Evaluation F
evaluation_of request_id m series (baseline, settlement) = record {
  prediction_id = m.prediction_id;
  context_id = m.context_id;
  asset_id = m.asset_id;
  predicted_direction = m.direction;
  predicted_magnitude = m.magnitude;
  confidence = m.confidence;
  decision_at = m.decision_at;
  baseline_session = baseline;
  settlement_session = settlement;
  market_calendar = series.timezone;
  registry_version = series.registry_version;
  request_id = request_id;
  contributing_edges = m.contributing_edges;
  status = pending;
}

currency_is : String → Option String → Bool
currency_is currency none = false
currency_is currency (some c) = str_eq c currency

policy_of : Option String → String
policy_of none = "DAILY_CLOSE_V1"
policy_of (some _) = "AVANZA_SAMPLED_CLOSE_V1"

module _ {D F : Type 0} where
  withdraw_superseded : Option ℕ → Tables D F → Tables D F
  withdraw_superseded none t = t
  withdraw_superseded (some id) t = withdraw_evaluation id t

  -- The result of the insert, before the superseded evaluation is withdrawn.
  finish_creation : Option ℕ → Tables D F → Option (Tables D F × Bool) → Tables D F × Reply
  unfolding withdraw_superseded
  finish_creation superseded before none = (before, unique_violation)
  finish_creation superseded before (some (t, created)) =
      (withdraw_superseded superseded t, if created then handled else repeated)

  create : ℕ → PredictionMade F → Series → Calendar.Result (ℕ × ℕ) → Tables D F → Tables D F × Reply
  unfolding finish_creation request_of evaluation_of
  create request_id m series (Calendar.Result.ok sessions) t =
      finish_creation m.supersedes_prediction_id t (
        create_evaluation_with_outbox (evaluation_of request_id m series sessions)
          (request_of request_id m series sessions) t)
  create request_id m series _ t = (t, calendar_error)

  for_series :
      ZoneDatabase
      → (ℕ → String → ℕ)
      → PredictionMade F
      → Option Series
      → Tables D F
      → Tables D F × Reply
  unfolding create
  for_series database request_id_of m none t = (t, invalid_prediction)
  for_series database request_id_of m (some series) t =
      create (request_id_of m.prediction_id series.registry_version) m series
        (resolve_baseline_settlement database m.decision_at series.timezone
          series.session_completion_hour series.session_completion_minute)
        t

  -- `process_prediction`; `request_id_of` is `_deterministic_request_id`.
  unfoldable pub process_prediction :
      ZoneDatabase
      → (String → Option Series)
      → (ℕ → String → ℕ)
      → PredictionMade F
      → Tables D F
      → Tables D F × Reply
  unfolding for_series
  process_prediction database resolve request_id_of m t =
      for_series database request_id_of m (resolve m.asset_id) t

  -- One turn of the loop over the two observations.
  observation_fits : Series → Evaluation F → CloseObservation D → Bool
  unfolding currency_is
  observation_fits series e o =
      str_eq o.registry_version e.registry_version
      && (if str_eq o.price_kind "AVANZA_SAMPLED_CLOSE"
          then currency_is series.currency o.sample
          else str_eq o.price_kind series.price_kind)
      && (if o.is_adjusted then series.is_adjusted else not series.is_adjusted)

  -- `_validate_observation`, whether it returns.
  pub is_valid : Series → PriceObserved D → Evaluation F → Bool
  unfolding observation_fits
  is_valid series m e =
      str_eq m.asset_id e.asset_id
      && (m.baseline.session == e.baseline_session)
      && (m.settlement.session == e.settlement_session)
      && observation_fits series e m.baseline
      && observation_fits series e m.settlement

module _ {D F : Type 0} ⦃d : Number D⦄ ⦃f : Number F⦄ (to_float : D → F) where
  pub scored_message : PriceObserved D → Evaluation F → ScoreOutcome F → PredictionScored D F
  unfolding policy_of
  scored_message m e o = record {
    prediction_id = e.prediction_id;
    context_id = e.context_id;
    asset_id = e.asset_id;
    predicted_direction = e.predicted_direction;
    actual_direction = o.actual_direction;
    predicted_magnitude = e.predicted_magnitude;
    actual_magnitude = o.actual_magnitude;
    confidence = e.confidence;
    actual_return = o.actual_return;
    is_correct = o.is_correct;
    score = o.score;
    contributing_edges = e.contributing_edges;
    baseline = m.baseline;
    settlement = m.settlement;
    price_policy = policy_of m.baseline.sample;
  }

  pub outcome_for : Policy F → PriceObserved D → Evaluation F → Scored F
  outcome_for p m e =
      score to_float m.baseline.close m.settlement.close e.predicted_direction p.deadband
        p.magnitude_medium_min p.magnitude_large_min

  answer : Tables D F × Bool → Tables D F × Reply
  answer (t, produced) = (t, if produced then handled else repeated)

  store_outcome : PriceObserved D → Evaluation F → Scored F → Tables D F → Tables D F × Reply
  unfolding answer
  store_outcome m e division_by_zero t = (t, zero_division)
  store_outcome m e (Scored.scored o) t = answer (store_score_with_outbox (scored_message m e o) t)

  check :
      Policy F → PriceObserved D → Evaluation F → Option Series → Tables D F → Tables D F × Reply
  unfolding store_outcome
  check p m e none t = (t, unknown_asset)
  check p m e (some series) t =
      if is_valid series m e
      then store_outcome m e (outcome_for p m e) (store_price_observation m t)
      else (t, price_validation)

  for_evaluation :
      Policy F
      → (String → Option Series)
      → PriceObserved D
      → Option (Evaluation F)
      → Tables D F
      → Tables D F × Reply
  unfolding check
  for_evaluation p resolve m none t = (t, orphaned_observation)
  for_evaluation p resolve m (some e) t =
      if is_withdrawn e.status then (t, skipped) else check p m e (resolve e.asset_id) t

  -- `process_price`
  unfoldable pub process_price :
      Policy F → (String → Option Series) → PriceObserved D → Tables D F → Tables D F × Reply
  unfolding for_evaluation
  process_price p resolve m t =
      for_evaluation p resolve m (load_evaluation_by_request_id m.request_id t) t

-- What the service receives.
pub data Message (D F : Type 0) : Type 0 where
  made : PredictionMade F → Message D F
  observed : PriceObserved D → Message D F

module _ {D F : Type 0} ⦃d : Number D⦄ ⦃f : Number F⦄ (to_float : D → F) (database : ZoneDatabase)
    (resolve : String → Option Series) (request_id_of : ℕ → String → ℕ) (p : Policy F) where
  unfoldable pub receive : Message D F → Tables D F → Tables D F
  receive (made m) t = (process_prediction database resolve request_id_of m t).0
  receive (observed m) t = (process_price to_float p resolve m t).0

  unfoldable pub receive_all : List (Message D F) → Tables D F → Tables D F
  receive_all [] t = t
  receive_all (m ∷ rest) t = receive_all rest (receive m t)
