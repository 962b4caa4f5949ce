-- ===== src/Verification/Evaluations.antt =====
-- src/services/verification/verification/repository.py and models.py: the tables of the verification schema.
-- A transaction is one step. The latest rows stand first. Identifiers of messages, times of writing and
-- sources, which are always empty, are left out.
use Prim.Native.String.{String}
use stock_prediction.Base.{
  ℕ, Bool, true, false, ◌&&◌, Option, none, some, List, ◌∷◌, any, find_first, update, ◌==◌,
  if◌then◌else◌,
}
use stock_prediction.Schema.{Direction, Magnitude, ContributingEdge}

pub data EvaluationStatus : Type 0 where
  pending awaiting_price scored withdrawn : EvaluationStatus

-- `CloseObservation`; of a sample only its currency is read.
pub record CloseObservation (D : Type 0) : Type 0 where
  pub session : ℕ
  pub close : D
  pub price_kind : String
  pub is_adjusted : Bool
  pub registry_version : String
  pub sample : Option String

pub record PriceObserved (D : Type 0) : Type 0 where
  pub request_id : ℕ
  pub prediction_id : ℕ
  pub asset_id : String
  pub baseline : CloseObservation D
  pub settlement : CloseObservation D

pub record PriceRequested : Type 0 where
  pub request_id : ℕ
  pub prediction_id : ℕ
  pub asset_id : String
  pub baseline_session : ℕ
  pub settlement_session : ℕ
  pub market_calendar : String

-- `EvaluationRecord`. The propagation chain is passed on like the edges, and left out.
pub record Evaluation (F : Type 0) : Type 0 where
  pub prediction_id : ℕ
  pub context_id : ℕ
  pub asset_id : String
  pub predicted_direction : Direction
  pub predicted_magnitude : Magnitude
  pub confidence : F
  pub decision_at : ℕ
  pub baseline_session : ℕ
  pub settlement_session : ℕ
  pub market_calendar : String
  pub registry_version : String
  pub request_id : ℕ
  pub contributing_edges : List (ContributingEdge F)
  pub status : EvaluationStatus

pub record PredictionScored (D F : Type 0) : Type 0 where
  pub prediction_id : ℕ
  pub context_id : ℕ
  pub asset_id : String
  pub predicted_direction : Direction
  pub actual_direction : Direction
  pub predicted_magnitude : Magnitude
  pub actual_magnitude : Magnitude
  pub confidence : F
  pub actual_return : F
  pub is_correct : Bool
  pub score : F
  pub contributing_edges : List (ContributingEdge F)
  pub baseline : CloseObservation D
  pub settlement : CloseObservation D
  pub price_policy : String

-- The outbox by the type of its messages; a row of `scores` is what its message says.
pub record Tables (D F : Type 0) : Type 0 where
  pub evaluations : List (Evaluation F)
  pub observations : List (PriceObserved D)
  pub scores : List (PredictionScored D F)
  pub requested : List PriceRequested
  pub outbox_scored : List (PredictionScored D F)

abbrev pub is_pending : EvaluationStatus → Bool
is_pending pending = true
is_pending _ = false

abbrev pub is_withdrawn : EvaluationStatus → Bool
is_withdrawn withdrawn = true
is_withdrawn _ = false

module _ {D F : Type 0} where
  -- `none` is the `UniqueViolationError` of a request id that another evaluation has.
  unfoldable pub create_evaluation_with_outbox :
      Evaluation F → PriceRequested → Tables D F → Option (Tables D F × Bool)
  create_evaluation_with_outbox e request t =
      if any (λ x. x.prediction_id == e.prediction_id) t.evaluations
      then some (t, false)
      else if any (λ x. x.request_id == e.request_id) t.evaluations
      then none
      else some
          (record t { evaluations = e ∷ t.evaluations; requested = request ∷ t.requested }, true)

  unfoldable pub store_price_observation : PriceObserved D → Tables D F → Tables D F
  store_price_observation m t =
      if any (λ x. x.request_id == m.request_id) t.observations
      then t
      else record t { observations = m ∷ t.observations }

  unfoldable pub load_evaluation_by_request_id : ℕ → Tables D F → Option (Evaluation F)
  load_evaluation_by_request_id request_id t =
      find_first (λ x. x.request_id == request_id) t.evaluations

  unfoldable pub withdraw_evaluation : ℕ → Tables D F → Tables D F
  withdraw_evaluation id t = record t {
    evaluations =
        update (λ e. record e { status = withdrawn })
          (λ e. (e.prediction_id == id) && is_pending e.status) t.evaluations;
  }

  unfoldable pub store_score_with_outbox : PredictionScored D F → Tables D F → Tables D F × Bool
  store_score_with_outbox m t =
      let evaluations =
        update (λ e. record e { status = scored }) (λ e. e.prediction_id == m.prediction_id)
          t.evaluations in
      if any (λ x. x.prediction_id == m.prediction_id) t.scores
      then (record t { evaluations = evaluations }, false)
      else (
        record t {
          evaluations = evaluations;
          scores = m ∷ t.scores;
          outbox_scored = m ∷ t.outbox_scored;
        },
        true,
      )
