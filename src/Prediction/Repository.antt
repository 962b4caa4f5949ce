-- ===== src/Prediction/Repository.antt =====
-- src/services/prediction/prediction/repository.py and models.py: the tables of the prediction schema. A
-- transaction is one step. Ids are numbers; a new one is an argument. Rows of `predictions` stand with
-- the latest first, and so do those of the outbox, where a row is its message.
pub mod Contexts
use Prim.Native.String.{String}
use text.Mathlib.Text.{◌==◌ as str_eq}
use stock_prediction.Base.{
  ℕ, ◌+◌, ◌-◌, Bool, true, false, not, ◌&&◌, ◌||◌, Option, none, some, List, [], ◌∷◌, ◌++◌, map,
  any, length, filter_by, update, sort_by, ltb, leb, ◌==◌, if◌then◌else◌,
}
use stock_prediction.Schema.{Direction, Magnitude, EventPolarity, ContributingEdge}

pub data ContextState : Type 0 where
  open_state ready predicting predicted error_retryable : ContextState

-- A row of `contexts`, and `ContextRecord`.
pub record Context : Type 0 where
  pub context_id : ℕ
  pub asset_id : String
  pub context_version : ℕ
  pub window_start : ℕ
  pub window_end : ℕ
  pub state : ContextState
  pub watermark : ℕ

pub record ContextEvent : Type 0 where
  pub event_id : ℕ
  pub event_type : String
  pub first_seen_at : ℕ
  pub polarity : EventPolarity
  pub context_tags : List String

pub record ActivePrediction : Type 0 where
  pub prediction_id : ℕ
  pub direction : Direction
  pub magnitude : Magnitude

-- `PropagationHop`
pub record Hop (R : Type 0) : Type 0 where
  pub source_asset_id : String
  pub target_asset_id : String
  pub condition : String
  pub direction : Direction
  pub edge_weight : R

-- `PredictionMade`, without its constants and the rationale.
pub record PredictionMade (R : Type 0) : Type 0 where
  pub prediction_id : ℕ
  pub context_id : ℕ
  pub context_version : ℕ
  pub event_ids : List ℕ
  pub asset_id : String
  pub direction : Direction
  pub magnitude : Magnitude
  pub confidence : R
  pub contributing_edges : List (ContributingEdge R)
  pub decision_at : ℕ
  pub supersedes_prediction_id : Option ℕ
  pub propagation_depth : ℕ
  pub propagation_chain : List (Hop R)

pub data Status : Type 0 where
  pending withdrawn : Status

-- The parts of the idempotency key, which the code joins with `|`: the asset, the start of the window,
-- the version of the context and the depth.
pub record Key : Type 0 where
  pub asset : String
  pub window_start : ℕ
  pub context_version : ℕ
  pub depth : ℕ

abbrev pub same_key : Key → Key → Bool
same_key a b =
    str_eq a.asset b.asset
    && (a.window_start == b.window_start)
    && (a.context_version == b.context_version)
    && (a.depth == b.depth)

-- A row of `predictions`.
pub record Row (R : Type 0) : Type 0 where
  pub message : PredictionMade R
  pub key : Key
  pub status : Status

pub record Tables (R : Type 0) : Type 0 where
  pub contexts : List Context
  -- `context_events`, with the id of the context
  pub members : List (ℕ × ContextEvent)
  pub predictions : List (Row R)
  pub outbox : List (PredictionMade R)

abbrev pub is_pending : Status → Bool
is_pending pending = true
is_pending withdrawn = false

-- The states in which a context takes part in a new event, `_JOINABLE_STATES`.
abbrev pub is_joinable : ContextState → Bool
is_joinable open_state = true
is_joinable ready = true
is_joinable _ = false

unfoldable pub set_state : ℕ → ContextState → List Context → List Context
set_state id state = update (λ c. record c { state = state }) (λ c. c.context_id == id)

module _ {R : Type 0} where
  unfoldable pub set_context_state : ℕ → ContextState → Tables R → Tables R
  unfolding set_state
  set_context_state id state t = record t { contexts = set_state id state t.contexts }

  pub load_context_events : ℕ → Tables R → List ContextEvent
  load_context_events id t =
      sort_by (λ e. e.first_seen_at) (map (λ m. m.1) (filter_by (λ m. m.0 == id) t.members))

  abbrev pub is_stance : String → Row R → Bool
  is_stance asset r = str_eq r.message.asset_id asset && is_pending r.status

  unfoldable pub later_row : Row R → Option (Row R) → Option (Row R)
  later_row r none = some r
  later_row r (some s) = if ltb r.message.decision_at s.message.decision_at then some s else some r

  -- `ORDER BY decision_at DESC LIMIT 1`; of equal times the last one that was stored.
  unfoldable pub latest_row : String → List (Row R) → Option (Row R)
  unfolding later_row
  latest_row asset [] = none
  latest_row asset (r ∷ rs) =
      let rest = latest_row asset rs in if is_stance asset r then later_row r rest else rest

  unfoldable pub active_of : Option (Row R) → Option ActivePrediction
  active_of none = none
  active_of (some r) = some (record {
    prediction_id = (r.message).prediction_id;
    direction = (r.message).direction;
    magnitude = (r.message).magnitude;
  })

  unfoldable pub latest_active_prediction : String → Tables R → Option ActivePrediction
  unfolding active_of
  latest_active_prediction asset t = active_of (latest_row asset t.predictions)

  -- `date` is `(decision_at AT TIME ZONE timezone_name)::date`.
  unfoldable pub count_predictions_on : (ℕ → ℕ) → String → ℕ → Tables R → ℕ
  count_predictions_on date asset local_date t = length (
      filter_by (λ r. is_stance asset r && (date r.message.decision_at == local_date))
        t.predictions)

  unfoldable pub withdraw : Option ℕ → List (Row R) → List (Row R)
  withdraw none rows = rows
  withdraw (some id) rows =
      update (λ r. record r { status = withdrawn })
        (λ r. (r.message.prediction_id == id) && is_pending r.status) rows

  -- `store_prediction_with_outbox`
  unfoldable pub store_prediction_with_outbox :
      PredictionMade R → Key → Bool → Tables R → Tables R × Bool
  unfolding withdraw set_state
  store_prediction_with_outbox message key withdraw_superseded t =
      let contexts = set_state message.context_id predicted t.contexts in
      if any (λ r. same_key r.key key) t.predictions
      then (record t { contexts = contexts }, false)
      else (
        record t {
          contexts = contexts;
          predictions =
              record { message = message; key = key; status = pending }
              ∷ (if withdraw_superseded
                  then withdraw message.supersedes_prediction_id t.predictions
                  else t.predictions);
          outbox = message ∷ t.outbox;
        },
        true,
      )
