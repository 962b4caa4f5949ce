-- ===== src/Prediction/Tests.antt =====
-- Tests and witnesses for contexts, stances and propagation, with fixed-point numbers.
use Prim.Native.String.{String}
use text.Mathlib.Text.{◌==◌ as str_eq}
use stock_prediction.Base.{
  ℕ, ◌/◌, ◌≤◌, ◌≡◌, refl, Bool, true, false, none, some, List, [], ◌∷◌, ◌++◌, length, arith,
  if◌then◌else◌,
}
use stock_prediction.Base.Int.{ℤ, pos}
use stock_prediction.Number.Fixed.{fixed}
use stock_prediction.Schema.{Direction, up, down, small, occurrence}
use stock_prediction.Prediction.Edge.{FiringEdge, CorrelationEdge}
use stock_prediction.Prediction.Decision.{Decision}
use stock_prediction.Prediction.Repository.{
  Context, ContextEvent, open_state, PredictionMade, Tables,
}
use stock_prediction.Prediction.Stance.{World, Settings}
use stock_prediction.Prediction.Stance.Latest.{stances_on}
use stock_prediction.Prediction.Stance.Limit.{
  IsWithin, StoreCall, InOrder, run_stores, run_stores-stances_on,
}
use stock_prediction.Prediction.Propagation.{left_behind, run_propagation}
use stock_prediction.Prediction.Propagation.Cascade.{IsCascade}
use stock_prediction.Prediction.Propagation.Runs.{Counts, run_propagation-IsCascade}
use stock_prediction.Prediction.Propagation.Returns.{IsSchema, Answers, IsCorrelation}
use stock_prediction.Prediction.Decision.Fixed.{fixed-IsReal}
use stock_prediction.Prediction.Decision.Support.{IsEdge}
use stock_prediction.Prediction.Sweep.{Swept, runs, close_ready_contexts}
use stock_prediction.Prediction.Sweep.Settled.{
  claimed_by, has_id, unsettled, close_ready_contexts-settled,
}

abbrev settings : Settings ℤ
settings = record {
  close_grace_minutes = 5;
  decision_deadband = pos 150_000;
  confidence_evidence_halfpoint = pos 500_000;
  max_daily_predictions_per_asset = 2;
  magnitude_small_max = pos 400_000;
  magnitude_medium_max = pos 700_000;
  max_propagation_depth = 3;
  propagation_min_confidence = pos 300_000;
}

abbrev causal : FiringEdge ℤ
causal = record {
  factor_id = some "WAR";
  asset_id = "GOLD";
  direction = up;
  weight = pos 900_000;
  confidence = pos 900_000;
  alpha = pos 9_000_000;
  beta = pos 1_000_000;
  condition = none;
  inherited_from = none;
  correlation_source_id = none;
}

abbrev correlated : String → String → CorrelationEdge ℤ
correlated source target = record {
  source_asset_id = source;
  target_asset_id = target;
  condition = "UPSTREAM_UP";
  direction = up;
  weight = pos 900_000;
  confidence = pos 900_000;
  alpha = pos 9_000_000;
  beta = pos 1_000_000;
}

-- War moves gold, gold moves a miner, and the miner moves both gold and a bank. A day has 100 instants.
abbrev world : World ℤ
world = record {
  timezone = λ asset. some "Europe/Stockholm";
  local_date = λ zone t. t / 100;
  is_price_available = λ asset. true;
  is_elevated = λ asset. false;
  get_firing_edges = λ type_ asset conditions. some (causal ∷ []);
  get_correlation_edges = λ asset condition.
      if str_eq asset "GOLD"
      then some (correlated "GOLD" "MINER" ∷ [])
      else if str_eq asset "MINER"
      then some (correlated "MINER" "GOLD" ∷ correlated "MINER" "BANK" ∷ [])
      else none;
  new_id = λ n. n;
}

abbrev context : Context
context = record {
  context_id = 7;
  asset_id = "GOLD";
  context_version = 1;
  window_start = 0;
  window_end = 10;
  state = open_state;
  watermark = 5;
}

abbrev event : ContextEvent
event = record {
  event_id = 1;
  event_type = "WAR";
  first_seen_at = 5;
  polarity = occurrence;
  context_tags = [];
}

abbrev tables : Tables ℤ
tables = record {
  contexts = context ∷ [];
  members = (7, event) ∷ [];
  predictions = [];
  outbox = [];
}

-- Gold and what follows from it, each once: the miner does not come back to gold.
run_propagation-IsCascade_example :
    let r = run_propagation world settings context up ("GOLD" ∷ []) 300 (event ∷ []) tables in
    (new : List (PredictionMade ℤ)) × ((left_behind r).outbox ≡ new ++ [])
    × IsCascade ("GOLD" ∷ []) 3 new
    × Counts r (length new)
run_propagation-IsCascade_example =
    run_propagation-IsCascade world settings context up ("GOLD" ∷ []) 300 (event ∷ []) tables

causal-IsEdge : IsEdge causal
causal-IsEdge = record { weight_nonneg = refl; alpha_pos = refl; beta_pos = refl }

correlated-IsCorrelation : (source target : String) → IsCorrelation (correlated source target)
correlated-IsCorrelation source target = record {
  weight_nonneg = refl;
  alpha_pos = refl;
  beta_pos = refl;
}

correlated-Answers :
    (a b : Bool)
    → Answers IsCorrelation (
        if a
        then some (correlated "GOLD" "MINER" ∷ [])
        else if b
        then some (correlated "MINER" "GOLD" ∷ correlated "MINER" "BANK" ∷ [])
        else none)
correlated-Answers true b = (correlated-IsCorrelation _ _, tt)
correlated-Answers false true = (correlated-IsCorrelation _ _, (correlated-IsCorrelation _ _, tt))
correlated-Answers false false = tt

world-IsSchema : IsSchema world settings
world-IsSchema = record {
  firing = λ type_ asset c. (causal-IsEdge, tt);
  correlated = λ asset c. correlated-Answers (str_eq asset "GOLD") (str_eq asset "MINER");
  deadband_pos = refl;
  halfpoint_nonneg = refl;
}

close_ready_contexts-settled_example :
    (a : Swept ℤ) × (close_ready_contexts world settings 400_000_000 tables ≡ runs a)
    × ((id : ℕ)
        → has_id id (claimed_by settings 400_000_000 tables) ≡ true
        → unsettled id a.tables.contexts ≡ false)
close_ready_contexts-settled_example =
    close_ready_contexts-settled fixed-IsReal world settings 400_000_000 tables world-IsSchema

decision : Direction → Decision ℤ
decision direction = record {
  direction = direction;
  magnitude = small;
  confidence = pos 500_000;
  contributing_edges = [];
  contributing_factors = [];
}

-- The direction changes with each call, which is an hour later than the one before.
abbrev call : ℕ → ℕ → Direction → Bool → StoreCall ℤ
call now version direction open_ = record {
  now = now;
  is_price_available = λ asset. open_;
  context = record context { context_version = version };
  decision = decision direction;
  events = [];
  depth = 0;
  chain = [];
}

abbrev store_calls : List (StoreCall ℤ)
store_calls =
    call 301 1 up true ∷ call 302 2 down true ∷ call 303 3 up true ∷ call 604 4 up true ∷ []

within : IsWithin (λ t. t / 100) "GOLD" 2 300 (tables.predictions)
within = record { past = tt; few = λ d. ground arith }

in_order : InOrder 300 store_calls
in_order = (ground arith, (ground arith, (ground arith, (ground arith, tt))))

run_stores-stances_on_example :
    stances_on (λ t. t / 100) "GOLD" 3 (run_stores world settings store_calls tables).predictions
    ≤ 2
run_stores-stances_on_example =
    run_stores-stances_on world settings "GOLD" "Europe/Stockholm" store_calls tables 300 3 refl
      (λ x y h. ground arith) (ground arith) within in_order
