-- ===== src/Prediction/Propagation.antt =====
-- src/services/prediction/prediction/pipeline.py: `_run_propagation` and `_collect_inbound`, which carry a
-- direct decision along the correlation edges, level by level.
pub mod Cascade
pub mod Runs
pub mod Returns
use Prim.Native.String.{String}
use text.Mathlib.Text.{◌==◌ as str_eq}
use stock_prediction.Base.{
  ℕ, zero, suc, ◌+◌, Bool, true, false, not, ◌&&◌, ◌||◌, Option, none, some, List, [], ◌∷◌, ◌++◌,
  map, any, length, ltb, if◌then◌else◌, is_empty,
}
use stock_prediction.Number.{Number}
use stock_prediction.Schema.{Direction, EventPolarity, up, neutral, same_direction}
use stock_prediction.Prediction.Edge.{FiringEdge, CorrelationEdge}
use stock_prediction.Prediction.Decision.{
  Decision, Decided, no_decision, decided, zero_division, decide,
}
use stock_prediction.Prediction.Repository.{Context, ContextEvent, Hop, Tables}
use stock_prediction.Prediction.Stance.{World, Settings, store_prediction}

-- `current_pass`: a dict in insertion order, whose keys are distinct.
abbrev pub Pass : Type 0 → Type 0
Pass R = List (String × (Direction × List (Hop R)))

pub record Arrival (R : Type 0) : Type 0 where
  pub firing : FiringEdge R
  pub source : String
  pub chain : List (Hop R)

abbrev pub Inbound : Type 0 → Type 0
Inbound R = List (String × List (Arrival R))

-- `in` on a set of assets.
abbrev pub is_in : String → List String → Bool
is_in asset visited = any (str_eq asset) visited

-- `source_direction is Direction.UP`
condition_of : Direction → String
condition_of up = "UPSTREAM_UP"
condition_of _ = "UPSTREAM_DOWN"

-- `firing.condition or ConditionCode.UPSTREAM_UP`
or_upstream_up : Option String → String
or_upstream_up none = "UPSTREAM_UP"
or_upstream_up (some c) = if is_empty c then "UPSTREAM_UP" else c

module _ {R : Type 0} where
  -- `inbound.setdefault(target, []).append(arrival)`
  pub append_to : String → Arrival R → Inbound R → Inbound R
  append_to target arrival [] = (target, arrival ∷ []) ∷ []
  append_to target arrival ((t, arrivals) ∷ rest) =
      let later = append_to target arrival rest in
      if str_eq t target then (t, arrivals ++ (arrival ∷ [])) ∷ rest else (t, arrivals) ∷ later

  pub synthesised : String → String → CorrelationEdge R → FiringEdge R
  synthesised source condition e = record {
    factor_id = none;
    asset_id = e.target_asset_id;
    direction = e.direction;
    weight = e.weight;
    confidence = e.confidence;
    alpha = e.alpha;
    beta = e.beta;
    condition = some condition;
    inherited_from = none;
    correlation_source_id = some source;
  }

  pub arrival_of : String → String → List (Hop R) → CorrelationEdge R → Arrival R
  unfolding synthesised
  arrival_of source condition chain e = record {
    firing = synthesised source condition e;
    source = source;
    chain = chain;
  }

  -- The loop over the edges of one source.
  pub add_edges :
      String
      → String
      → List (Hop R)
      → List String
      → List (CorrelationEdge R)
      → Inbound R
      → Inbound R
  unfolding arrival_of
  add_edges source condition chain visited [] inbound = inbound
  add_edges source condition chain visited (e ∷ es) inbound =
      add_edges source condition chain visited es (
        if is_in e.target_asset_id visited
        then inbound
        else append_to e.target_asset_id (arrival_of source condition chain e) inbound)

  add_answer :
      String
      → String
      → List (Hop R)
      → List String
      → Option (List (CorrelationEdge R))
      → Inbound R
      → Inbound R
  add_answer source condition chain visited none inbound = inbound
  add_answer source condition chain visited (some edges) inbound =
      add_edges source condition chain visited edges inbound

  pub collect_from : World R → List String → Pass R → Inbound R → Inbound R
  unfolding add_answer condition_of
  collect_from w visited [] inbound = inbound
  collect_from w visited ((source, (direction, chain)) ∷ rest) inbound =
      let condition = condition_of direction in
      collect_from w visited rest (
        add_answer source condition chain visited (w.get_correlation_edges source condition)
          inbound)

  -- `_collect_inbound`
  pub collect_inbound : World R → List String → Pass R → Inbound R
  unfolding collect_from
  collect_inbound w visited pass_ = collect_from w visited pass_ []

  -- `max((chain ...), key=len)`: the first of the longest.
  longest : List (Hop R) → List (Arrival R) → List (Hop R)
  longest best [] = best
  longest best (a ∷ rest) =
      longest (if ltb (length best) (length a.chain) then a.chain else best) rest

  parent_chain : List (Arrival R) → List (Hop R)
  unfolding longest
  parent_chain [] = []
  parent_chain (a ∷ rest) = longest a.chain rest

  hop : String → Direction → Arrival R → Hop R
  unfolding or_upstream_up
  hop target direction a = record {
    source_asset_id = a.source;
    target_asset_id = target;
    condition = or_upstream_up (a.firing).condition;
    direction = direction;
    edge_weight = (a.firing).weight;
  }

-- Where the loop over one level stands: the tables, `produced`, `visited` and `next_pass`, or that
-- `decide` raised.
pub record Level (R : Type 0) : Type 0 where
  pub tables : Tables R
  pub produced : ℕ
  pub visited : List String
  pub next_pass : Pass R

-- A raised `ZeroDivisionError` leaves the tables as they were written.
pub data Propagated (R : Type 0) : Type 0 where
  went_on : Level R → Propagated R
  raised : Tables R → Propagated R

-- `polarity_by_type` is not given.
no_polarity : String → Option EventPolarity
no_polarity _ = none

abbrev pub is_none : {A : Type 0} → List A → Bool
is_none [] = true
is_none (x ∷ xs) = false

module _ {R : Type 0} ⦃n : Number R⦄ where
  -- `if stored: ...`
  keep_target : String → Direction → List (Hop R) → Level R → Tables R × Bool → Level R
  keep_target target direction chain l (tables, true) = record l {
    tables = tables;
    produced = l.produced + 1;
    next_pass = l.next_pass ++ ((target, (direction, chain)) ∷ []);
  }
  keep_target target direction chain l (tables, false) = record l { tables = tables }

  -- What becomes of the decision about a target, as of the call of `_store_prediction`.
  pub store_target :
      World R
      → Settings R
      → Context
      → ℕ
      → List ContextEvent
      → ℕ
      → String
      → List (Arrival R)
      → Decision R
      → Level R
      → Level R
  unfolding parent_chain hop keep_target
  store_target w s record_ now events depth target arrivals d l =
      let chain = parent_chain arrivals ++ map (hop target d.direction) arrivals in
      keep_target target d.direction chain l (
        store_prediction w s (record record_ { asset_id = target }) d now events depth chain
          l.tables)

  pub decide_target :
      World R
      → Settings R
      → Context
      → ℕ
      → List ContextEvent
      → ℕ
      → String
      → List (Arrival R)
      → Decided R
      → Level R
      → Propagated R
  unfolding store_target
  decide_target w s record_ now events depth target arrivals no_decision l = went_on l
  decide_target w s record_ now events depth target arrivals zero_division l = raised l.tables
  decide_target w s record_ now events depth target arrivals (decided d) l =
      if same_direction d.direction neutral
      then went_on l
      else went_on (store_target w s record_ now events depth target arrivals d l)

  pub decision_of : Settings R → List (Arrival R) → Decided R
  unfolding no_polarity
  decision_of s arrivals =
      decide s.decision_deadband s.magnitude_small_max s.magnitude_medium_max
        s.confidence_evidence_halfpoint no_polarity false (map (λ a. a.firing) arrivals)

  -- The loop over the targets of one level.
  pub run_level :
      World R
      → Settings R
      → Context
      → ℕ
      → List ContextEvent
      → ℕ
      → Inbound R
      → Propagated R
      → Propagated R
  unfolding decide_target decision_of
  run_level w s record_ now events depth inbound (raised t) = raised t
  run_level w s record_ now events depth [] (went_on l) = went_on l
  run_level w s record_ now events depth ((target, arrivals) ∷ rest) (went_on l) =
      run_level w s record_ now events depth rest (
        decide_target w s record_ now events depth target arrivals (decision_of s arrivals)
          (record l { visited = target ∷ l.visited }))

  -- The loop over the levels; `left` is how far `depth` is from its maximum.
  pub run_levels :
      World R → Settings R → Context → ℕ → List ContextEvent → ℕ → ℕ → Propagated R → Propagated R
  unfolding run_level collect_inbound
  run_levels w s record_ now events left depth (raised t) = raised t
  run_levels w s record_ now events zero depth (went_on l) = went_on l
  run_levels w s record_ now events (suc left) depth (went_on l) =
      let next = run_levels w s record_ now events left (depth + 1) (
        run_level w s record_ now events (depth + 1) (collect_inbound w l.visited l.next_pass)
          (went_on (record l { next_pass = [] }))) in
      if is_none l.next_pass then went_on l else next

  -- `_run_propagation`, with the count in the level that it ends at.
  unfoldable pub run_propagation :
      World R
      → Settings R
      → Context
      → Direction
      → List String
      → ℕ
      → List ContextEvent
      → Tables R
      → Propagated R
  unfolding run_levels
  run_propagation w s record_ direction visited now events t =
      run_levels w s record_ now events s.max_propagation_depth 0 (
        went_on (record {
          tables = t;
          produced = 0;
          visited = visited;
          next_pass = (record_.asset_id, (direction, [])) ∷ [];
        }))

-- The tables that a propagation leaves, and the count that it returns.
pub left_behind : {R : Type 0} → Propagated R → Tables R
left_behind (went_on l) = l.tables
left_behind (raised t) = t
